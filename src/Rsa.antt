-- ===== src/Rsa.antt =====
-- The RSA functions of src/utils/global_data.rs over the crates rsa and base64.
pub mod Laws
mod Tests
use chimes_utils.Base.{◌⊎◌, inl, inr, Option, none, some}
use chimes_utils.Base.Maybe.{◌>>=◌}
use chimes_utils.Base.Text.{Text}

-- The standard Base64, UTF-8, the keys in their DER form, and PKCS1v15; `none` is an error. The
-- encryption draws its padding from `Seed`.
pub record RsaCrate : Type 1 where
  pub Bytes : Type 0
  pub PrivateKey : Type 0
  pub PublicKey : Type 0
  pub Seed : Type 0
  pub no_bytes : Bytes
  pub decode64 : Text → Option Bytes
  pub encode64 : Bytes → Text
  pub as_bytes : Text → Bytes
  pub from_utf8 : Bytes → Option Text
  pub from_pkcs8_der : Bytes → Option PrivateKey
  pub from_public_key_der : Bytes → Option PublicKey
  pub decrypt : PrivateKey → Bytes → Option Bytes
  pub encrypt : Seed → PublicKey → Bytes → Option Bytes

module _ (rsa : RsaCrate) where
  -- A text that is no Base64 counts as no bytes.
  unfoldable pub decode_or_empty : Text → rsa.Bytes
  decode_or_empty t = elim (rsa.decode64 t) [ none ↦ rsa.no_bytes | some rs ↦ rs ]

  -- The first argument is the configured `rsa_password_private_key`.
  unfoldable pub rsa_decrypt_by_private_key : Text → Text → Option Text
  unfolding decode_or_empty
  rsa_decrypt_by_private_key private_key token = do
    pkey ← rsa.from_pkcs8_der (decode_or_empty private_key)
    rs ← rsa.decrypt pkey (decode_or_empty token)
    rsa.from_utf8 rs

  -- The first argument is the configured `rsa_password_public_key`.
  unfoldable pub rsa_encrypt_by_public_key : rsa.Seed → Text → Text → Option Text
  unfolding decode_or_empty
  rsa_encrypt_by_public_key seed public_key token = do
    pkey ← rsa.from_public_key_der (decode_or_empty public_key)
    rs ← rsa.encrypt seed pkey (rsa.as_bytes token)
    some (rsa.encode64 rs)
