-- ===== src/Rsa/Laws.antt =====
-- A token that is encrypted is decrypted again.
use mathlib.Core.Option.{some-injective}
use chimes_utils.Base.{◌≡◌, refl, sym, ap, ◌∙◌, Option, none, some}
use chimes_utils.Base.Maybe.{◌>>=◌}
use chimes_utils.Base.Text.{Text}
use chimes_utils.Rsa.{
  RsaCrate, decode_or_empty, rsa_decrypt_by_private_key, rsa_encrypt_by_public_key,
}

-- The keys belong together, and Base64 and UTF-8 read what they write.
pub record IsKeyPair (rsa : RsaCrate) (private_key public_key : Text) : Type 0 where
  pub private : rsa.PrivateKey
  pub public : rsa.PublicKey
  pub private_read : rsa.from_pkcs8_der (decode_or_empty rsa private_key) ≡ some private
  pub public_read : rsa.from_public_key_der (decode_or_empty rsa public_key) ≡ some public
  pub decrypt_encrypt :
      (seed : rsa.Seed) (bs c : rsa.Bytes)
      → rsa.encrypt seed public bs ≡ some c
      → rsa.decrypt private c ≡ some bs
  pub decode_encode : (c : rsa.Bytes) → rsa.decode64 (rsa.encode64 c) ≡ some c
  pub utf8_bytes : (t : Text) → rsa.from_utf8 (rsa.as_bytes t) ≡ some t

module _ (rsa : RsaCrate) (private_key public_key : Text)
    (keys : IsKeyPair rsa private_key public_key) where
  cipher-decrypt :
      (seed : rsa.Seed) (token cipher : Text) (o : Option rsa.Bytes)
      → rsa.encrypt seed keys.public (rsa.as_bytes token) ≡ o
      → (o >>= (λ rs. some (rsa.encode64 rs))) ≡ some cipher
      → rsa_decrypt_by_private_key rsa private_key cipher ≡ some token
  unfolding rsa_decrypt_by_private_key decode_or_empty
  cipher-decrypt seed token cipher none e h = cc h
  cipher-decrypt seed token cipher (some c) e h =
      rw
        (
          rsa_decrypt_by_private_key,
          sym (some-injective (rsa.encode64 c) cipher h),
          keys.private_read,
          decode_or_empty,
          keys.decode_encode c,
          keys.decrypt_encrypt seed (rsa.as_bytes token) c e,
        )
        (keys.utf8_bytes token)

  -- Let the two configured keys belong together. A token that is encrypted by the public key, with
  -- whatever padding, is given back by the decryption with the private key.
  pub rsa_decrypt-rsa_encrypt :
      (seed : rsa.Seed) (token cipher : Text)
      → rsa_encrypt_by_public_key rsa seed public_key token ≡ some cipher
      → rsa_decrypt_by_private_key rsa private_key cipher ≡ some token
  unfolding rsa_encrypt_by_public_key
  rsa_decrypt-rsa_encrypt seed token cipher h =
      cipher-decrypt seed token cipher (rsa.encrypt seed keys.public (rsa.as_bytes token)) refl (
        ap
          (λ o. o >>= (λ pkey.
            rsa.encrypt seed pkey (rsa.as_bytes token) >>= (λ rs. some (rsa.encode64 rs))))
          (sym keys.public_read)
        ∙ h)
