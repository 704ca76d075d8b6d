-- ===== src/Rsa/Tests.antt =====
-- The RSA functions of global_data.rs with keys that reverse a text.
use mathlib.Core.List.{reverse, reverse-reverse}
use mathlib.Core.Option.{some-injective}
use chimes_utils.Base.{◌≡◌, refl, sym, ap, ◌∙◌, some, []}
use chimes_utils.Base.Text.{Text, codes}
use chimes_utils.Rsa.{
  RsaCrate, decode_or_empty, rsa_decrypt_by_private_key, rsa_encrypt_by_public_key,
}
use chimes_utils.Rsa.Laws.{IsKeyPair, rsa_decrypt-rsa_encrypt}

abbrev rsa : RsaCrate
rsa = record {
  Bytes = Text;
  PrivateKey = Text;
  PublicKey = Text;
  Seed = Unit;
  no_bytes = [];
  decode64 = λ t. some t;
  encode64 = λ bs. bs;
  as_bytes = λ t. t;
  from_utf8 = λ bs. some bs;
  from_pkcs8_der = λ bs. some bs;
  from_public_key_der = λ bs. some bs;
  decrypt = λ key c. some (reverse c);
  encrypt = λ seed key bs. some (reverse bs);
}

keys : IsKeyPair rsa (codes "k") (codes "k")
unfolding decode_or_empty
keys = record {
  private = codes "k";
  public = codes "k";
  private_read = refl;
  public_read = refl;
  decrypt_encrypt = λ seed bs c h.
      ap (λ t. some (reverse t)) (sym (some-injective (reverse bs) c h))
      ∙ ap some (reverse-reverse bs);
  decode_encode = λ c. refl;
  utf8_bytes = λ t. refl;
}

decrypted : rsa_decrypt_by_private_key rsa (codes "k") (codes "cba") ≡ some (codes "abc")
decrypted =
    rsa_decrypt-rsa_encrypt rsa (codes "k") (codes "k") keys tt (codes "abc") (codes "cba")
      (unfold rsa_encrypt_by_public_key decode_or_empty in refl)
