-- ===== src/Script/Tests.antt =====
-- Base64 of script_engine.rs at concrete values.
use chimes_utils.Base.{◌≡◌, refl, false, inl, inr, [], ◌∷◌}
use chimes_utils.Base.Text.{Text, codes}
use chimes_utils.Base.Answer.{ok}
use chimes_utils.Script.{Base64Engine, Base64, base64_decode, base64_encode}
use chimes_utils.Script.Laws.{IsBase64, base64_decode-base64_encode}

-- An alphabet that puts a sign of its own in front, and one that decodes nothing.
unfoldable unsigned : Text → Text
unsigned [] = []
unsigned (c ∷ s) = s

abbrev standard : Base64Engine Text
standard = record { decode = λ t. inr (unsigned t); encode = λ c. b'=' ∷ c }

abbrev refusing : Base64Engine Text
refusing = record { decode = λ t. inl []; encode = λ c. c }

abbrev base64 : Base64
base64 = record {
  Bytes = Text;
  url_safe_no_pad = refusing;
  url_safe = refusing;
  standard_no_pad = refusing;
  standard = standard;
  no_bytes = [];
}

laws : IsBase64 base64
unfolding unsigned
laws = record { decode_encode = λ c. refl; no_pad_agrees = λ c v h. cc h }

base64_decode-base64_encode_example :
    base64_decode base64 Unit Unit (codes "=a\nb\n") false ≡ ok (codes "ab")
base64_decode-base64_encode_example =
    base64_decode-base64_encode base64 Unit Unit laws (codes "ab") (codes "=a\nb\n")
      (unfold base64_encode in refl)
