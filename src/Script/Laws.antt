-- ===== src/Script/Laws.antt =====
-- Base64 of script_engine.rs: what is encoded is decoded again, also with line breaks in it.
use chimes_utils.Base.{
  ℕ, zero, ◌≡◌, refl, ap, ◌∙◌, ◌⊎◌, inl, inr, false, Bool-cases, [], ◌∷◌, if◌then◌else◌, ◌==◌,
}
use chimes_utils.Base.Text.{Text}
use chimes_utils.Base.Answer.{ok}
use chimes_utils.Str.{replace, replace_from, starts_with, strip_prefix}
use chimes_utils.Script.{Base64, last_try, first_try, base64_decode, base64_encode}

-- A text without a character.
abbrev pub without : ℕ → Text → Text
without c [] = []
without c (d ∷ s) = if d == c then without c s else d ∷ without c s

replace_from-without : (c : ℕ) (s : Text) → replace_from (c ∷ []) [] s zero ≡ without c s
unfolding replace_from starts_with strip_prefix
replace_from-without c [] = refl
replace_from-without c (d ∷ s) = elim (Bool-cases (d == c)) [
  | inl y ↦ rw (y, starts_with, strip_prefix) (replace_from-without c s)
  | inr n ↦ rw (n, starts_with, strip_prefix) (ap (λ t. d ∷ t) (replace_from-without c s))
]

-- The standard alphabet with padding decodes what it encodes, and if the one without padding decodes
-- such a text at all, it gives the same.
pub record IsBase64 (base64 : Base64) : Type 0 where
  pub decode_encode : (c : base64.Bytes) → base64.standard.decode (base64.standard.encode c) ≡ inr c
  pub no_pad_agrees :
      (c v : base64.Bytes)
      → base64.standard_no_pad.decode (base64.standard.encode c) ≡ inr v
      → v ≡ c

module _ (base64 : Base64) (Io E : Type 0) (laws : IsBase64 base64) where
  tries :
      (c : base64.Bytes) (first second : Text ⊎ base64.Bytes)
      → ((v : base64.Bytes) → first ≡ inr v → v ≡ c)
      → second ≡ inr c
      → first_try base64 Io E first second ≡ ok c
  unfolding first_try last_try
  tries c (inr v) second f h = ap ok (f v refl)
  tries c (inl e) second f h = rw h refl

  -- Let the standard alphabet decode what it encodes, and the one without padding give nothing else
  -- where it gives anything. However line feeds are put into the text that `base64_encode` writes,
  -- as in a text of lines, `base64_decode` for the standard alphabet gives back what was encoded.
  pub base64_decode-base64_encode :
      (c : base64.Bytes) (base : Text)
      → without b'\n' base ≡ base64_encode base64 Io E c
      → base64_decode base64 Io E base false ≡ ok c
  unfolding base64_decode base64_encode replace
  base64_decode-base64_encode c base h =
      let e = replace_from-without b'\n' base ∙ h in
      rw (base64_decode, replace, e)
        (tries c (base64.standard_no_pad.decode (base64.standard.encode c))
          (base64.standard.decode (base64.standard.encode c)) (laws.no_pad_agrees c)
          (laws.decode_encode c))
