-- ===== src/Str/Replace.antt =====
-- `replace` and `pop`.
use chimes_utils.Base.{
  ℕ, zero, suc, ◌-◌, ◌≡◌, refl, true, some, [], ◌∷◌, ◌++◌, length, arith, inl, inr, Bool-cases,
  Option-cases, ap,
}
use chimes_utils.Base.Text.{Text}
use chimes_utils.Str.{strip_prefix, starts_with, replace_from, replace_empty, replace, pop_char}

-- The text without its first characters.
abbrev skip : ℕ → Text → Text
skip zero s = s
skip (suc k) [] = []
skip (suc k) (c ∷ s) = skip k s

strip_prefix-skip : (s p : Text) {r : Text} → strip_prefix s p ≡ some r → p ++ skip (length p) s ≡ s
unfolding strip_prefix
strip_prefix-skip s [] h = refl
strip_prefix-skip [] (d ∷ p) h = cc
strip_prefix-skip (c ∷ s) (d ∷ p) {r} h = ground (arith, strip_prefix-skip s p {r = r})

starts_with-skip : (s p : Text) → starts_with s p ≡ true → p ++ skip (length p) s ≡ s
unfolding starts_with
starts_with-skip s p h = elim (Option-cases (strip_prefix s p)) [
  | inl e ↦ cc
  | inr (r, e) ↦ strip_prefix-skip s p e
]

suc_sub_one : (n : ℕ) → suc n - 1 ≡ n
suc_sub_one n = omega arith

replace_from_self : (d : ℕ) (p s : Text) (k : ℕ) → replace_from (d ∷ p) (d ∷ p) s k ≡ skip k s
unfolding replace_from
replace_from_self d p [] zero = refl
replace_from_self d p [] (suc k) = refl
replace_from_self d p (c ∷ s) (suc k) = replace_from_self d p s k
replace_from_self d p (c ∷ s) zero = elim (Bool-cases (starts_with (c ∷ s) (d ∷ p))) [
  | inl e ↦
      rw (e, suc_sub_one (length p), replace_from_self d p s (length p))
        (starts_with-skip (c ∷ s) (d ∷ p) e)
  | inr e ↦ rw (e, replace_from_self d p s zero)
]

replace_empty_nil : (s : Text) → replace_empty [] s ≡ s
unfolding replace_empty
replace_empty_nil [] = refl
replace_empty_nil (c ∷ s) = ap (λ t. c ∷ t) (replace_empty_nil s)

-- Replacing a text by itself changes nothing.
pub replace_self : (s p : Text) → replace s p p ≡ s
unfolding replace
replace_self s [] = replace_empty_nil s
replace_self s (d ∷ p) = replace_from_self d p s zero

pub pop_char-append : (s : Text) (c : ℕ) → pop_char (s ++ c ∷ []) ≡ s
unfolding pop_char
pop_char-append [] c = refl
pop_char-append (d ∷ []) c = refl
pop_char-append (d ∷ e ∷ s) c = ap (λ t. d ∷ t) (pop_char-append (e ∷ s) c)
