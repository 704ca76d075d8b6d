-- ===== src/Str/Trim.antt =====
-- Prefixes, endings and trimmed texts.
use mathlib.Core.List.{reverse, reverse-append, reverse-reverse}
use chimes_utils.Base.{ℕ, ◌≡◌, refl, ◌∙◌, true, false, some, [], ◌∷◌, ◌++◌, arith}
use chimes_utils.Base.Text.{Text}
use chimes_utils.Str.{
  is_whitespace, is_empty, strip_prefix, starts_with, ends_with, trim_start, trim_end,
}

pub strip_prefix-append : (p r : Text) → strip_prefix (p ++ r) p ≡ some r
unfolding strip_prefix
strip_prefix-append [] [] = refl
strip_prefix-append [] (c ∷ r) = refl
strip_prefix-append (d ∷ p) r = ground (arith, strip_prefix-append p r)

pub ends_with-append : (s p : Text) → ends_with (s ++ p) p ≡ true
unfolding ends_with starts_with
ends_with-append s p =
    rw (reverse-append s p, strip_prefix-append (reverse p) (reverse s), starts_with)

module _ (s : Text) (c : ℕ) where
  pub trim_end-space : is_whitespace c ≡ true → trim_end (s ++ c ∷ []) ≡ trim_end s
  unfolding trim_end trim_start
  trim_end-space h = rw (reverse-append s (c ∷ []), h)

  pub trim_end-last : is_whitespace c ≡ false → trim_end (s ++ c ∷ []) ≡ s ++ c ∷ []
  unfolding trim_end trim_start
  trim_end-last h =
      rw (reverse-append s (c ∷ []), h) (reverse-append (c ∷ []) (reverse s) ∙ rw reverse-reverse)

  pub is_empty-last : is_empty (s ++ c ∷ []) ≡ false
  unfolding is_empty
  is_empty-last = last s
    where
      last : (t : Text) → is_empty (t ++ c ∷ []) ≡ false
      last [] = refl
      last (d ∷ t) = refl
