-- ===== src/Str/Marks.antt =====
-- How often a character stands in a text.
use chimes_utils.Base.{ℕ, ◌+◌, ◌≡◌, [], ◌∷◌, ◌++◌, ◌==◌, if◌then◌else◌, arith}
use chimes_utils.Base.Text.{Text}

unfoldable pub count : ℕ → Text → ℕ
count c [] = 0
count c (d ∷ s) = (if d == c then 1 else 0) + count c s

pub count-append : (c : ℕ) (s t : Text) → count c (s ++ t) ≡ count c s + count c t
unfolding count
count-append c [] t = omega arith
count-append c (d ∷ s) t = omega (arith, count-append c s t)
