-- ===== src/Lenient/Numbers.antt =====
-- A number reads the same from its text and from itself, in src/utils/global_data.rs.
use chimes_utils.Base.{suc, ◌<◌, ◌^◌, ◌≡◌, refl, ap, some, ◌∷◌}
use chimes_utils.Base.Text.{Text}
use chimes_utils.Base.Int.{ℤ, pos, negsuc}
use chimes_utils.Str.{show}
use chimes_utils.Str.Number.{parse_i64}
use chimes_utils.Str.Digits.{parse_i64-show, parse_i64-minus}
use chimes_utils.Lenient.{i64_string, i64, i64_from_str, i32_from_str}

-- What `{}` prints of an i64.
unfoldable pub show_i64 : ℤ → Text
show_i64 (pos n) = show n
show_i64 (negsuc n) = b'-' ∷ show (suc n)

abbrev pub InI64 : ℤ → Type 0
InI64 (pos n) = n < 2 ^ 63
InI64 (negsuc n) = n < 2 ^ 63

parse_i64-show_i64 : (i : ℤ) → InI64 i → parse_i64 (show_i64 i) ≡ some i
unfolding show_i64
parse_i64-show_i64 (pos n) h = parse_i64-show n h
parse_i64-show_i64 (negsuc n) h = parse_i64-minus n h

-- For every i64, `i64_from_str` and `i32_from_str` give the same for the text that the number prints
-- as and for the number itself.
pub from_str-show_i64 :
    (i : ℤ)
    → InI64 i
    → (i64_from_str (some (i64_string (show_i64 i))) ≡ i64_from_str (some (i64 i)))
      × (i32_from_str (some (i64_string (show_i64 i))) ≡ i32_from_str (some (i64 i)))
unfolding i64_from_str i32_from_str
from_str-show_i64 i h =
    (ap some (parse_i64-show_i64 i h), rw (i32_from_str, parse_i64-show_i64 i h) refl)
