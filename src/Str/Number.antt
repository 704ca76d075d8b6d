-- ===== src/Str/Number.antt =====
-- `parse` of Rust for `i64`: an optional sign and at least one digit, in range.
use chimes_utils.Base.{
  ℕ, ◌+◌, ◌-◌, ◌*◌, ◌^◌, ◌&&◌, Option, none, some, [], ◌∷◌, ◌==◌, leb, ltb, if◌then◌else◌,
}
use chimes_utils.Base.Int.{ℤ, pos, negsuc}
use chimes_utils.Base.Text.{Text}

-- The digits behind `n`.
unfoldable pub parse_digits : ℕ → Text → Option ℕ
parse_digits n [] = some n
parse_digits n (c ∷ s) =
    let rest = parse_digits (n * 10 + (c - b'0')) s in
    if leb b'0' c && leb c b'9' then rest else none

unfoldable pub parse_unsigned : Text → Option ℕ
unfolding parse_digits
parse_unsigned [] = none
parse_unsigned (c ∷ s) = parse_digits 0 (c ∷ s)

unfoldable pub in_range_pos : Option ℕ → Option ℤ
in_range_pos none = none
in_range_pos (some n) = if ltb n (2 ^ 63) then some (pos n) else none

unfoldable pub in_range_neg : Option ℕ → Option ℤ
in_range_neg none = none
in_range_neg (some n) =
    if n == 0 then some (pos 0) else if leb n (2 ^ 63) then some (negsuc (n - 1)) else none

unfoldable pub parse_i64 : Text → Option ℤ
unfolding parse_unsigned in_range_pos in_range_neg
parse_i64 [] = none
parse_i64 (c ∷ s) =
    if c == b'-'
    then in_range_neg (parse_unsigned s)
    else if c == b'+'
    then in_range_pos (parse_unsigned s)
    else in_range_pos (parse_unsigned (c ∷ s))

-- `parse` for `u64`: an optional plus sign and at least one digit, in range.
unfoldable pub in_range_u64 : Option ℕ → Option ℕ
in_range_u64 none = none
in_range_u64 (some n) = if ltb n (2 ^ 64) then some n else none

unfoldable pub parse_u64 : Text → Option ℕ
unfolding parse_unsigned in_range_u64
parse_u64 [] = none
parse_u64 (c ∷ s) =
    if c == b'+' then in_range_u64 (parse_unsigned s) else in_range_u64 (parse_unsigned (c ∷ s))

-- `parse` for `u32`.
unfoldable pub in_range_u32 : Option ℕ → Option ℕ
in_range_u32 none = none
in_range_u32 (some n) = if ltb n (2 ^ 32) then some n else none

unfoldable pub parse_u32 : Text → Option ℕ
unfolding parse_unsigned in_range_u32
parse_u32 [] = none
parse_u32 (c ∷ s) =
    if c == b'+' then in_range_u32 (parse_unsigned s) else in_range_u32 (parse_unsigned (c ∷ s))
