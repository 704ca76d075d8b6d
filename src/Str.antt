-- ===== src/Str.antt =====
-- The methods of Rust's `str` and `String` that the crate calls, on lists of code points. The
-- lemmas about them are in the modules below.
pub mod Marks
pub mod Replace
pub mod Trim
pub mod Split
pub mod Unsplit
pub mod Number
pub mod Digits
pub mod Words
use mathlib.Core.List.{reverse}
use chimes_utils.Base.{
  ℕ, zero, suc, ◌+◌, ◌-◌, ◌*◌, ◌/◌, ◌%◌, Bool, true, false, not, ◌&&◌, ◌||◌, Option, none, some,
  List, [], ◌∷◌, ◌++◌, ◌==◌, ltb, leb, if◌then◌else◌, length,
}
use chimes_utils.Base.Text.{Text, codes, text_eq}

-- `char::is_whitespace`: the Unicode property White_Space.
unfoldable pub is_whitespace : ℕ → Bool
is_whitespace c =
    (leb 9 c && leb c 13)
    || c == 32
    || c == 0x85
    || c == 0xa0
    || c == 0x1680
    || (leb 0x2000 c && leb c 0x200a)
    || c == 0x2028
    || c == 0x2029
    || c == 0x202f
    || c == 0x205f
    || c == 0x3000

unfoldable pub trim_start : Text → Text
trim_start [] = []
trim_start (c ∷ s) = if is_whitespace c then trim_start s else c ∷ s

unfoldable pub trim_end : Text → Text
trim_end s = reverse (trim_start (reverse s))

unfoldable pub trim : Text → Text
trim s = trim_end (trim_start s)

unfoldable pub is_empty : Text → Bool
is_empty [] = true
is_empty (c ∷ s) = false

-- The text behind a prefix.
unfoldable pub strip_prefix : Text → Text → Option Text
strip_prefix s [] = some s
strip_prefix [] (d ∷ p) = none
strip_prefix (c ∷ s) (d ∷ p) = let rest = strip_prefix s p in if c == d then rest else none

unfoldable pub starts_with : Text → Text → Bool
unfolding strip_prefix
starts_with s p = elim (strip_prefix s p) [ none ↦ false | some r ↦ true ]

unfoldable pub ends_with : Text → Text → Bool
unfolding starts_with
ends_with s p = starts_with (reverse s) (reverse p)

-- `trim_start_matches(pat)`: the prefix is taken off as often as it stands there. The fuel is the
-- length: each round takes at least one character off, unless the pattern is empty.
unfoldable pub strip_all : ℕ → Text → Text → Text
strip_all zero s p = s
strip_all (suc f) s p = elim (strip_prefix s p) [ none ↦ s | some r ↦ strip_all f r p ]

unfoldable pub trim_start_matches : Text → Text → Text
unfolding strip_all strip_prefix
trim_start_matches s p = strip_all (length s) s p

unfoldable pub trim_end_matches : Text → Text → Text
unfolding trim_start_matches
trim_end_matches s p = reverse (trim_start_matches (reverse s) (reverse p))

-- `replace(from, to)`: the matches from left to right, none overlapping. The number counts the
-- characters of a match that are still to be passed over.
unfoldable pub replace_from : Text → Text → Text → ℕ → Text
replace_from from to [] k = []
replace_from from to (c ∷ s) (suc k) = replace_from from to s k
replace_from from to (c ∷ s) zero =
    let matched = to ++ replace_from from to s (length from - 1) in
    let kept = c ∷ replace_from from to s zero in if starts_with (c ∷ s) from then matched else kept

-- An empty pattern matches before every character and at the end.
unfoldable pub replace_empty : Text → Text → Text
replace_empty to [] = to
replace_empty to (c ∷ s) = to ++ (c ∷ replace_empty to s)

unfoldable pub replace : Text → Text → Text → Text
unfolding replace_from replace_empty starts_with
replace s [] to = replace_empty to s
replace s (d ∷ p) to = replace_from (d ∷ p) to s zero

-- `String::pop` as a statement: the last character goes.
unfoldable pub pop_char : Text → Text
pop_char [] = []
pop_char (c ∷ []) = []
pop_char (c ∷ d ∷ s) = c ∷ pop_char (d ∷ s)

-- Puts a character before the first part.
unfoldable pub onto_first : ℕ → List Text → List Text
onto_first c [] = (c ∷ []) ∷ []
onto_first c (p ∷ ps) = (c ∷ p) ∷ ps

-- `split(char)`: there is always one part more than there are separators.
unfoldable pub split : Text → ℕ → List Text
unfolding onto_first
split [] sep = [] ∷ []
split (c ∷ s) sep = let rest = split s sep in if c == sep then [] ∷ rest else onto_first c rest

-- `split_whitespace`: the parts between any two characters of white space, the empty ones left out.
unfoldable pub split_white : Text → List Text
unfolding is_whitespace onto_first
split_white [] = [] ∷ []
split_white (c ∷ s) =
    let rest = split_white s in if is_whitespace c then [] ∷ rest else onto_first c rest

unfoldable pub non_empty : List Text → List Text
non_empty [] = []
non_empty ([] ∷ ps) = non_empty ps
non_empty ((c ∷ p) ∷ ps) = (c ∷ p) ∷ non_empty ps

unfoldable pub split_whitespace : Text → List Text
unfolding split_white non_empty
split_whitespace s = non_empty (split_white s)

-- The decimal digits of a number, as `{}` prints it. The fuel is more than the number of digits.
unfoldable pub show_from : ℕ → ℕ → Text → Text
show_from zero n out = out
show_from (suc f) n out =
    let d = b'0' + n % 10 in
    elim (n / 10 == 0) [ true ↦ d ∷ out | false ↦ show_from f (n / 10) (d ∷ out) ]

unfoldable pub show : ℕ → Text
unfolding show_from
show n = show_from (suc n) n []

-- `to_lowercase`, for a text that is compared with ASCII words: the ASCII capitals, and the Kelvin
-- sign, the one other character whose lower case is one ASCII character.
unfoldable pub lower : ℕ → ℕ
lower c = if leb b'A' c && leb c b'Z' then c + 32 else if c == 0x212a then b'k' else c

unfoldable pub to_lowercase : Text → Text
unfolding lower
to_lowercase [] = []
to_lowercase (c ∷ s) = lower c ∷ to_lowercase s

-- A line without its `\r\n` or `\n` ending keeps everything else.
unfoldable pub chomp : Text → Text
chomp [] = []
chomp (c ∷ []) = if c == b'\r' then [] else c ∷ []
chomp (c ∷ d ∷ s) = c ∷ chomp (d ∷ s)

-- The parts between line feeds as lines: the last part ends in no line feed, and is no line if it is
-- empty.
unfoldable pub lines_of : List Text → List Text
unfolding chomp
lines_of [] = []
lines_of ([] ∷ []) = []
lines_of ((c ∷ s) ∷ []) = (c ∷ s) ∷ []
lines_of (p ∷ q ∷ ps) = chomp p ∷ lines_of (q ∷ ps)

unfoldable pub lines : Text → List Text
unfolding lines_of split
lines s = lines_of (split s b'\n')
