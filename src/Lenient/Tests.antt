-- ===== src/Lenient/Tests.antt =====
-- Runs of the lenient readings of src/utils/global_data.rs, and their theorem at a concrete value.
use chimes_utils.Base.{◌≡◌, refl, some, none, arith}
use chimes_utils.Base.Text.{codes, text_eq}
use chimes_utils.Base.Int.{pos, negsuc, as_i32, as_unsigned}
use chimes_utils.Lenient.{
  i64_string, i64, bool_string, i64_from_str, i32_from_str, bool_from_str, parse_bool,
}
use chimes_utils.Lenient.Numbers.{show_i64, from_str-show_i64}

-- A number out of the range of i32 is cut without an error.
i32_cut : i32_from_str (some (i64 (pos 4294967297))) ≡ some (some (pos 1))
unfolding i32_from_str as_i32 as_unsigned
i32_cut = refl

bool_capital : bool_from_str (some (bool_string (codes "True"))) ≡ none
unfolding bool_from_str parse_bool text_eq
bool_capital = refl

from_str-show_i64_example :
    (i64_from_str (some (i64_string (show_i64 (negsuc 41))))
      ≡ i64_from_str (some (i64 (negsuc 41))))
    × (i32_from_str (some (i64_string (show_i64 (negsuc 41))))
        ≡ i32_from_str (some (i64 (negsuc 41))))
from_str-show_i64_example = from_str-show_i64 (negsuc 41) (ground arith)
