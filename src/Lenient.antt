-- ===== src/Lenient.antt =====
-- The lenient readings of JSON fields in src/utils/global_data.rs: a field that is a text or a number. The
-- argument is what serde makes of the field, `none` for an error, and so is the result.
pub mod Numbers
mod Tests
use chimes_utils.Base.{ℕ, Bool, true, false, not, Option, none, some, if◌then◌else◌, ◌==◌}
use chimes_utils.Base.Text.{Text, codes, text_eq}
use chimes_utils.Base.Int.{ℤ, pos, negsuc, as_i32}
use chimes_utils.Str.Number.{parse_i64, parse_u64}

pub data StrOrU64 : Type 0 where
  no_u64 : StrOrU64
  u64_string : Text → StrOrU64
  u64 : ℕ → StrOrU64

pub data StrOrI64 : Type 0 where
  no_i64 : StrOrI64
  i64_string : Text → StrOrI64
  i64 : ℤ → StrOrI64

pub data StrOrBool : Type 0 where
  bool_string : Text → StrOrBool
  bool_i64 : ℤ → StrOrBool
  bool : Bool → StrOrBool
  no_bool : StrOrBool

unfoldable pub u64_from_str : Option StrOrU64 → Option ℕ
u64_from_str none = none
u64_from_str (some (u64_string v)) = elim (parse_u64 v) [ none ↦ some 0 | some n ↦ some n ]
u64_from_str (some (u64 v)) = some v
u64_from_str (some no_u64) = some 0

unfoldable pub i64_from_str : Option StrOrI64 → Option (Option ℤ)
i64_from_str none = none
i64_from_str (some (i64_string v)) = some (parse_i64 v)
i64_from_str (some (i64 v)) = some (some v)
i64_from_str (some no_i64) = some none

unfoldable pub i32_from_str : Option StrOrI64 → Option (Option ℤ)
i32_from_str none = none
i32_from_str (some (i64_string v)) = elim (parse_i64 v) [
  | none ↦ some none
  | some st ↦ some (some (as_i32 st))
]
i32_from_str (some (i64 v)) = some (some (as_i32 v))
i32_from_str (some no_i64) = some none

-- `parse::<bool>`.
unfoldable pub parse_bool : Text → Option Bool
parse_bool v =
    if text_eq v (codes "true")
    then some true
    else if text_eq v (codes "false")
    then some false
    else none

unfoldable pub is_zero : ℤ → Bool
is_zero (pos n) = n == 0
is_zero (negsuc n) = false

-- It gives no error: where serde does, the value is absent.
unfoldable pub bool_from_str : Option StrOrBool → Option Bool
unfolding parse_bool is_zero
bool_from_str none = none
bool_from_str (some (bool_string v)) = parse_bool v
bool_from_str (some (bool_i64 v)) = some (not (is_zero v))
bool_from_str (some (bool v)) = some v
bool_from_str (some no_bool) = some false

-- The floating point numbers; `parse` is Rust's, and `zero` its default.
pub data StrOrFloat (F : Type 0) : Type 0 where
  no_float : StrOrFloat F
  float_string : Text → StrOrFloat F
  float : F → StrOrFloat F

module _ {F : Type 0} (parse : Text → Option F) (zero : F) where
  abbrev pub parse_or_zero : Text → F
  parse_or_zero v = elim (parse v) [ none ↦ zero | some f ↦ f ]

  -- `f64_from_str`, of `StrOrF64`.
  unfoldable pub f64_from_str : Option (StrOrFloat F) → Option (Option F)
  f64_from_str none = none
  f64_from_str (some (float_string v)) = some (some (parse_or_zero v))
  f64_from_str (some (float v)) = some (some v)
  f64_from_str (some no_float) = some none

  -- `f32_from_str`, of `StrOrF32`.
  unfoldable pub f32_from_str : Option (StrOrFloat F) → Option F
  f32_from_str none = none
  f32_from_str (some (float_string v)) = some (parse_or_zero v)
  f32_from_str (some (float v)) = some v
  f32_from_str (some no_float) = some zero
