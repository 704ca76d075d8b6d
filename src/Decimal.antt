-- ===== src/Decimal.antt =====
-- The decimal helpers of src/utils/global_data.rs. Floating point numbers and rbatis's Decimal are a parameter.
mod Tests
use chimes_utils.Base.{Bool, true, false, Option, none, some, if◌then◌else◌}
use chimes_utils.Base.Text.{Text}
use chimes_utils.Base.Int.{ℤ, pos, negsuc}

pub record Decimals : Type 1 where
  pub F64 : Type 0
  pub F32 : Type 0
  pub Decimal : Type 0
  pub from_str : Text → Option Decimal
  pub to_string : Decimal → Text
  pub parse_f64 : Text → Option F64
  pub parse_f32 : Text → Option F32
  -- `{:.2}`
  pub format_2 : F64 → Text
  pub format_2_f32 : F32 → Text
  pub zero : F64
  pub zero_f32 : F32
  -- the literal 0.01
  pub cent : F64
  pub lt : F64 → F64 → Bool
  pub gt : F64 → F64 → Bool
  pub eq : F64 → F64 → Bool
  pub add : F64 → F64 → F64
  pub sub : F64 → F64 → F64
  pub mul : F64 → F64 → F64
  pub div : F64 → F64 → F64
  pub neg_f32 : F32 → F32
  pub of_i64 : ℤ → F64

module _ (d : Decimals) where
  unfoldable pub f32_to_decimal : d.F32 → Option d.Decimal
  f32_to_decimal f = d.from_str (d.format_2_f32 f)

  unfoldable pub f64_to_decimal : d.F64 → Option d.Decimal
  f64_to_decimal f = d.from_str (d.format_2 f)

  -- A number below 0.01 counts as 0, and so does every negative one.
  unfoldable pub f64_to_decimal_v2 : d.F64 → Option d.Decimal
  f64_to_decimal_v2 f = let cff = if d.lt f d.cent then d.zero else f in d.from_str (d.format_2 cff)

  unfoldable pub decimal_to_f32 : Option d.Decimal → d.F32
  decimal_to_f32 none = d.zero_f32
  decimal_to_f32 (some r) = elim (d.parse_f32 (d.to_string r)) [ none ↦ d.zero_f32 | some f ↦ f ]

  unfoldable pub decimal_to_f64 : Option d.Decimal → d.F64
  decimal_to_f64 none = d.zero
  decimal_to_f64 (some r) = elim (d.parse_f64 (d.to_string r)) [ none ↦ d.zero | some f ↦ f ]

  unfoldable pub decimal_compare : Option d.Decimal → Option d.Decimal → ℤ
  unfolding decimal_to_f64
  decimal_compare dc dc2 =
      let f1 = decimal_to_f64 dc in
      let f2 = decimal_to_f64 dc2 in
      if d.eq f1 f2 then pos 0 else if d.gt f1 f2 then pos 1 else negsuc 0

  unfoldable pub decimal_add : Option d.Decimal → Option d.Decimal → Bool → Option d.Decimal
  unfolding decimal_to_f64 f64_to_decimal
  decimal_add dc dc2 ng =
      let f1 = decimal_to_f64 dc in
      let f2 = decimal_to_f64 dc2 in
      if ng then f64_to_decimal (d.sub f1 f2) else f64_to_decimal (d.add f1 f2)

  unfoldable pub make_decimal_negative : Option d.Decimal → Option d.Decimal
  unfolding f32_to_decimal
  make_decimal_negative none = f32_to_decimal d.zero_f32
  make_decimal_negative (some r) = elim (d.parse_f32 (d.to_string r)) [
    | some t ↦ f32_to_decimal (d.neg_f32 t)
    | none ↦ f32_to_decimal d.zero_f32
  ]

  unfoldable pub int_to_decimal : Option ℤ → d.F64 → Option d.Decimal
  unfolding f64_to_decimal
  int_to_decimal none mltp = none
  int_to_decimal (some val) mltp = f64_to_decimal (d.div (d.of_i64 val) mltp)

  unfoldable pub decimal_mult_decimal : Option d.Decimal → Option d.Decimal → Option d.Decimal
  unfolding decimal_to_f64 f64_to_decimal_v2
  decimal_mult_decimal val val2 =
      f64_to_decimal_v2 (d.mul (decimal_to_f64 val) (decimal_to_f64 val2))

  unfoldable pub decimal_plus_decimal : Option d.Decimal → Option d.Decimal → Option d.Decimal
  unfolding decimal_to_f64 f64_to_decimal_v2
  decimal_plus_decimal val val2 =
      f64_to_decimal_v2 (d.add (decimal_to_f64 val) (decimal_to_f64 val2))
