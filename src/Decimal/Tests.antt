-- ===== src/Decimal/Tests.antt =====
-- The decimal helpers of global_data.rs with numbers of cents.
use chimes_utils.Base.{ℕ, ◌≡◌, refl, Bool, true, false, Option, none, some, [], ◌∷◌, ltb, ◌==◌}
use chimes_utils.Base.Text.{Text}
use chimes_utils.Decimal.{
  Decimals, f64_to_decimal, f64_to_decimal_v2, decimal_to_f64, decimal_plus_decimal, decimal_add,
}

-- A negative number is a pair with `true`; the text of a number has its cents as one character.
unfoldable write : Bool × ℕ → Text
write (true, n) = b'-' ∷ n ∷ []
write (false, n) = n ∷ []

unfoldable read : Text → Option (Bool × ℕ)
read (n ∷ []) = some (false, n)
read (m ∷ n ∷ []) = some (true, n)
read _ = none

-- Subtraction of a smaller number from a larger one, which is all that is needed here.
unfoldable below : Bool × ℕ → Bool × ℕ → Bool
below (true, n) y = true
below (false, n) (true, m) = false
below (false, n) (false, m) = ltb n m

abbrev decimals : Decimals
decimals = record {
  F64 = Bool × ℕ;
  F32 = Bool × ℕ;
  Decimal = Bool × ℕ;
  from_str = read;
  to_string = write;
  parse_f64 = read;
  parse_f32 = read;
  format_2 = write;
  format_2_f32 = write;
  zero = (false, 0);
  zero_f32 = (false, 0);
  cent = (false, 1);
  lt = below;
  gt = λ x y. below y x;
  eq = λ x y. x.1 == y.1;
  add = λ x y. (x.0, x.1);
  sub = λ x y. x;
  mul = λ x y. x;
  div = λ x y. x;
  neg_f32 = λ x. x;
  of_i64 = λ n. (false, 0);
}

-- A debt and nothing make a debt for `decimal_add`, and nothing for `decimal_plus_decimal`.
debt_added : decimal_add decimals (some (true, 250)) (some (false, 0)) false ≡ some (true, 250)
unfolding decimal_add decimal_to_f64 f64_to_decimal read write
debt_added = refl

debt_lost : decimal_plus_decimal decimals (some (true, 250)) (some (false, 0)) ≡ some (false, 0)
unfolding decimal_plus_decimal decimal_to_f64 f64_to_decimal_v2 read write below
debt_lost = refl
