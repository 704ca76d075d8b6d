-- ===== src/Str/Digits.antt =====
-- Reading the digits that `{}` prints.
use chimes_utils.Base.{
  ℕ, zero, suc, ◌+◌, ◌-◌, ◌*◌, ◌/◌, ◌%◌, ◌^◌, ◌≤◌, ◌<◌, ◌≡◌, refl, ap, ◌∙◌, inl, inr, true, false,
  some, [], ◌∷◌, length, ◌==◌, leb, Bool-cases, arith,
}
use chimes_utils.Base.Text.{Text}
use chimes_utils.Base.Int.{pos, negsuc}
use chimes_utils.Str.{show_from, show}
use chimes_utils.Str.Number.{
  parse_digits, parse_unsigned, in_range_pos, in_range_neg, parse_i64, in_range_u64, parse_u64,
}

parse_digits_digit :
    (m n : ℕ) (out : Text)
    → parse_digits m ((b'0' + n % 10) ∷ out) ≡ parse_digits (m * 10 + n % 10) out
unfolding parse_digits
parse_digits_digit m n out =
    let low : leb b'0' (b'0' + n % 10) ≡ true = ground arith in
    let high : leb (b'0' + n % 10) b'9' ≡ true = ground arith in
    let digit : b'0' + n % 10 - b'0' ≡ n % 10 = omega arith in
    rw (parse_digits, low, high, digit) refl

-- Enough fuel: the number is smaller.
parse_digits-show_from :
    (f n : ℕ) (out : Text) → n < f → parse_digits 0 (show_from f n out) ≡ parse_digits n out
unfolding show_from
parse_digits-show_from zero n out h = ground (arith, h)
parse_digits-show_from (suc f) n out h = elim (Bool-cases (n / 10 == 0)) [
  | inl e ↦
      let small : 0 * 10 + n % 10 ≡ n = ground (arith, e) in
      rw (show_from, e) (parse_digits_digit 0 n out ∙ ap (λ k. parse_digits k out) small)
  | inr e ↦
      let whole : n / 10 * 10 + n % 10 ≡ n = omega arith in
      rw (show_from, e)
        (parse_digits-show_from f (n / 10) ((b'0' + n % 10) ∷ out) (ground (arith, e, h))
          ∙ parse_digits_digit (n / 10) n out
          ∙ ap (λ k. parse_digits k out) whole)
]

parse_digits-show : (n : ℕ) → parse_digits 0 (show n) ≡ some n
parse_digits-show n =
    unfold show in parse_digits-show_from (suc n) n [] (omega arith) ∙ unfold parse_digits in refl

length-show_from : (f n : ℕ) (out : Text) → length out ≤ length (show_from f n out)
unfolding show_from
length-show_from zero n out = omega arith
length-show_from (suc f) n out = elim (Bool-cases (n / 10 == 0)) [
  | inl e ↦ rw (show_from, e) (omega arith)
  | inr e ↦ rw (show_from, e) (omega (arith, length-show_from f (n / 10) ((b'0' + n % 10) ∷ out)))
]

pub length-show : (n : ℕ) → 1 ≤ length (show n)
unfolding show show_from
length-show n = elim (Bool-cases (n / 10 == 0)) [
  | inl e ↦ rw (show, show_from, e) (omega arith)
  | inr e ↦ rw (show, show_from, e) (length-show_from n (n / 10) ((b'0' + n % 10) ∷ []))
]

parse_unsigned-digits :
    (s : Text) (n : ℕ) → parse_digits 0 s ≡ some n → 1 ≤ length s → parse_unsigned s ≡ some n
unfolding parse_unsigned
parse_unsigned-digits [] n h l = ground (arith, l)
parse_unsigned-digits (c ∷ s) n h l = h

-- A text of digits has no sign.
no_sign :
    (c : ℕ) (s : Text) (n : ℕ)
    → parse_digits 0 (c ∷ s) ≡ some n
    → ((c == b'-') ≡ false) × ((c == b'+') ≡ false)
unfolding parse_digits
no_sign c s n h = ground (arith, h)

parse_i64-digits :
    (s : Text) (n : ℕ)
    → parse_digits 0 s ≡ some n
    → 1 ≤ length s
    → n < 2 ^ 63
    → parse_i64 s ≡ some (pos n)
unfolding parse_i64 in_range_pos
parse_i64-digits [] n h l fits = ground (arith, l)
parse_i64-digits (c ∷ s) n h l fits =
    let (minus, plus) = no_sign c s n h in
    rw (minus, plus, parse_unsigned-digits (c ∷ s) n h l) (ground (arith, fits))

parse_u64-digits :
    (s : Text) (n : ℕ)
    → parse_digits 0 s ≡ some n
    → 1 ≤ length s
    → n < 2 ^ 64
    → parse_u64 s ≡ some n
unfolding parse_u64 in_range_u64
parse_u64-digits [] n h l fits = ground (arith, l)
parse_u64-digits (c ∷ s) n h l fits =
    let (minus, plus) = no_sign c s n h in
    rw (plus, parse_unsigned-digits (c ∷ s) n h l) (ground (arith, fits))

pub parse_u64-show : (n : ℕ) → n < 2 ^ 64 → parse_u64 (show n) ≡ some n
parse_u64-show n fits = parse_u64-digits (show n) n (parse_digits-show n) (length-show n) fits

-- The text of a number is read back.
pub parse_i64-show : (n : ℕ) → n < 2 ^ 63 → parse_i64 (show n) ≡ some (pos n)
parse_i64-show n fits = parse_i64-digits (show n) n (parse_digits-show n) (length-show n) fits

pub parse_i64-minus : (n : ℕ) → n < 2 ^ 63 → parse_i64 (b'-' ∷ show (suc n)) ≡ some (negsuc n)
unfolding parse_i64 in_range_neg
parse_i64-minus n fits =
    rw
      (parse_unsigned-digits (show (suc n)) (suc n) (parse_digits-show (suc n))
        (length-show (suc n)))
      (ground (arith, fits))
