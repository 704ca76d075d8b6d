-- ===== src/Sql/Balance.antt =====
-- Placeholders against arguments: under a driver that writes `?` for every argument, a wrapper has as
-- many question marks as arguments, whatever conditions are chained.
pub mod Likes
pub mod Items
pub mod Chain
use chimes_utils.Base.{
  ℕ, zero, suc, ◌+◌, ◌≡◌, refl, sym, ap, ◌∙◌, inl, inr, Bool, true, false, Option, none, some, List,
  [], ◌∷◌, ◌++◌, append_assoc, Bool-cases, Option-cases, if◌then◌else◌, length, length-append, All,
  arith,
}
use chimes_utils.Base.Text.{Text, codes}
use chimes_utils.Base.Dict
use chimes_utils.Str.Marks.{count, count-append}
use chimes_utils.Sql.Rbatis.{Rbatis, DriverType}
use chimes_utils.Sql.Wrapper
use chimes_utils.Sql.Wrapper.{DynamicWrapper, push_all}
use chimes_utils.Sql.Condition

abbrev pub mark : ℕ
mark = b'?'

abbrev pub IsPlain : Text → Type 0
IsPlain s = count mark s ≡ 0

-- The driver writes `?` for every argument, and no word of the template holds a question mark.
pub record IsPositional (rb : Rbatis) (d : DriverType) : Type 0 where
  pub convert : (i : ℕ) → rb.stmt_convert d i ≡ codes "?"
  pub and_both : IsPlain rb.template.and_left_right_space
  pub or_both : IsPlain rb.template.or_left_right_space
  pub and_word : IsPlain rb.template.and_value
  pub having_word : IsPlain rb.template.having_value
  pub between_word : IsPlain rb.template.between_value
  pub like_word : IsPlain rb.template.like_value
  pub not_word : IsPlain rb.template.not_value
  pub not_left : IsPlain rb.template.not_left_space
  pub is_left : IsPlain rb.template.is_left_space
  pub null_left : IsPlain rb.template.null_left_space
  pub in_word : IsPlain rb.template.in_value

module _ (rb : Rbatis) (d : DriverType) where
  abbrev W : Type 0
  W = DynamicWrapper rb.Bson

  -- The wrapper is for the driver, each of its formats keeps the one placeholder that it is given,
  -- and there are as many question marks as arguments.
  pub record IsBalanced (w : DynamicWrapper rb.Bson) : Type 0 where
    pub driver : w.driver_type ≡ d
    pub formats :
        (column : Text) → count mark (Condition.do_format_column rb w column (codes "?")) ≡ 1
    pub balanced : count mark w.sql ≡ length w.args

  module _ (p : IsPositional rb d) where
    -- A change that keeps the driver and the formats, and adds as many marks as arguments.
    pub extend :
        (w w' : W)
        → w'.driver_type ≡ w.driver_type
        → w'.formats ≡ w.formats
        → count mark w'.sql + length w.args ≡ count mark w.sql + length w'.args
        → IsBalanced w
        → IsBalanced w'
    unfolding Condition.do_format_column
    extend w w' same_driver same_formats grows b = record {
      driver = same_driver ∙ b.driver;
      formats = λ column. rw same_formats (b.formats column);
      balanced = omega (arith, b.balanced);
    }

    pub placeholder :
        (w : W) (column : Text)
        → IsBalanced w
        → count mark (Condition.convert_column rb w column) ≡ 1
    unfolding Condition.convert_column
    placeholder w column b = rw (b.driver, p.convert (length w.args)) (b.formats column)

    pub and-IsBalanced : (w : W) → IsBalanced w → IsBalanced (Wrapper.and rb w)
    unfolding Wrapper.and Wrapper.push_sql
    and-IsBalanced w b = elim (Bool-cases (Wrapper.not_allow_add_and_on_end rb w)) [
      | inl e ↦ rw e b
      | inr e ↦ rw e (extend w _ refl refl (omega (arith, count-append mark, p.and_both)) b)
    ]

    pub or-IsBalanced : (w : W) → IsBalanced w → IsBalanced (Wrapper.or rb w)
    unfolding Wrapper.or Wrapper.push_sql
    or-IsBalanced w b = elim (Bool-cases (Wrapper.not_allow_add_and_on_end rb w)) [
      | inl e ↦ rw e b
      | inr e ↦ rw e (extend w _ refl refl (omega (arith, count-append mark, p.or_both)) b)
    ]

    pub compare_column-IsBalanced :
        (op : Text) (w : W) (column : Text) (obj : rb.Bson)
        → IsPlain op
        → IsPlain column
        → IsBalanced w
        → IsBalanced (Condition.compare_column rb op w column obj)
    unfolding Condition.compare_column push_all
    compare_column-IsBalanced op w column obj ho hc b =
        let w' = Wrapper.and rb w in
        let b' : IsBalanced w' = and-IsBalanced w b in
        extend w' _ refl refl
          (omega (arith, count-append mark, length-append {0}, placeholder w' column b')) b'

    pub push_upper-IsBalanced :
        (w : W) (column : Text) (max : rb.Bson)
        → IsBalanced w
        → IsBalanced (Condition.push_upper rb w column max)
    unfolding Condition.push_upper push_all count
    push_upper-IsBalanced w column max b =
        extend w _ refl refl
          (omega (arith, count-append mark, length-append {0}, placeholder w column b, p.and_word))
          b

    pub between-IsBalanced :
        (w : W) (column : Text) (min max : rb.Bson)
        → IsPlain column
        → IsBalanced w
        → IsBalanced (Condition.between rb w column min max)
    unfolding Condition.between push_all count
    between-IsBalanced w column min max hc b =
        let w' = Wrapper.and rb w in
        let b' : IsBalanced w' = and-IsBalanced w b in
        push_upper-IsBalanced _ column max (
          extend w' _ refl refl
            (omega (
              arith,
              count-append mark,
              length-append {0},
              placeholder w' column b',
              p.between_word,
            ))
            b')

    pub not_between-IsBalanced :
        (w : W) (column : Text) (min max : rb.Bson)
        → IsPlain column
        → IsBalanced w
        → IsBalanced (Condition.not_between rb w column min max)
    unfolding Condition.not_between push_all count
    not_between-IsBalanced w column min max hc b =
        let w' = Wrapper.and rb w in
        let b' : IsBalanced w' = and-IsBalanced w b in
        push_upper-IsBalanced _ column max (
          extend w' _ refl refl
            (omega (
              arith,
              count-append mark,
              length-append {0},
              placeholder w' column b',
              p.not_word,
              p.between_word,
            ))
            b')
