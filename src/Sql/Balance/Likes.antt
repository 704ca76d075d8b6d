-- ===== src/Sql/Balance/Likes.antt =====
-- The pattern conditions, the tests for null and `having` keep a wrapper balanced.
use chimes_utils.Base.{refl, length-append, arith}
use chimes_utils.Base.Text.{Text}
use chimes_utils.Str.Marks.{count, count-append}
use chimes_utils.Sql.Rbatis.{Rbatis, DriverType}
use chimes_utils.Sql.Wrapper
use chimes_utils.Sql.Wrapper.{DynamicWrapper, push_all}
use chimes_utils.Sql.Condition
use chimes_utils.Sql.Balance
use chimes_utils.Sql.Balance.{mark, IsPlain, IsPositional, IsBalanced}

module _ (rb : Rbatis) (d : DriverType) where
  abbrev W : Type 0
  W = DynamicWrapper rb.Bson

  abbrev B : W → Type 0
  B w = IsBalanced rb d w

  module _ (p : IsPositional rb d) where
    pub like-IsBalanced :
        (w : W) (column : Text) (obj : rb.Bson)
        → IsPlain column
        → B w
        → B (Condition.like rb w column obj)
    unfolding Condition.like push_all count
    like-IsBalanced w column obj hc b =
        let w' = Wrapper.and rb w in
        let b' : B w' = Balance.and-IsBalanced rb d p w b in
        Balance.extend rb d p w' _ refl refl
          (omega (
            arith,
            count-append mark,
            length-append {0},
            Balance.placeholder rb d p w' column b',
            p.like_word,
          ))
          b'

    pub like_left-IsBalanced :
        (w : W) (column : Text) (obj : rb.Bson)
        → IsPlain column
        → B w
        → B (Condition.like_left rb w column obj)
    unfolding Condition.like_left push_all count
    like_left-IsBalanced w column obj hc b =
        let w' = Wrapper.and rb w in
        let b' : B w' = Balance.and-IsBalanced rb d p w b in
        Balance.extend rb d p w' _ refl refl
          (omega (
            arith,
            count-append mark,
            length-append {0},
            Balance.placeholder rb d p w' column b',
            p.like_word,
          ))
          b'

    pub like_right-IsBalanced :
        (w : W) (column : Text) (obj : rb.Bson)
        → IsPlain column
        → B w
        → B (Condition.like_right rb w column obj)
    unfolding Condition.like_right push_all count
    like_right-IsBalanced w column obj hc b =
        let w' = Wrapper.and rb w in
        let b' : B w' = Balance.and-IsBalanced rb d p w b in
        Balance.extend rb d p w' _ refl refl
          (omega (
            arith,
            count-append mark,
            length-append {0},
            Balance.placeholder rb d p w' column b',
            p.like_word,
          ))
          b'

    pub not_like-IsBalanced :
        (w : W) (column : Text) (obj : rb.Bson)
        → IsPlain column
        → B w
        → B (Condition.not_like rb w column obj)
    unfolding Condition.not_like push_all count
    not_like-IsBalanced w column obj hc b =
        let w' = Wrapper.and rb w in
        let b' : B w' = Balance.and-IsBalanced rb d p w b in
        Balance.extend rb d p w' _ refl refl
          (omega (
            arith,
            count-append mark,
            length-append {0},
            Balance.placeholder rb d p w' column b',
            p.not_word,
            p.like_word,
          ))
          b'

    pub is_null-IsBalanced :
        (w : W) (column : Text) → IsPlain column → B w → B (Condition.is_null rb w column)
    unfolding Condition.is_null push_all
    is_null-IsBalanced w column hc b =
        let w' = Wrapper.and rb w in
        let b' : B w' = Balance.and-IsBalanced rb d p w b in
        Balance.extend rb d p w' _ refl refl
          (omega (arith, count-append mark, p.is_left, p.null_left)) b'

    pub is_not_null-IsBalanced :
        (w : W) (column : Text) → IsPlain column → B w → B (Condition.is_not_null rb w column)
    unfolding Condition.is_not_null push_all
    is_not_null-IsBalanced w column hc b =
        let w' = Wrapper.and rb w in
        let b' : B w' = Balance.and-IsBalanced rb d p w b in
        Balance.extend rb d p w' _ refl refl
          (omega (arith, count-append mark, p.is_left, p.not_left, p.null_left)) b'

    pub having-IsBalanced : (w : W) (s : Text) → IsPlain s → B w → B (Wrapper.having rb w s)
    unfolding Wrapper.having push_all count
    having-IsBalanced w s hs b =
        let w' = Wrapper.and rb w in
        let b' : B w' = Balance.and-IsBalanced rb d p w b in
        Balance.extend rb d p w' _ refl refl (omega (arith, count-append mark, p.having_word)) b'
