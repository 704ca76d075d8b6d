-- ===== src/Sql/Balance/Chain.antt =====
-- Chains of calls on a wrapper.
use chimes_utils.Base.{◌≡◌, refl, List, [], ◌∷◌, length, All, arith}
use chimes_utils.Base.Text.{Text, codes}
use chimes_utils.Base.Dict
use chimes_utils.Str.Marks.{count, count-append}
use chimes_utils.Sql.Rbatis.{Rbatis, DriverType}
use chimes_utils.Sql.Wrapper
use chimes_utils.Sql.Wrapper.{DynamicWrapper}
use chimes_utils.Sql.Condition
use chimes_utils.Sql.Balance
use chimes_utils.Sql.Balance.{mark, IsPlain, IsPositional, IsBalanced}
use chimes_utils.Sql.Balance.Likes
use chimes_utils.Sql.Balance.Items

-- A call of a method that adds conditions.
pub data Call (Bson : Type 0) : Type 0 where
  and or : Call Bson
  having push_sql : Text → Call Bson
  eq ne gt ge lt le like like_left like_right not_like : Text → Bson → Call Bson
  between not_between : Text → Bson → Bson → Call Bson
  is_null is_not_null : Text → Call Bson
  in_array in_ not_in : Text → List Bson → Call Bson

-- No column or raw text of the call holds a question mark.
abbrev pub IsPlainCall : {Bson : Type 0} → Call Bson → Type 0
IsPlainCall and = Unit
IsPlainCall or = Unit
IsPlainCall (having s) = IsPlain s
IsPlainCall (push_sql s) = IsPlain s
IsPlainCall (eq column obj) = IsPlain column
IsPlainCall (ne column obj) = IsPlain column
IsPlainCall (gt column obj) = IsPlain column
IsPlainCall (ge column obj) = IsPlain column
IsPlainCall (lt column obj) = IsPlain column
IsPlainCall (le column obj) = IsPlain column
IsPlainCall (like column obj) = IsPlain column
IsPlainCall (like_left column obj) = IsPlain column
IsPlainCall (like_right column obj) = IsPlain column
IsPlainCall (not_like column obj) = IsPlain column
IsPlainCall (between column min max) = IsPlain column
IsPlainCall (not_between column min max) = IsPlain column
IsPlainCall (is_null column) = IsPlain column
IsPlainCall (is_not_null column) = IsPlain column
IsPlainCall (in_array column obj) = IsPlain column
IsPlainCall (in_ column obj) = IsPlain column
IsPlainCall (not_in column obj) = IsPlain column

module _ (rb : Rbatis) where
  abbrev W : Type 0
  W = DynamicWrapper rb.Bson

  unfoldable pub call : W → Call rb.Bson → W
  call w and = Wrapper.and rb w
  call w or = Wrapper.or rb w
  call w (having s) = Wrapper.having rb w s
  call w (push_sql s) = Wrapper.push_sql rb w s
  call w (eq column obj) = Condition.eq rb w column obj
  call w (ne column obj) = Condition.ne rb w column obj
  call w (gt column obj) = Condition.gt rb w column obj
  call w (ge column obj) = Condition.ge rb w column obj
  call w (lt column obj) = Condition.lt rb w column obj
  call w (le column obj) = Condition.le rb w column obj
  call w (like column obj) = Condition.like rb w column obj
  call w (like_left column obj) = Condition.like_left rb w column obj
  call w (like_right column obj) = Condition.like_right rb w column obj
  call w (not_like column obj) = Condition.not_like rb w column obj
  call w (between column min max) = Condition.between rb w column min max
  call w (not_between column min max) = Condition.not_between rb w column min max
  call w (is_null column) = Condition.is_null rb w column
  call w (is_not_null column) = Condition.is_not_null rb w column
  call w (in_array column obj) = Condition.in_array rb w column obj
  call w (in_ column obj) = Condition.in_ rb w column obj
  call w (not_in column obj) = Condition.not_in rb w column obj

  unfoldable pub chain : W → List (Call rb.Bson) → W
  unfolding call
  chain w [] = w
  chain w (c ∷ cs) = chain (call w c) cs

  module _ (d : DriverType) (p : IsPositional rb d) where
    call-IsBalanced :
        (w : W) (c : Call rb.Bson) → IsPlainCall c → IsBalanced rb d w → IsBalanced rb d (call w c)
    unfolding call Condition.eq Condition.ne Condition.gt Condition.ge Condition.lt Condition.le
        Condition.in_ Wrapper.push_sql count
    call-IsBalanced w and h b = Balance.and-IsBalanced rb d p w b
    call-IsBalanced w or h b = Balance.or-IsBalanced rb d p w b
    call-IsBalanced w (having s) h b = Likes.having-IsBalanced rb d p w s h b
    call-IsBalanced w (push_sql s) h b =
        Balance.extend rb d p w _ refl refl (omega (arith, count-append mark)) b
    call-IsBalanced w (eq column obj) h b =
        Balance.compare_column-IsBalanced rb d p (codes " = ") w column obj refl h b
    call-IsBalanced w (ne column obj) h b =
        Balance.compare_column-IsBalanced rb d p (codes " <> ") w column obj refl h b
    call-IsBalanced w (gt column obj) h b =
        Balance.compare_column-IsBalanced rb d p (codes " > ") w column obj refl h b
    call-IsBalanced w (ge column obj) h b =
        Balance.compare_column-IsBalanced rb d p (codes " >= ") w column obj refl h b
    call-IsBalanced w (lt column obj) h b =
        Balance.compare_column-IsBalanced rb d p (codes " < ") w column obj refl h b
    call-IsBalanced w (le column obj) h b =
        Balance.compare_column-IsBalanced rb d p (codes " <= ") w column obj refl h b
    call-IsBalanced w (like column obj) h b = Likes.like-IsBalanced rb d p w column obj h b
    call-IsBalanced w (like_left column obj) h b =
        Likes.like_left-IsBalanced rb d p w column obj h b
    call-IsBalanced w (like_right column obj) h b =
        Likes.like_right-IsBalanced rb d p w column obj h b
    call-IsBalanced w (not_like column obj) h b = Likes.not_like-IsBalanced rb d p w column obj h b
    call-IsBalanced w (between column min max) h b =
        Balance.between-IsBalanced rb d p w column min max h b
    call-IsBalanced w (not_between column min max) h b =
        Balance.not_between-IsBalanced rb d p w column min max h b
    call-IsBalanced w (is_null column) h b = Likes.is_null-IsBalanced rb d p w column h b
    call-IsBalanced w (is_not_null column) h b = Likes.is_not_null-IsBalanced rb d p w column h b
    call-IsBalanced w (in_array column obj) h b = Items.in_array-IsBalanced rb d p w column obj h b
    call-IsBalanced w (in_ column obj) h b = Items.in_array-IsBalanced rb d p w column obj h b
    call-IsBalanced w (not_in column obj) h b = Items.not_in-IsBalanced rb d p w column obj h b

    chain-IsBalanced :
        (cs : List (Call rb.Bson)) (w : W)
        → All IsPlainCall cs
        → IsBalanced rb d w
        → IsBalanced rb d (chain w cs)
    unfolding chain
    chain-IsBalanced [] w h b = b
    chain-IsBalanced (c ∷ cs) w h b = chain-IsBalanced cs (call w c) h.1 (call-IsBalanced w c h.0 b)

    -- After any chain of conditions on a new wrapper there are as many question marks in the text as
    -- there are arguments, if the driver writes `?` and no column or raw text holds one.
    pub count-chain :
        (cs : List (Call rb.Bson))
        → All IsPlainCall cs
        → count mark (chain (Wrapper.new rb d) cs).sql ≡ length (chain (Wrapper.new rb d) cs).args
    unfolding Wrapper.new Condition.do_format_column count Dict.get
    count-chain cs h =
        (chain-IsBalanced cs (Wrapper.new rb d) h
          (record { driver = refl; formats = λ column. refl; balanced = refl })).balanced
