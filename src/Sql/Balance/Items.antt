-- ===== src/Sql/Balance/Items.antt =====
-- The list conditions keep a wrapper balanced: the popped character is the comma of the last round.
use chimes_utils.Base.{◌≡◌, refl, List, [], ◌∷◌, ◌++◌, length-append, arith}
use chimes_utils.Base.Text.{Text, codes}
use chimes_utils.Str.Marks.{count, count-append}
use chimes_utils.Str.Replace.{pop_char-append}
use chimes_utils.Sql.Rbatis.{Rbatis, DriverType}
use chimes_utils.Sql.Wrapper
use chimes_utils.Sql.Wrapper.{DynamicWrapper, push_all}
use chimes_utils.Sql.Condition
use chimes_utils.Sql.Balance
use chimes_utils.Sql.Balance.{mark, IsPlain, IsPositional, IsBalanced}

module _ (rb : Rbatis) (d : DriverType) where
  abbrev W : Type 0
  W = DynamicWrapper rb.Bson

  abbrev B : W → Type 0
  B w = IsBalanced rb d w

  module _ (p : IsPositional rb d) where
    push_item-IsBalanced :
        (w : W) (column : Text) (x : rb.Bson) → B w → B (Condition.push_item rb w column x)
    unfolding Condition.push_item push_all count
    push_item-IsBalanced w column x b =
        Balance.extend rb d p w _ refl refl
          (omega
            (arith, count-append mark, length-append {0}, Balance.placeholder rb d p w column b))
          b

    push_items-IsBalanced :
        (obj : List rb.Bson) (w : W) (column : Text)
        → B w
        → B (Condition.push_items rb w column obj)
    unfolding Condition.push_items
    push_items-IsBalanced [] w column b = b
    push_items-IsBalanced (x ∷ obj) w column b =
        push_items-IsBalanced obj (Condition.push_item rb w column x) column
          (push_item-IsBalanced w column x b)

    -- After a round the text ends in a comma.
    push_items-comma :
        (obj : List rb.Bson) (w : W) (column : Text) (x : rb.Bson)
        → (s : Text) × ((Condition.push_items rb w column (x ∷ obj)).sql ≡ s ++ codes ",")
    unfolding Condition.push_items Condition.push_item push_all
    push_items-comma [] w column x = (_, refl)
    push_items-comma (y ∷ obj) w column x =
        push_items-comma obj (Condition.push_item rb w column x) column y

    close_items-IsBalanced :
        (w : W) (s : Text) → w.sql ≡ s ++ codes "," → B w → B (Condition.close_items rb w)
    unfolding Condition.close_items count
    close_items-IsBalanced w s e b =
        Balance.extend rb d p w _ refl refl
          (rw (e, pop_char-append s b',') (omega (arith, count-append mark))) b

    items-IsBalanced :
        (w : W) (column : Text) (x : rb.Bson) (obj : List rb.Bson)
        → B w
        → B (Condition.close_items rb (Condition.push_items rb w column (x ∷ obj)))
    items-IsBalanced w column x obj b =
        let (s, e) = push_items-comma obj w column x in
        close_items-IsBalanced _ s e (push_items-IsBalanced (x ∷ obj) w column b)

    pub in_array-IsBalanced :
        (w : W) (column : Text) (obj : List rb.Bson)
        → IsPlain column
        → B w
        → B (Condition.in_array rb w column obj)
    unfolding Condition.in_array push_all count
    in_array-IsBalanced w column [] hc b = b
    in_array-IsBalanced w column (x ∷ obj) hc b =
        let w' = Wrapper.and rb w in
        let b' : B w' = Balance.and-IsBalanced rb d p w b in
        items-IsBalanced _ column x obj
          (Balance.extend rb d p w' _ refl refl (omega (arith, count-append mark, p.in_word)) b')

    pub not_in-IsBalanced :
        (w : W) (column : Text) (obj : List rb.Bson)
        → IsPlain column
        → B w
        → B (Condition.not_in rb w column obj)
    unfolding Condition.not_in push_all count
    not_in-IsBalanced w column [] hc b = b
    not_in-IsBalanced w column (x ∷ obj) hc b =
        let w' = Wrapper.and rb w in
        let b' : B w' = Balance.and-IsBalanced rb d p w b in
        items-IsBalanced _ column x obj (
          Balance.extend rb d p w' _ refl refl
            (omega (arith, count-append mark, p.not_word, p.in_word)) b')
