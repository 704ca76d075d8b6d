-- ===== src/Sql/Condition.antt =====
-- The conditions of `DynamicWrapper`: patterns, null tests and lists, and the comparisons of Compare.
mod Compare
use chimes_utils.Base.{
  ℕ, ◌+◌, ◌==◌, true, false, not, Option, none, some, List, [], ◌∷◌, ◌++◌, if◌then◌else◌, length,
}
use chimes_utils.Base.Text.{Text, codes}
use chimes_utils.Base.Dict
use chimes_utils.Str.{replace, pop_char}
use chimes_utils.Sql.Rbatis.{Rbatis}
use chimes_utils.Sql.Wrapper
use chimes_utils.Sql.Wrapper.{DynamicWrapper, push_all}
unfoldable pub use chimes_utils.Sql.Condition.Compare.{
  do_format_column, convert_column, compare_column, eq, ne, gt, ge, lt, le, push_upper, between,
  not_between,
}

module _ (rb : Rbatis) where
  abbrev W : Type 0
  W = DynamicWrapper rb.Bson

  -- The text that a pattern is made of: the string itself, or the printed value.
  unfoldable pub pattern_text : rb.Bson → Text
  pattern_text v = elim (rb.as_str v) [ none ↦ rb.display v | some s ↦ s ]

  unfoldable pub like : W → Text → rb.Bson → W
  like w column obj =
      let w' = Wrapper.and rb w in
      record w' {
        sql = push_all w'.sql (
            column
            ∷ codes " "
            ∷ rb.template.like_value
            ∷ codes " "
            ∷ convert_column rb w' column
            ∷ []);
        args = w'.args ++ rb.of_text (pattern_text obj ++ codes "%") ∷ [];
      }

  unfoldable pub like_left : W → Text → rb.Bson → W
  like_left w column obj =
      let w' = Wrapper.and rb w in
      record w' {
        sql = push_all w'.sql (
            column
            ∷ codes " "
            ∷ rb.template.like_value
            ∷ codes " "
            ∷ convert_column rb w' column
            ∷ []);
        args = w'.args ++ rb.of_text (pattern_text obj ++ codes "%") ∷ [];
      }

  unfoldable pub like_right : W → Text → rb.Bson → W
  like_right w column obj =
      let w' = Wrapper.and rb w in
      record w' {
        sql = push_all w'.sql (
            column
            ∷ codes " "
            ∷ rb.template.like_value
            ∷ codes " "
            ∷ convert_column rb w' column
            ∷ []);
        args = w'.args ++ rb.of_text (pattern_text obj ++ codes "%") ∷ [];
      }

  unfoldable pub not_like : W → Text → rb.Bson → W
  not_like w column obj =
      let w' = Wrapper.and rb w in
      record w' {
        sql = push_all w'.sql (
            column
            ∷ codes " "
            ∷ rb.template.not_value
            ∷ codes " "
            ∷ rb.template.like_value
            ∷ codes " "
            ∷ convert_column rb w' column
            ∷ []);
        args = w'.args ++ rb.of_text (codes "%" ++ (pattern_text obj ++ codes "%")) ∷ [];
      }

  unfoldable pub is_null : W → Text → W
  is_null w column =
      let w' = Wrapper.and rb w in
      record w' {
        sql =
            push_all w'.sql (column ∷ rb.template.is_left_space ∷ rb.template.null_left_space ∷ []);
      }

  unfoldable pub is_not_null : W → Text → W
  is_not_null w column =
      let w' = Wrapper.and rb w in
      record w' {
        sql = push_all w'.sql (
            column ∷ rb.template.is_left_space ∷ rb.template.not_left_space
            ∷ rb.template.null_left_space ∷ []);
      }

  -- One round of the loop of `in_array` and `not_in`: a placeholder and a comma.
  unfoldable pub push_item : W → Text → rb.Bson → W
  push_item w column x = record w {
    sql = push_all w.sql (codes " " ∷ convert_column rb w column ∷ codes " " ∷ codes "," ∷ []);
    args = w.args ++ x ∷ [];
  }

  unfoldable pub push_items : W → Text → List rb.Bson → W
  push_items w column [] = w
  push_items w column (x ∷ obj) = push_items (push_item w column x) column obj

  -- The last comma is popped, and the bracket closed.
  unfoldable pub close_items : W → W
  close_items w = record w { sql = pop_char w.sql ++ codes ")" }

  unfoldable pub in_array : W → Text → List rb.Bson → W
  unfolding push_items close_items
  in_array w column [] = w
  in_array w column (x ∷ obj) =
      let w' = Wrapper.and rb w in
      close_items (
        push_items
          (record w' {
            sql = push_all w'.sql (column ∷ codes " " ∷ rb.template.in_value ∷ codes " (" ∷ []);
          })
          column (x ∷ obj))

  unfoldable pub in_ : W → Text → List rb.Bson → W
  in_ w column obj = in_array w column obj

  unfoldable pub not_in : W → Text → List rb.Bson → W
  unfolding push_items close_items
  not_in w column [] = w
  not_in w column (x ∷ obj) =
      let w' = Wrapper.and rb w in
      close_items (
        push_items
          (record w' {
            sql = push_all w'.sql (
                column
                ∷ codes " "
                ∷ rb.template.not_value
                ∷ codes " "
                ∷ rb.template.in_value
                ∷ codes " ("
                ∷ []);
          })
          column (x ∷ obj))

  -- The loop of `all_eq` over the pairs of a document, `len` in all; the word goes between them.
  unfoldable pub eq_pairs : W → ℕ → ℕ → List (Text × rb.Bson) → W
  eq_pairs w len index [] = w
  eq_pairs w len index ((k, v) ∷ map') =
      let w' = eq rb w k v in
      elim (index + 1 == len) [
        | true ↦ eq_pairs w' len index map'
        | false ↦ eq_pairs (record w' { sql = w'.sql ++ codes " and " }) len (index + 1) map'
      ]

  -- `none` is the panic of `as_document().unwrap()`.
  unfoldable pub all_eq : W → rb.Bson → Option W
  unfolding eq_pairs
  all_eq w arg =
      let w' = Wrapper.and rb w in
      if rb.is_null arg
      then some w'
      else if not (rb.is_object arg)
      then some w'
      else elim (rb.as_document arg) [
        | none ↦ none
        | some [] ↦ some w'
        | some (p ∷ map') ↦
            let w'' =
              eq_pairs (record w' { sql = w'.sql ++ codes "(" }) (length (p ∷ map')) 0 (p ∷ map') in
            some (record w'' { sql = w''.sql ++ codes ")" })
      ]
