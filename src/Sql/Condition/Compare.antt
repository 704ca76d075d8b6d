-- ===== src/Sql/Condition/Compare.antt =====
-- The comparisons and ranges of `DynamicWrapper`, and the placeholder that every condition writes.
use chimes_utils.Base.{none, some, [], ◌∷◌, ◌++◌, length}
use chimes_utils.Base.Text.{Text, codes}
use chimes_utils.Base.Dict
use chimes_utils.Str.{replace}
use chimes_utils.Sql.Rbatis.{Rbatis}
use chimes_utils.Sql.Wrapper
use chimes_utils.Sql.Wrapper.{DynamicWrapper, push_all}

module _ (rb : Rbatis) where
  abbrev W : Type 0
  W = DynamicWrapper rb.Bson

  -- What `do_format_column` leaves in `data`.
  unfoldable pub do_format_column : W → Text → Text → Text
  do_format_column w column data' = elim (Dict.get column w.formats) [
    | none ↦ data'
    | some source ↦ replace source (codes "{}") data'
  ]

  -- `convert_column` as each condition computes it: the placeholder of the next argument.
  unfoldable pub convert_column : W → Text → Text
  unfolding do_format_column
  convert_column w column =
      do_format_column w column (rb.stmt_convert w.driver_type (length w.args))

  -- `column op ?`, with the argument pushed.
  unfoldable pub compare_column : Text → W → Text → rb.Bson → W
  compare_column op w column obj =
      let w' = Wrapper.and rb w in
      record w' {
        sql = push_all w'.sql (column ∷ op ∷ convert_column w' column ∷ []);
        args = w'.args ++ obj ∷ [];
      }

  unfoldable pub eq : W → Text → rb.Bson → W
  eq w column obj = compare_column (codes " = ") w column obj

  unfoldable pub ne : W → Text → rb.Bson → W
  ne w column obj = compare_column (codes " <> ") w column obj

  unfoldable pub gt : W → Text → rb.Bson → W
  gt w column obj = compare_column (codes " > ") w column obj

  unfoldable pub ge : W → Text → rb.Bson → W
  ge w column obj = compare_column (codes " >= ") w column obj

  unfoldable pub lt : W → Text → rb.Bson → W
  lt w column obj = compare_column (codes " < ") w column obj

  unfoldable pub le : W → Text → rb.Bson → W
  le w column obj = compare_column (codes " <= ") w column obj

  -- The second half of `between`: it reads the arguments that the first half has pushed.
  unfoldable pub push_upper : W → Text → rb.Bson → W
  push_upper w column max = record w {
    sql =
        push_all w.sql
          (codes " " ∷ rb.template.and_value ∷ codes " " ∷ convert_column w column ∷ []);
    args = w.args ++ max ∷ [];
  }

  unfoldable pub between : W → Text → rb.Bson → rb.Bson → W
  between w column min max =
      let w' = Wrapper.and rb w in
      push_upper
        (record w' {
          sql = push_all w'.sql (
              column
              ∷ codes " "
              ∷ rb.template.between_value
              ∷ codes " "
              ∷ convert_column w' column
              ∷ []);
          args = w'.args ++ min ∷ [];
        })
        column max

  unfoldable pub not_between : W → Text → rb.Bson → rb.Bson → W
  not_between w column min max =
      let w' = Wrapper.and rb w in
      push_upper
        (record w' {
          sql = push_all w'.sql (
              column
              ∷ codes " "
              ∷ rb.template.not_value
              ∷ codes " "
              ∷ rb.template.between_value
              ∷ codes " "
              ∷ convert_column w' column
              ∷ []);
          args = w'.args ++ min ∷ [];
        })
        column max
