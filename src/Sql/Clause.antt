-- ===== src/Sql/Clause.antt =====
-- Order, group, limit and the trimming methods of `DynamicWrapper`.
use chimes_utils.Base.{ℕ, ◌+◌, ◌==◌, Bool, true, false, List, [], ◌∷◌, ◌++◌, if◌then◌else◌, length}
use chimes_utils.Base.Text.{Text, codes}
use chimes_utils.Str.{trim, trim_end, trim_start_matches, trim_end_matches, replace, show}
use chimes_utils.Sql.Rbatis.{Rbatis}
use chimes_utils.Sql.Wrapper.{DynamicWrapper, push_all}

module _ (rb : Rbatis) where
  abbrev W : Type 0
  W = DynamicWrapper rb.Bson

  -- The words that an order or group clause takes off the end.
  unfoldable pub trim_words : Text → Text
  trim_words s =
      trim_end_matches
        (trim_end_matches (trim_end_matches s rb.template.where_left_space)
          rb.template.and_left_space)
        rb.template.or_left_space

  unfoldable pub direction : Bool → Text
  direction is_asc = if is_asc then rb.template.asc_value else rb.template.desc_value

  -- The loop of `order_by`: `index` counts the commas that have been pushed.
  unfoldable pub push_columns : Bool → ℕ → ℕ → List Text → Text → Text
  push_columns is_asc len index [] sql = sql
  push_columns is_asc len index (x ∷ columns) sql =
      let sql' = push_all sql (x ∷ codes " " ∷ direction is_asc ∷ []) in
      elim (index + 1 == len) [
        | true ↦ push_columns is_asc len index columns sql'
        | false ↦ push_columns is_asc len (index + 1) columns (sql' ++ codes ",")
      ]

  unfoldable pub order_by : W → Bool → List Text → W
  unfolding push_columns
  order_by w is_asc [] = w
  order_by w is_asc (x ∷ columns) = record w {
    sql =
        push_columns is_asc (length (x ∷ columns)) 0 (x ∷ columns)
          (trim_words (trim_end w.sql) ++ rb.template.order_by_left_right_space)
        ++ codes " ";
  }

  -- The loop of `order_bys`, with a direction for each column.
  unfoldable pub push_ordered : ℕ → ℕ → List (Text × Bool) → Text → Text
  push_ordered len index [] sql = sql
  push_ordered len index ((x, is_asc) ∷ column_asc) sql =
      let sql' = push_all sql (x ∷ codes " " ∷ direction is_asc ∷ []) in
      elim (index + 1 == len) [
        | true ↦ push_ordered len index column_asc sql'
        | false ↦ push_ordered len (index + 1) column_asc (sql' ++ codes ",")
      ]

  unfoldable pub order_bys : W → List (Text × Bool) → W
  unfolding push_ordered
  order_bys w [] = w
  order_bys w (x ∷ column_asc) = record w {
    sql =
        push_ordered (length (x ∷ column_asc)) 0 (x ∷ column_asc)
          (trim_words (trim_end w.sql) ++ rb.template.order_by_left_right_space)
        ++ codes " ";
  }

  unfoldable pub push_names : ℕ → ℕ → List Text → Text → Text
  push_names len index [] sql = sql
  push_names len index (x ∷ columns) sql = elim (index + 1 == len) [
    | true ↦ push_names len index columns (sql ++ x)
    | false ↦ push_names len (index + 1) columns ((sql ++ x) ++ codes ",")
  ]

  unfoldable pub group_by : W → List Text → W
  unfolding push_names
  group_by w [] = w
  group_by w (x ∷ columns) = record w {
    sql =
        push_names (length (x ∷ columns)) 0 (x ∷ columns)
          (trim_words (trim w.sql) ++ rb.template.group_by_left_right_space)
        ++ codes " ";
  }

  unfoldable pub limit : W → ℕ → W
  limit w n = record w {
    sql =
        push_all w.sql (codes " " ∷ rb.template.limit_value ∷ codes " " ∷ show n ∷ codes " " ∷ []);
  }

  unfoldable pub trim_space : W → W
  trim_space w = record w { sql = replace w.sql (codes "  ") (codes " ") }

  unfoldable pub trim_and : W → W
  trim_and w = record w {
    sql =
        trim_end_matches (trim_start_matches (trim w.sql) rb.template.and_right_space)
          rb.template.and_left_space;
  }

  unfoldable pub trim_or : W → W
  trim_or w = record w {
    sql =
        trim_end_matches (trim_start_matches (trim w.sql) rb.template.or_right_space)
          rb.template.or_left_space;
  }

  -- The source takes the word `and` off twice, and `or` never.
  unfoldable pub trim_and_or : W → W
  trim_and_or w = record w {
    sql =
        trim_end_matches
          (trim_start_matches
            (trim_end_matches (trim_start_matches (trim w.sql) rb.template.and_right_space)
              rb.template.and_left_space)
            rb.template.and_right_space)
          rb.template.and_left_space;
  }
