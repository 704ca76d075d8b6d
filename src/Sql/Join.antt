-- ===== src/Sql/Join.antt =====
-- The loops of rbatis_dynamical.rs that put commas between their items, against `join`: the counter
-- of `order_by`, `order_bys` and `group_by`.
pub mod Items
pub mod Pairs
use chimes_utils.Base.{
  ℕ, zero, suc, ◌+◌, ◌≡◌, refl, sym, ap, ◌∙◌, Bool, true, false, List, [], ◌∷◌, ◌++◌, append_assoc,
  append-nil, map, length, length-append, length-map, join, ◌==◌, ==_iff, ==_refl, inl, inr,
  Bool-cases, if◌then◌else◌, arith,
}
use chimes_utils.Base.Text.{Text, codes}
use chimes_utils.Str.{trim, trim_end}
use chimes_utils.Str.Replace.{pop_char-append}
use chimes_utils.Sql.Rbatis.{Rbatis}
use chimes_utils.Sql.Wrapper
use chimes_utils.Sql.Wrapper.{DynamicWrapper, push_all}
use chimes_utils.Sql.Condition
use chimes_utils.Sql.Clause

module _ (rb : Rbatis) where
  abbrev W : Type 0
  W = DynamicWrapper rb.Bson

  -- A column with its direction, as an order clause writes it.
  abbrev pub ordered_column : Text × Bool → Text
  ordered_column (x, is_asc) = x ++ (codes " " ++ Clause.direction rb is_asc)

  push_ordered-join :
      (column_asc : List (Text × Bool)) (x : Text) (is_asc : Bool) (len index : ℕ) (sql : Text)
      → index + length ((x, is_asc) ∷ column_asc) ≡ len
      → Clause.push_ordered rb len index ((x, is_asc) ∷ column_asc) sql
        ≡ sql ++ join (codes ",") (map ordered_column ((x, is_asc) ∷ column_asc))
  unfolding Clause.push_ordered push_all
  push_ordered-join [] x is_asc len index sql e =
      rw ((==_iff (index + 1) len).1 (omega arith), Clause.push_ordered) (simp append_assoc)
  push_ordered-join ((y, asc') ∷ rest) x is_asc len index sql e =
      elim (Bool-cases (index + 1 == len)) [
        | inl h ↦ absurd (ground arith)
        | inr h ↦
            rw (h, Clause.push_ordered)
              (rw (push_ordered-join rest y asc' len (index + 1) _ (omega arith))
                (simp append_assoc))
      ]

  push_columns-eq-push_ordered :
      (columns : List Text) (is_asc : Bool) (len index : ℕ) (sql : Text)
      → Clause.push_columns rb is_asc len index columns sql
        ≡ Clause.push_ordered rb len index (map (λ x. (x, is_asc)) columns) sql
  unfolding Clause.push_columns Clause.push_ordered
  push_columns-eq-push_ordered [] is_asc len index sql = refl
  push_columns-eq-push_ordered (x ∷ columns) is_asc len index sql =
      elim (Bool-cases (index + 1 == len)) [
        | inl h ↦
            rw (h, Clause.push_columns, Clause.push_ordered)
              (push_columns-eq-push_ordered columns is_asc len index _)
        | inr h ↦
            rw (h, Clause.push_columns, Clause.push_ordered)
              (push_columns-eq-push_ordered columns is_asc len (index + 1) _)
      ]

  -- The text in front of an order clause.
  abbrev pub before_order : W → Text
  before_order w = Clause.trim_words rb (trim_end w.sql) ++ rb.template.order_by_left_right_space

  order_bys-join :
      (w : W) (x : Text × Bool) (column_asc : List (Text × Bool))
      → (Clause.order_bys rb w (x ∷ column_asc)).sql
        ≡ (before_order w ++ join (codes ",") (map ordered_column (x ∷ column_asc))) ++ codes " "
  unfolding Clause.order_bys
  order_bys-join w (x, is_asc) column_asc =
      ap (λ s. s ++ codes " ")
        (push_ordered-join column_asc x is_asc (length ((x, is_asc) ∷ column_asc)) 0
          (before_order w) (omega arith))

  -- `order_by` is `order_bys` with one direction for every column.
  order_by-eq-order_bys :
      (w : W) (is_asc : Bool) (columns : List Text)
      → Clause.order_by rb w is_asc columns ≡ Clause.order_bys rb w (map (λ x. (x, is_asc)) columns)
  unfolding Clause.order_by Clause.order_bys
  order_by-eq-order_bys w is_asc [] = refl
  order_by-eq-order_bys w is_asc (x ∷ columns) = rw (
    length-map {B = Text × Bool} columns (λ x. (x, is_asc)),
    push_columns-eq-push_ordered (x ∷ columns) is_asc (suc (length columns)) 0 (before_order w),
  )

  push_names-join :
      (columns : List Text) (x : Text) (len index : ℕ) (sql : Text)
      → index + length (x ∷ columns) ≡ len
      → Clause.push_names rb len index (x ∷ columns) sql ≡ sql ++ join (codes ",") (x ∷ columns)
  unfolding Clause.push_names
  push_names-join [] x len index sql e =
      rw ((==_iff (index + 1) len).1 (omega arith), Clause.push_names)
  push_names-join (y ∷ rest) x len index sql e = elim (Bool-cases (index + 1 == len)) [
    | inl h ↦ absurd (ground arith)
    | inr h ↦
        rw (h, Clause.push_names)
          (rw (push_names-join rest y len (index + 1) _ (omega arith)) (simp append_assoc))
  ]

  group_by-join :
      (w : W) (x : Text) (columns : List Text)
      → (Clause.group_by rb w (x ∷ columns)).sql
        ≡ ((Clause.trim_words rb (trim w.sql) ++ rb.template.group_by_left_right_space)
            ++ join (codes ",") (x ∷ columns))
          ++ codes " "
  unfolding Clause.group_by
  group_by-join w x columns =
      ap (λ s. s ++ codes " ") (push_names-join columns x (suc (length columns)) 0 _ (omega arith))

  -- The clauses with at least one column. `order_bys` writes the columns with their directions,
  -- commas between any two and a space behind the last one; `order_by` does so with one direction
  -- for every column; and `group_by` writes the columns alone in this way, behind its own words.
  pub clauses-join :
      (w : W) (x : Text × Bool) (column_asc : List (Text × Bool)) (y : Text) (columns : List Text)
      (is_asc : Bool)
      → ((Clause.order_bys rb w (x ∷ column_asc)).sql
          ≡ (before_order w ++ join (codes ",") (map ordered_column (x ∷ column_asc))) ++ codes " ")
        × ((Clause.order_by rb w is_asc (y ∷ columns)).sql
            ≡ (before_order w
                ++ join (codes ",") (map ordered_column (map (λ z. (z, is_asc)) (y ∷ columns))))
              ++ codes " ")
        × ((Clause.group_by rb w (y ∷ columns)).sql
            ≡ ((Clause.trim_words rb (trim w.sql) ++ rb.template.group_by_left_right_space)
                ++ join (codes ",") (y ∷ columns))
              ++ codes " ")
  clauses-join w x column_asc y columns is_asc = (
    order_bys-join w x column_asc,
    ap (λ (v : W). v.sql) (order_by-eq-order_bys w is_asc (y ∷ columns))
        ∙ order_bys-join w (y, is_asc) (map (λ z. (z, is_asc)) columns),
    group_by-join w y columns,
  )
