-- ===== src/Sql/Join/Items.antt =====
-- `in_array` and `not_in` of rbatis_dynamical.rs against `join`: a comma is pushed behind every item,
-- and the last one is popped.
use chimes_utils.Base.{
  ℕ, ◌+◌, ◌≡◌, refl, sym, ap, ◌∙◌, List, [], ◌∷◌, ◌++◌, append_assoc, append-nil, length,
  length-append, join,
}
use chimes_utils.Base.Text.{Text, codes}
use chimes_utils.Str.Replace.{pop_char-append}
use chimes_utils.Sql.Rbatis.{Rbatis}
use chimes_utils.Sql.Wrapper
use chimes_utils.Sql.Wrapper.{DynamicWrapper, push_all}
use chimes_utils.Sql.Condition

module _ (rb : Rbatis) where
  abbrev W : Type 0
  W = DynamicWrapper rb.Bson

  -- The placeholders of a list condition, from the `n`-th argument on, each between spaces.
  abbrev pub item_texts : W → Text → ℕ → List rb.Bson → List Text
  item_texts w column n [] = []
  item_texts w column n (x ∷ obj) =
      (codes " "
        ++ (Condition.do_format_column rb w column (rb.stmt_convert w.driver_type n) ++ codes " "))
      ∷ item_texts w column (n + 1) obj

  item_texts-push_item :
      (obj : List rb.Bson) (w : W) (column : Text) (x : rb.Bson) (n : ℕ)
      → item_texts (Condition.push_item rb w column x) column n obj ≡ item_texts w column n obj
  unfolding Condition.push_item Condition.do_format_column
  item_texts-push_item [] w column x n = refl
  item_texts-push_item (y ∷ obj) w column x n = rw (item_texts-push_item obj w column x (n + 1))

  items_text :
      (w : W) (column : Text) (x y : rb.Bson) (obj : List rb.Bson)
      → ((Condition.push_item rb w column x).sql
            ++ join (codes ",") (item_texts w column (length w.args + 1) (y ∷ obj)))
          ++ codes ","
        ≡ (w.sql ++ join (codes ",") (item_texts w column (length w.args) (x ∷ y ∷ obj)))
          ++ codes ","
  unfolding Condition.push_item push_all Condition.convert_column
  items_text w column x y obj = simp append_assoc

  length-push_item :
      (w : W) (column : Text) (x : rb.Bson)
      → length (Condition.push_item rb w column x).args ≡ length w.args + 1
  unfolding Condition.push_item
  length-push_item w column x = length-append w.args (x ∷ [])

  items_tail :
      (w : W) (column : Text) (x y : rb.Bson) (obj : List rb.Bson)
      → (let w' = Condition.push_item rb w column x in
          (w'.sql ++ join (codes ",") (item_texts w' column (length w'.args) (y ∷ obj)))
          ++ codes ",")
        ≡ (w.sql ++ join (codes ",") (item_texts w column (length w.args) (x ∷ y ∷ obj)))
          ++ codes ","
  items_tail w column x y obj =
      ap (λ l. ((Condition.push_item rb w column x).sql ++ join (codes ",") l) ++ codes ",")
        (item_texts-push_item (y ∷ obj) w column x
          (length (Condition.push_item rb w column x).args))
      ∙ ap
          (λ n.
            ((Condition.push_item rb w column x).sql
              ++ join (codes ",") (item_texts w column n (y ∷ obj)))
            ++ codes ",")
          (length-push_item w column x)
      ∙ items_text w column x y obj

  push_items_step :
      (w : W) (column : Text) (x : rb.Bson) (obj : List rb.Bson)
      → (Condition.push_items rb w column (x ∷ obj)).sql
        ≡ (Condition.push_items rb (Condition.push_item rb w column x) column obj).sql
  unfolding Condition.push_items
  push_items_step w column x obj = refl

  push_items-join :
      (obj : List rb.Bson) (w : W) (column : Text) (x : rb.Bson)
      → (Condition.push_items rb w column (x ∷ obj)).sql
        ≡ (w.sql ++ join (codes ",") (item_texts w column (length w.args) (x ∷ obj))) ++ codes ","
  push_items-join [] w column x =
      unfold Condition.push_items Condition.push_item push_all Condition.convert_column in
      simp append_assoc
  push_items-join (y ∷ obj) w column x =
      push_items_step w column x (y ∷ obj)
      ∙ push_items-join obj (Condition.push_item rb w column x) column y
      ∙ items_tail w column x y obj

  push_items-args :
      (obj : List rb.Bson) (w : W) (column : Text)
      → (Condition.push_items rb w column obj).args ≡ w.args ++ obj
  unfolding Condition.push_items Condition.push_item
  push_items-args [] w column = sym (append-nil w.args)
  push_items-args (x ∷ obj) w column =
      push_items-args obj (Condition.push_item rb w column x) column
      ∙ append_assoc w.args (x ∷ []) obj

  close_items-join :
      (w : W) (column : Text) (x : rb.Bson) (obj : List rb.Bson)
      → (Condition.close_items rb (Condition.push_items rb w column (x ∷ obj))).sql
        ≡ (w.sql ++ join (codes ",") (item_texts w column (length w.args) (x ∷ obj))) ++ codes ")"
  unfolding Condition.close_items
  close_items-join w column x obj = rw (
    push_items-join obj w column x,
    pop_char-append (w.sql ++ join (codes ",") (item_texts w column (length w.args) (x ∷ obj)))
        b',',
  )

  args_closed :
      (w : W) (obj : List rb.Bson) (column : Text)
      → (Condition.close_items rb (Condition.push_items rb w column obj)).args ≡ w.args ++ obj
  unfolding Condition.close_items
  args_closed w obj column = push_items-args obj w column

  item_texts-sql :
      (obj : List rb.Bson) (w : W) (column s : Text) (n : ℕ)
      → item_texts (record w { sql = s }) column n obj ≡ item_texts w column n obj
  unfolding Condition.do_format_column
  item_texts-sql [] w column s n = refl
  item_texts-sql (y ∷ obj) w column s n = rw (item_texts-sql obj w column s (n + 1))

  -- What the list conditions write: the opening words, the placeholders, and the bracket.
  abbrev pub IsList : W → List Text → Text → List rb.Bson → W → Type 0
  IsList w words column obj result =
      (result.sql
        ≡ (push_all w.sql words ++ join (codes ",") (item_texts w column (length w.args) obj))
          ++ codes ")")
      × (result.args ≡ w.args ++ obj)

  closed-IsList :
      (w : W) (words : List Text) (column : Text) (x : rb.Bson) (obj : List rb.Bson)
      → IsList w words column (x ∷ obj) (
          Condition.close_items rb
            (Condition.push_items rb (record w { sql = push_all w.sql words }) column (x ∷ obj)))
  closed-IsList w words column x obj =
      let w' : W = record w { sql = push_all w.sql words } in
      (
        close_items-join w' column x obj
            ∙ ap (λ l. (push_all w.sql words ++ join (codes ",") l) ++ codes ")")
                (item_texts-sql (x ∷ obj) w column (push_all w.sql words) (length w.args)),
        args_closed w' (x ∷ obj) column,
      )

  in_array-join :
      (w : W) (column : Text) (x : rb.Bson) (obj : List rb.Bson)
      → IsList
          (Wrapper.and rb w)
          (column ∷ codes " " ∷ rb.template.in_value ∷ codes " (" ∷ [])
          column
          (x ∷ obj)
          (Condition.in_array rb w column (x ∷ obj))
  unfolding Condition.in_array
  in_array-join w column x obj = closed-IsList (Wrapper.and rb w) _ column x obj

  not_in-join :
      (w : W) (column : Text) (x : rb.Bson) (obj : List rb.Bson)
      → IsList
          (Wrapper.and rb w)
          (column
            ∷ codes " "
            ∷ rb.template.not_value
            ∷ codes " "
            ∷ rb.template.in_value
            ∷ codes " ("
            ∷ [])
          column
          (x ∷ obj)
          (Condition.not_in rb w column (x ∷ obj))
  unfolding Condition.not_in
  not_in-join w column x obj = closed-IsList (Wrapper.and rb w) _ column x obj

  -- `in_array` and `not_in` with at least one value write, each behind its own words, the
  -- placeholders of all values, numbered from the arguments that are there, with a comma between
  -- any two and none behind the last, inside brackets; and they push the values in order.
  pub in_array_not_in-IsList :
      (w : W) (column : Text) (x : rb.Bson) (obj : List rb.Bson)
      → IsList
          (Wrapper.and rb w)
          (column ∷ codes " " ∷ rb.template.in_value ∷ codes " (" ∷ [])
          column
          (x ∷ obj)
          (Condition.in_array rb w column (x ∷ obj))
        × IsList
            (Wrapper.and rb w)
            (column
              ∷ codes " "
              ∷ rb.template.not_value
              ∷ codes " "
              ∷ rb.template.in_value
              ∷ codes " ("
              ∷ [])
            column
            (x ∷ obj)
            (Condition.not_in rb w column (x ∷ obj))
  in_array_not_in-IsList w column x obj = (in_array-join w column x obj, not_in-join w column x obj)
