-- ===== src/Search/Bounds.antt =====
-- When `into_wrapper` of src/utils/common_search.rs panics: at a range without two bounds.
use chimes_utils.Base.{
  suc, ◌≤◌, ◌≡◌, ◌≢◌, ◌↔◌, refl, ◌∙◌, inl, inr, Bool, true, false, ◌||◌, Option, none, some, List,
  [], ◌∷◌, length, length-map, All, Bool-cases, Option-cases, arith,
}
use chimes_utils.Base.Text.{Text, codes, text_eq, text_eq_iff}
use chimes_utils.Str.{split, to_lowercase}
use chimes_utils.Str.Marks.{count}
use chimes_utils.Str.Split.{length-split}
use chimes_utils.Search.{
  SearchField, CommonSearch, Rbatis, or_default, to_value_inner, split_value, with_bounds,
  add_condition, add_field, add_fields, into_wrapper,
}

-- The operators that read two bounds.
unfoldable pub is_range : Text → Bool
is_range t = text_eq t (codes "range") || text_eq t (codes "not range")

-- If the operator reads two bounds, the value has a comma.
unfoldable pub HasBounds : SearchField → Type 0
unfolding is_range
HasBounds f = elim f.operator [
  | none ↦ Unit
  | some t ↦ is_range (to_lowercase t) ≡ true → 1 ≤ count b',' (or_default f.val)
]

module _ (R : Rbatis) where
  with_bounds-length :
      (list : List (Option R.Value)) (wrap : Option R.Value → Option R.Value → R.Wrapper)
      → (with_bounds R list wrap ≢ none) ↔ (2 ≤ length list)
  unfolding with_bounds
  with_bounds-length [] wrap = ground arith
  with_bounds-length (a ∷ []) wrap = ground arith
  with_bounds-length (a ∷ b ∷ rest) wrap = ground arith

  length-split_value :
      (f : SearchField) → length (split_value R f) ≡ suc (count b',' (or_default f.val))
  unfolding split_value
  length-split_value f =
      length-map (split (or_default f.val) b',') (λ s. to_value_inner R f s)
      ∙ length-split (or_default f.val) b','

  with_bounds-split_value :
      (f : SearchField) (wrap : Option R.Value → Option R.Value → R.Wrapper)
      → (with_bounds R (split_value R f) wrap ≢ none) ↔ (1 ≤ count b',' (or_default f.val))
  with_bounds-split_value f wrap =
      ground (arith, with_bounds-length (split_value R f) wrap, length-split_value f)

  add_condition-other :
      (t : Text) (f : SearchField) (wp : R.Wrapper)
      → text_eq t (codes "range") ≡ false
      → text_eq t (codes "not range") ≡ false
      → add_condition R t f wp ≢ none
  unfolding add_condition
  add_condition-other t f wp h k = rw (add_condition, h, k) (ground arith)

  add_condition-range :
      (t : Text) (f : SearchField) (wp : R.Wrapper)
      → t ≡ codes "range"
      → add_condition R t f wp
        ≡ with_bounds R (split_value R f) (λ a b. R.between (R.and wp) (or_default f.field) a b)
  unfolding add_condition text_eq
  add_condition-range t f wp e = rw e refl

  add_condition-not_range :
      (t : Text) (f : SearchField) (wp : R.Wrapper)
      → t ≡ codes "not range"
      → add_condition R t f wp
        ≡ with_bounds R (split_value R f) (λ a b. R.not_between (R.and wp) (or_default f.field) a b)
  unfolding add_condition text_eq
  add_condition-not_range t f wp e = rw e refl

  add_condition-HasBounds :
      (t : Text) (f : SearchField) (wp : R.Wrapper)
      → (add_condition R t f wp ≢ none) ↔ (is_range t ≡ true → 1 ≤ count b',' (or_default f.val))
  unfolding is_range
  add_condition-HasBounds t f wp = elim (Bool-cases (text_eq t (codes "range"))) [
    | inl h ↦
        rw (is_range, h, add_condition-range t f wp ((text_eq_iff t (codes "range")).0 h))
          (ground (
            arith,
            with_bounds-split_value f (λ a b. R.between (R.and wp) (or_default f.field) a b),
          ))
    | inr h ↦ elim (Bool-cases (text_eq t (codes "not range"))) [
      | inl k ↦
          rw
            (
              is_range,
              h,
              k,
              add_condition-not_range t f wp ((text_eq_iff t (codes "not range")).0 k),
            )
            (ground (
              arith,
              with_bounds-split_value f (λ a b. R.not_between (R.and wp) (or_default f.field) a b),
            ))
      | inr k ↦ rw (is_range, h, k) (ground (arith, add_condition-other t f wp h k))
    ]
  ]

  add_field-HasBounds : (f : SearchField) (wp : R.Wrapper) → (add_field R f wp ≢ none) ↔ HasBounds f
  unfolding add_field HasBounds
  add_field-HasBounds f wp =
      elim f.operator
        as (λ o.
          (elim o [ none ↦ some wp | some t ↦ add_condition R (to_lowercase t) f wp ] ≢ none)
          ↔ elim o [
            | none ↦ Unit
            | some t ↦ is_range (to_lowercase t) ≡ true → 1 ≤ count b',' (or_default f.val)
          ]) [
            | none ↦ (λ _. tt, λ _. ground arith)
            | some t ↦ add_condition-HasBounds (to_lowercase t) f wp
          ]

  add_fields-HasBounds :
      (search : List SearchField) (wp : R.Wrapper)
      → (add_fields R search wp ≢ none) ↔ All HasBounds search
  unfolding add_fields
  add_fields-HasBounds [] wp = ground arith
  add_fields-HasBounds (f ∷ rest) wp =
      let here = add_field-HasBounds f wp in
      elim (Option-cases (add_field R f wp)) [
        | inl h ↦ rw (add_fields, h) (λ n. elim (n refl) [ ], λ (b, _). λ _. here.1 b h)
        | inr (wq, h) ↦
            let ih = add_fields-HasBounds rest wq in
            let b : HasBounds f = here.0 (rw h (ground arith)) in
            rw (add_fields, h) (λ n. (b, ih.0 n), λ (_, bs). ih.1 bs)
      ]

  -- `into_wrapper` ends without a panic exactly if every field whose operator is `range` or
  -- `not range`, in any case of letters, has a comma in its value.
  pub into_wrapper-HasBounds :
      (self : CommonSearch) (wp : R.Wrapper)
      → (into_wrapper R self wp ≢ none) ↔ All HasBounds self.search
  unfolding into_wrapper
  into_wrapper-HasBounds self wp = add_fields-HasBounds self.search wp
