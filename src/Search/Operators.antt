-- ===== src/Search/Operators.antt =====
-- The operator `egt` of src/utils/common_search.rs, which its name takes for greater or equal.
use chimes_utils.Base.{
  ◌≡◌, refl, sym, ◌∙◌, inl, inr, Option, none, some, List, [], ◌∷◌, map, if◌then◌else◌, Bool-cases,
  Option-cases,
}
use chimes_utils.Base.Text.{Text, codes, text_eq, text_eq_iff}
use chimes_utils.Str.{to_lowercase, lower}
use chimes_utils.Search.{
  SearchField, CommonSearch, to_value, to_value_inner, split_value, Rbatis, add_condition,
  add_field, add_fields, into_wrapper,
}

-- `egt` as `gt`.
unfoldable pub gt_for_egt : Text → Text
gt_for_egt t = if text_eq (to_lowercase t) (codes "egt") then codes "gt" else t

unfoldable new_operator : Option Text → Option Text
unfolding gt_for_egt
new_operator none = none
new_operator (some t) = some (gt_for_egt t)

unfoldable pub relabel : SearchField → SearchField
unfolding new_operator
relabel f = record f { operator = new_operator f.operator }

module _ (R : Rbatis) where
  add_condition-egt :
      (t : Text) (f : SearchField) (wp : R.Wrapper)
      → t ≡ codes "egt"
      → add_condition R t f wp ≡ add_condition R (codes "gt") f wp
  unfolding add_condition text_eq
  add_condition-egt t f wp e = rw e refl

  add_condition-gt_for_egt :
      (t : Text) (f : SearchField) (wp : R.Wrapper)
      → add_condition R (to_lowercase (gt_for_egt t)) f wp ≡ add_condition R (to_lowercase t) f wp
  unfolding gt_for_egt
  add_condition-gt_for_egt t f wp = elim (Bool-cases (text_eq (to_lowercase t) (codes "egt"))) [
    | inl h ↦
        rw (gt_for_egt, h)
          (unfold to_lowercase lower in
            sym (
              add_condition-egt (to_lowercase t) f wp
                ((text_eq_iff (to_lowercase t) (codes "egt")).0 h)))
    | inr h ↦ rw (gt_for_egt, h) refl
  ]

  -- Only the operator of a relabelled field differs.
  add_condition-relabel :
      (t : Text) (f : SearchField) (wp : R.Wrapper)
      → add_condition R t (relabel f) wp ≡ add_condition R t f wp
  unfolding add_condition relabel to_value to_value_inner split_value
  add_condition-relabel t f wp = refl

  add_field-relabel :
      (f : SearchField) (wp : R.Wrapper) → add_field R (relabel f) wp ≡ add_field R f wp
  unfolding add_field relabel new_operator
  add_field-relabel f wp =
      elim f.operator
        as (λ o.
          elim (new_operator o) [
            | none ↦ some wp
            | some t ↦ add_condition R (to_lowercase t) (relabel f) wp
          ]
          ≡ elim o [ none ↦ some wp | some t ↦ add_condition R (to_lowercase t) f wp ]) [
            | none ↦ refl
            | some t ↦
                add_condition-relabel (to_lowercase (gt_for_egt t)) f wp
                ∙ add_condition-gt_for_egt t f wp
          ]

  add_fields-relabel :
      (search : List SearchField) (wp : R.Wrapper)
      → add_fields R (map relabel search) wp ≡ add_fields R search wp
  unfolding add_fields
  add_fields-relabel [] wp = refl
  add_fields-relabel (f ∷ rest) wp = elim (Option-cases (add_field R f wp)) [
    | inl h ↦ rw (add_fields, add_field-relabel f wp, h) refl
    | inr (wq, h) ↦ rw (add_fields, add_field-relabel f wp, h) (add_fields-relabel rest wq)
  ]

  -- `into_wrapper` makes no difference between the operators `egt` and `gt`: with every `egt`
  -- replaced by `gt`, a search gives the same wrapper, or the same panic.
  pub into_wrapper-relabel :
      (self : CommonSearch) (wp : R.Wrapper)
      → into_wrapper R (record self { search = map relabel self.search }) wp
        ≡ into_wrapper R self wp
  unfolding into_wrapper
  into_wrapper-relabel self wp = add_fields-relabel self.search wp
