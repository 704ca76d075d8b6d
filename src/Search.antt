-- ===== src/Search.antt =====
-- The search conditions of src/utils/common_search.rs. The wrapper of rbatis that they are added to, and
-- the readings of numbers and dates that the crate does not do itself, are parameters.
pub mod Bounds
pub mod Operators
mod Tests
use chimes_utils.Base.{ℕ, Bool, Option, none, some, List, [], ◌∷◌, map, if◌then◌else◌}
use chimes_utils.Base.Text.{Text, codes, text_eq}
use chimes_utils.Base.Int.{ℤ}
use chimes_utils.Str.{split, to_lowercase}
use chimes_utils.Str.Number.{parse_i64}

pub record SearchField : Type 0 where
  pub field : Option Text
  pub operator : Option Text
  pub render : Option Text
  pub field_type : Option Text
  pub val : Option Text

pub record CommonSearch : Type 0 where
  pub limit : Option ℕ
  pub page : Option ℕ
  pub order : Option Text
  pub search : List SearchField

-- `rbatis::wrapper::Wrapper` and `rbatis::Value`. The readings give `none` for an error.
pub record Rbatis : Type 1 where
  pub Value : Type 0
  pub int64 : ℤ → Value
  pub parse_f64 : Text → Option Value
  pub string : Text → Value
  pub boolean : Bool → Value
  -- whether `DateTimeNative::from_str` and `DateNative::from_str` read the text
  pub reads_date_time : Text → Bool
  pub reads_date : Text → Bool
  pub Wrapper : Type 0
  pub and : Wrapper → Wrapper
  pub eq : Wrapper → Text → Option Value → Wrapper
  pub ne : Wrapper → Text → Option Value → Wrapper
  pub gt : Wrapper → Text → Option Value → Wrapper
  pub lt : Wrapper → Text → Option Value → Wrapper
  pub le : Wrapper → Text → Option Value → Wrapper
  pub like : Wrapper → Text → Option Value → Wrapper
  pub not_like : Wrapper → Text → Option Value → Wrapper
  pub in_ : Wrapper → Text → List (Option Value) → Wrapper
  pub not_in : Wrapper → Text → List (Option Value) → Wrapper
  pub between : Wrapper → Text → Option Value → Option Value → Wrapper
  pub not_between : Wrapper → Text → Option Value → Option Value → Wrapper
  pub is_null : Wrapper → Text → Wrapper
  pub is_not_null : Wrapper → Text → Wrapper

-- `clone().unwrap_or_default()`
abbrev pub or_default : Option Text → Text
or_default none = []
or_default (some t) = t

module _ (R : Rbatis) where
  -- A value of a lower-case type name.
  unfoldable pub typed_value : Text → Text → Option R.Value
  typed_value t field_value =
      if text_eq t (codes "integer")
      then elim (parse_i64 field_value) [ none ↦ none | some v ↦ some (R.int64 v) ]
      else if text_eq t (codes "float")
      then R.parse_f64 field_value
      else if text_eq t (codes "decimal")
      then some (R.string field_value)
      else if text_eq t (codes "boolean")
      then some (R.boolean (text_eq (to_lowercase field_value) (codes "true")))
      else if text_eq t (codes "datetime")
      then (if R.reads_date_time field_value then some (R.string field_value) else none)
      else if text_eq t (codes "date")
      then (if R.reads_date field_value then some (R.string field_value) else none)
      else some (R.string field_value)

  unfoldable pub to_value_inner : SearchField → Text → Option R.Value
  unfolding typed_value
  to_value_inner f field_value = elim f.field_type [
    | none ↦ some (R.string field_value)
    | some t ↦ typed_value (to_lowercase t) field_value
  ]

  unfoldable pub to_value : SearchField → Option R.Value
  unfolding to_value_inner
  to_value f = to_value_inner f (or_default f.val)

  unfoldable pub split_value : SearchField → List (Option R.Value)
  unfolding to_value_inner
  split_value f = map (λ s. to_value_inner f s) (split (or_default f.val) b',')

  -- `list[0]` and `list[1]`: `none` is a panic.
  unfoldable pub with_bounds :
      List (Option R.Value) → (Option R.Value → Option R.Value → R.Wrapper) → Option R.Wrapper
  with_bounds [] wrap = none
  with_bounds (a ∷ []) wrap = none
  with_bounds (a ∷ b ∷ rest) wrap = some (wrap a b)

  -- The arms of the match, on a lower-case operator.
  unfoldable pub add_condition : Text → SearchField → R.Wrapper → Option R.Wrapper
  unfolding to_value split_value with_bounds
  add_condition t f wp =
      let name = or_default f.field in
      let wpa = R.and wp in
      if text_eq t (codes "eq")
      then some (R.eq wpa name (to_value f))
      else if text_eq t (codes "ne")
      then some (R.ne wpa name (to_value f))
      else if text_eq t (codes "gt")
      then some (R.gt wpa name (to_value f))
      else if text_eq t (codes "egt")
      then some (R.gt wpa name (to_value f))
      else if text_eq t (codes "lt")
      then some (R.lt wpa name (to_value f))
      else if text_eq t (codes "elt")
      then some (R.le wpa name (to_value f))
      else if text_eq t (codes "like")
      then some (R.like wpa name (to_value f))
      else if text_eq t (codes "not like")
      then some (R.not_like wpa name (to_value f))
      else if text_eq t (codes "in")
      then some (R.in_ wpa name (split_value f))
      else if text_eq t (codes "not in")
      then some (R.not_in wpa name (split_value f))
      else if text_eq t (codes "range")
      then with_bounds (split_value f) (λ a b. R.between wpa name a b)
      else if text_eq t (codes "not range")
      then with_bounds (split_value f) (λ a b. R.not_between wpa name a b)
      else if text_eq t (codes "null")
      then some (R.is_null wpa name)
      else if text_eq t (codes "not null")
      then some (R.is_not_null wpa name)
      else some wp

  unfoldable pub add_field : SearchField → R.Wrapper → Option R.Wrapper
  unfolding add_condition
  add_field f wp = elim f.operator [ none ↦ some wp | some t ↦ add_condition (to_lowercase t) f wp ]

  -- The loop of `into_wrapper`.
  unfoldable pub add_fields : List SearchField → R.Wrapper → Option R.Wrapper
  unfolding add_field
  add_fields [] wp = some wp
  add_fields (f ∷ rest) wp = elim (add_field f wp) [ none ↦ none | some wq ↦ add_fields rest wq ]

  unfoldable pub into_wrapper : CommonSearch → R.Wrapper → Option R.Wrapper
  unfolding add_fields
  into_wrapper self wp = add_fields self.search wp
