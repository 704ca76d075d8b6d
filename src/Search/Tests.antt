-- ===== src/Search/Tests.antt =====
-- Runs of src/utils/common_search.rs, and its theorems at concrete values.
use chimes_utils.Base.{◌≡◌, ◌≢◌, ◌↔◌, refl, true, none, some, List, [], ◌∷◌, ◌++◌, All}
use chimes_utils.Base.Text.{Text, codes, text_eq}
use chimes_utils.Str.{split, onto_first, to_lowercase, lower}
use chimes_utils.Search.{
  SearchField, CommonSearch, Rbatis, split_value, with_bounds, add_condition, add_field, add_fields,
  into_wrapper,
}
use chimes_utils.Search.Bounds.{HasBounds, into_wrapper-HasBounds}

-- A wrapper is the list of the columns with the words of their conditions.
words : List (Text × Text) → Text → Text → List (Text × Text)
words w column word = w ++ (column, word) ∷ []

abbrev rbatis : Rbatis
rbatis = record {
  Value = Text;
  int64 = λ v. [];
  parse_f64 = λ s. none;
  string = λ s. s;
  boolean = λ b. [];
  reads_date_time = λ s. true;
  reads_date = λ s. true;
  Wrapper = List (Text × Text);
  and = λ w. w;
  eq = λ w c v. words w c (codes "=");
  ne = λ w c v. words w c (codes "<>");
  gt = λ w c v. words w c (codes ">");
  lt = λ w c v. words w c (codes "<");
  le = λ w c v. words w c (codes "<=");
  like = λ w c v. words w c (codes "like");
  not_like = λ w c v. words w c (codes "not like");
  in_ = λ w c l. words w c (codes "in");
  not_in = λ w c l. words w c (codes "not in");
  between = λ w c a b. words w c (codes "between");
  not_between = λ w c a b. words w c (codes "not between");
  is_null = λ w c. words w c (codes "is null");
  is_not_null = λ w c. words w c (codes "is not null");
}

abbrev condition : Text → Text → SearchField
condition operator val = record {
  field = some (codes "a");
  operator = some operator;
  render = none;
  field_type = none;
  val = some val;
}

abbrev search_of : List SearchField → CommonSearch
search_of fields = record { limit = none; page = none; order = none; search = fields }

range_without_comma :
    into_wrapper rbatis (search_of (condition (codes "RANGE") (codes "1") ∷ [])) [] ≡ none
unfolding into_wrapper add_fields add_field add_condition with_bounds split_value split onto_first
    to_lowercase lower text_eq
range_without_comma = refl

egt_is_gt :
    into_wrapper rbatis (search_of (condition (codes "egt") (codes "1") ∷ [])) []
    ≡ some ((codes "a", codes ">") ∷ [])
unfolding into_wrapper add_fields add_field add_condition to_lowercase lower text_eq words
egt_is_gt = refl

into_wrapper-HasBounds_example :
    (into_wrapper rbatis (search_of (condition (codes "range") (codes "1,2") ∷ [])) [] ≢ none)
    ↔ All HasBounds (condition (codes "range") (codes "1,2") ∷ [])
into_wrapper-HasBounds_example =
    into_wrapper-HasBounds rbatis (search_of (condition (codes "range") (codes "1,2") ∷ [])) []
