-- ===== src/Texts/Tests.antt =====
-- Runs of the text functions of src/utils/mod.rs, and its theorems at concrete values.
use chimes_utils.Base.{
  if◌then◌else◌, ℕ, ◌+◌, ◌-◌, ◌≡◌, ◌≢◌, ◌↔◌, refl, ap, ap₂, Option, none, some, [], ◌∷◌, map, All,
  arith,
}
use chimes_utils.Base.Text.{text_eq, Text, codes}
use chimes_utils.Base.Dict
use chimes_utils.Base.Dict.{Dict}
use chimes_utils.Str.{split, onto_first, is_empty, show}
use chimes_utils.Sql.Rbatis.{postgres}
use chimes_utils.Texts.{rbatis_compatible_sql, key_value, insert_pairs, parse_query, get_hash_value}
use chimes_utils.Texts.Placeholders.{numbered, rbatis_compatible_sql-numbered}
use chimes_utils.Texts.Query.{IsCodec, query_text, last_value, parse_query-query_text}
use chimes_utils.Texts.Readable.{IsReadable, value_text, parse_query-IsReadable}

rbatis_compatible_sql-numbered_example :
    rbatis_compatible_sql (some postgres) (codes "a = ? and b = ?")
    ≡ numbered 1 (codes "a = ? and b = ?")
rbatis_compatible_sql-numbered_example = rbatis_compatible_sql-numbered (codes "a = ? and b = ?")

numbered_two : numbered 1 (codes "a=? or b=?") ≡ codes "a=$1 or b=$2"
unfolding numbered show
numbered_two = refl

-- A code for text that writes every character 100 places higher.
raise : Text → Text
raise v = map (λ c. c + 100) v

lower_back : Text → Option Text
lower_back v = some (map (λ c. c - 100) v)

raise-lower_back : (v : Text) → map (λ c. c - 100) (map (λ c. c + 100) v) ≡ v
raise-lower_back [] = refl
raise-lower_back (c ∷ v) = ap₂ (λ (d : ℕ) (s : Text). d ∷ s) (omega arith) (raise-lower_back v)

raise-Lacks :
    (sign : ℕ) (v : Text) → (c : ℕ) → sign + c ≡ 99 → All (λ d. d ≢ sign) (map (λ c. c + 100) v)
raise-Lacks sign [] c e = tt
raise-Lacks sign (d ∷ v) c e = (ground (arith, e), raise-Lacks sign v c e)

raise-IsCodec : IsCodec raise lower_back
unfolding raise lower_back
raise-IsCodec = record {
  encode_equals = λ v. raise-Lacks b'=' v 38 refl;
  encode_and = λ v. raise-Lacks b'&' v 61 refl;
  decode-encode = λ v. ap some (raise-lower_back v);
}

parse_query-query_text_example :
    (res : Dict Text) × (parse_query lower_back
        (query_text raise ((codes "k", codes "1") ∷ (codes "k", codes "2") ∷ []))
      ≡ some res)
    × ((key : Text)
        → get_hash_value res key
          ≡ last_value key [] ((codes "k", codes "1") ∷ (codes "k", codes "2") ∷ []))
parse_query-query_text_example =
    parse_query-query_text raise lower_back raise-IsCodec
      ((codes "k", codes "1") ∷ (codes "k", codes "2") ∷ []) (ground arith)

-- `%FF` is no UTF-8.
abbrev decode : Text → Option Text
decode v = if text_eq v (codes "%FF") then none else some v

parse_query-IsReadable_example :
    (parse_query decode (codes "a=1&b=%FF") ≢ none)
    ↔ All (λ s. IsReadable decode (value_text s)) (split (codes "a=1&b=%FF") b'&')
parse_query-IsReadable_example =
    parse_query-IsReadable decode (codes "a=1&b=%FF") (unfold is_empty in refl)

second_panics :
    (parse_query decode (codes "a=1&b=%FF") ≡ none) × (parse_query decode (codes "a=1&b") ≡ none)
unfolding parse_query is_empty insert_pairs key_value split onto_first Dict.insert text_eq
second_panics = (refl, refl)

-- The value ends at a second `=`.
query_second_equals : parse_query some (codes "a=1=2") ≡ some ((codes "a", codes "1") ∷ [])
unfolding parse_query is_empty insert_pairs key_value split onto_first Dict.insert
query_second_equals = refl
