-- ===== src/Texts.antt =====
-- The text functions of src/utils/mod.rs: SQL for another database, lines as HTML, and query strings.
pub mod Placeholders
pub mod Lines
pub mod Query
pub mod Readable
mod Tests
use chimes_utils.Base.{
  ℕ, suc, ◌+◌, ◌-◌, Bool, Option, none, some, List, [], ◌∷◌, ◌++◌, length, ltb, if◌then◌else◌,
}
use chimes_utils.Base.Text.{Text, codes}
use chimes_utils.Base.Dict
use chimes_utils.Base.Dict.{Dict}
use chimes_utils.Str.{split, show, lines, is_empty}
use chimes_utils.Sql.Rbatis.{DriverType, postgres}

-- The loop of `rbatis_compatible_sql` over the parts that are left: `i` counts them from 1.
unfoldable pub number_parts : ℕ → ℕ → List Text → Text → Text
number_parts count i [] sql_out = sql_out
number_parts count i (t ∷ spl) sql_out =
    number_parts count (i + 1) spl
      (if ltb i count then (sql_out ++ t) ++ (codes "$" ++ show i) else sql_out ++ t)

unfoldable is_postgres : DriverType → Bool
is_postgres postgres = Bool.true
is_postgres _ = Bool.false

-- `none` is a driver type that could not be read.
unfoldable pub rbatis_compatible_sql : Option DriverType → Text → Text
unfolding number_parts is_postgres
rbatis_compatible_sql none sql = sql
rbatis_compatible_sql (some driver_type) sql =
    if is_postgres driver_type
    then number_parts (length (split sql b'?')) 1 (split sql b'?') []
    else sql

-- The loop of `text_insert_br` over `stx in 0..lst.len()`.
unfoldable pub insert_br : ℕ → ℕ → List Text → Text → Text
insert_br len stx [] newtext = newtext
insert_br len stx (sxtr ∷ rest) newtext =
    insert_br len (suc stx) rest
      (if ltb stx (len - 1) then (newtext ++ sxtr) ++ codes "<br />" else newtext ++ sxtr)

unfoldable pub text_insert_br : Option Text → Option Text
unfolding insert_br
text_insert_br none = none
text_insert_br (some text) = let lst = lines text in some (insert_br (length lst) 0 lst [])

-- `percent_decode` and `decode_utf8`, of the crate percent-encoding: `none` is text that is not UTF-8.
module _ (decode : Text → Option Text) where
  -- `kv[0]` with the decoded `kv[1]`. `none` is a panic: there is no `kv[1]`, or it is not UTF-8.
  unfoldable pub key_value : List Text → Option (Text × Text)
  key_value [] = none
  key_value (k ∷ []) = none
  key_value (k ∷ v ∷ rest) = elim (decode v) [ none ↦ none | some kvalue ↦ some (k, kvalue) ]

  unfoldable pub insert_pairs : List Text → Dict Text → Option (Dict Text)
  unfolding key_value
  insert_pairs [] res = some res
  insert_pairs (s ∷ q_a) res = elim (key_value (split s b'=')) [
    | none ↦ none
    | some (k, v) ↦ insert_pairs q_a (Dict.insert k v res)
  ]

  unfoldable pub parse_query : Text → Option (Dict Text)
  unfolding insert_pairs
  parse_query query_string =
      if is_empty query_string then some [] else insert_pairs (split query_string b'&') []

  -- The same loop; `to_value` is serde_json's, `none` for an error, and `null` is its null.
  unfoldable pub parse_query_as_value :
      {Value : Type 0} → Value → (Dict Text → Option Value) → Text → Option Value
  unfolding parse_query
  parse_query_as_value null to_value query_string =
      if is_empty query_string then some null else elim (parse_query query_string) [
        | none ↦ none
        | some res ↦ elim (to_value res) [ none ↦ some null | some tv ↦ some tv ]
      ]

unfoldable pub get_hash_value : Dict Text → Text → Text
get_hash_value query_params key = elim (Dict.get key query_params) [ none ↦ [] | some val ↦ val ]
