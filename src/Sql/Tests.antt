-- ===== src/Sql/Tests.antt =====
-- Tests of rbatis_dynamical.rs, with the constants and placeholders that rbatis documents.
use chimes_utils.Base.{
  ℕ, ◌+◌, ◌≡◌, refl, true, false, none, some, List, [], ◌∷◌, ◌++◌, length, All, join,
}
use chimes_utils.Base.Text.{Text, codes}
use chimes_utils.Base.Dict
use chimes_utils.Str
use chimes_utils.Str.{show}
use chimes_utils.Str.Marks.{count}
use chimes_utils.Sql.Rbatis.{Rbatis, Template, DriverType, unset, mysql, postgres, sqlite, mssql}
use chimes_utils.Sql.Wrapper
use chimes_utils.Sql.Wrapper.{DynamicWrapper}
use chimes_utils.Sql.Condition
use chimes_utils.Sql.Clause
use chimes_utils.Sql.Connective.{HasConnectives}
use chimes_utils.Sql.Balance.{mark, IsPositional}
use chimes_utils.Sql.Balance.Chain
use chimes_utils.Sql.Balance.Chain.{Call}
use chimes_utils.Sql.Join
use chimes_utils.Sql.Join.Items
use chimes_utils.Sql.Join.Pairs.{pair_texts, values, all_eq-join}

abbrev words : Template
words = record {
  where_left_space = codes " where";
  and_value = codes "and";
  and_left_space = codes " and";
  and_right_space = codes "and ";
  and_left_right_space = codes " and ";
  or_left_space = codes " or";
  or_right_space = codes "or ";
  or_left_right_space = codes " or ";
  having_value = codes "having";
  order_by_left_right_space = codes " order by ";
  group_by_left_right_space = codes " group by ";
  asc_value = codes "asc";
  desc_value = codes "desc";
  between_value = codes "between";
  like_value = codes "like";
  not_value = codes "not";
  not_left_space = codes " not";
  is_left_space = codes " is";
  null_left_space = codes " null";
  in_value = codes "in";
  insert_into_value = codes "insert into";
  values_value = codes "values";
  limit_value = codes "limit";
}

placeholder : DriverType → ℕ → Text
unfolding show
placeholder unset i = codes "?"
placeholder mysql i = codes "?"
placeholder sqlite i = codes "?"
placeholder postgres i = codes "$" ++ show (i + 1)
placeholder mssql i = codes "@p" ++ show (i + 1)

-- Arguments are texts.
abbrev rb : Rbatis
rb = record {
  Bson = Text;
  is_null = λ v. false;
  is_object = λ v. false;
  as_str = λ v. some v;
  as_array = λ v. none;
  as_document = λ v. none;
  display = λ v. v;
  of_text = λ v. v;
  stmt_convert = placeholder;
  template = words;
}

abbrev calls : List (Call Text)
calls =
    Call.eq (codes "a") (codes "1")
    ∷ Call.and
    ∷ Call.between (codes "b") (codes "2") (codes "3")
    ∷ Call.or
    ∷ Call.in_array (codes "c") (codes "4" ∷ codes "5" ∷ [])
    ∷ []

chain_text :
    (Chain.chain rb (Wrapper.new rb postgres) calls).sql
    ≡ codes "a = $1 and b between $2 and $3 or c in ( $4 , $5 )"
unfolding placeholder Chain.chain Wrapper.new Wrapper.and Wrapper.or Wrapper.push_sql
    Wrapper.not_allow_add_and_on_end Wrapper.ends_open Wrapper.push_all Condition.eq
    Condition.compare_column Condition.convert_column Condition.between Condition.push_upper
    Condition.push_item Condition.in_array Dict.get Str.trim_end Str.trim_start Str.is_whitespace
    Str.is_empty Str.ends_with Str.pop_char
chain_text = refl

positional : IsPositional rb mysql
unfolding placeholder count
positional = record {
  convert = λ i. refl;
  and_both = refl;
  or_both = refl;
  and_word = refl;
  having_word = refl;
  between_word = refl;
  like_word = refl;
  not_word = refl;
  not_left = refl;
  is_left = refl;
  null_left = refl;
  in_word = refl;
}

calls_plain : All Chain.IsPlainCall calls
unfolding count
calls_plain = (refl, (tt, (refl, (tt, (refl, tt)))))

count-chain_example :
    count mark (Chain.chain rb (Wrapper.new rb mysql) calls).sql
    ≡ length (Chain.chain rb (Wrapper.new rb mysql) calls).args
count-chain_example = Chain.count-chain rb mysql positional calls calls_plain

connectives : HasConnectives rb
unfolding Str.is_whitespace
connectives = record {
  and_word = record {
    stem = codes " an";
    letter = b'd';
    word = refl;
    visible = refl;
    spaced = refl;
  };
  or_word = record { stem = codes " o"; letter = b'r'; word = refl; visible = refl; spaced = refl };
}

abbrev started : DynamicWrapper Text
started = record {
  driver_type = mysql;
  dml = codes "where";
  sql = codes "a = ?";
  args = codes "1" ∷ [];
  formats = [];
}

in_array_not_in-IsList_example :
    Items.IsList rb
      (Wrapper.and rb started)
      (codes "b" ∷ codes " " ∷ words.in_value ∷ codes " (" ∷ [])
      (codes "b")
      (codes "2" ∷ codes "3" ∷ [])
      (Condition.in_array rb started (codes "b") (codes "2" ∷ codes "3" ∷ []))
    × Items.IsList rb
        (Wrapper.and rb started)
        (codes "b" ∷ codes " " ∷ words.not_value ∷ codes " " ∷ words.in_value ∷ codes " (" ∷ [])
        (codes "b")
        (codes "2" ∷ codes "3" ∷ [])
        (Condition.not_in rb started (codes "b") (codes "2" ∷ codes "3" ∷ []))
in_array_not_in-IsList_example =
    Items.in_array_not_in-IsList rb started (codes "b") (codes "2") (codes "3" ∷ [])

clauses-join_example :
    ((Clause.order_bys rb started ((codes "a", true) ∷ (codes "b", false) ∷ [])).sql
      ≡ codes "a = ? order by a asc,b desc ")
    × ((Clause.order_by rb started true (codes "a" ∷ codes "b" ∷ [])).sql
        ≡ codes "a = ? order by a asc,b asc ")
    × ((Clause.group_by rb started (codes "a" ∷ codes "b" ∷ [])).sql ≡ codes "a = ? group by a,b ")
unfolding Clause.trim_words Clause.direction Str.trim Str.trim_end Str.trim_start Str.is_whitespace
    Str.trim_end_matches
clauses-join_example =
    Join.clauses-join rb started (codes "a", true) ((codes "b", false) ∷ []) (codes "a")
      (codes "b" ∷ []) true

-- The placeholders of a pushed text collide when they are shifted by one: both become `$3`.
push_collides :
    Wrapper.convert_pushed rb postgres 1 2 (codes "a = $1 and b = $2") ≡ codes "a = $3 and b = $3"
unfolding Wrapper.convert_pushed placeholder Str.replace
push_collides = refl

-- Every value is a document with two pairs.
abbrev pairs : List (Text × Text)
pairs = (codes "b", codes "2") ∷ (codes "c", codes "3") ∷ []

abbrev documents : Rbatis
documents = record rb { is_object = λ v. true; as_document = λ v. some pairs }

all_eq_text :
    (record started { sql = codes "a = ? and (b = ? and c = ?)" }).sql
    ≡ codes "a = ?"
      ++ (codes " and ("
          ++ (join (codes " and ") (pair_texts documents started 1 pairs) ++ codes ")"))
unfolding Condition.do_format_column placeholder Dict.get
all_eq_text = refl

all_eq-join_example :
    let w' = Wrapper.and documents started in
    Condition.all_eq documents started (codes "d")
    ≡ some (record w' {
      sql =
          w'.sql
          ++ (codes "("
              ++ (join (codes " and ") (pair_texts documents w' (length w'.args) pairs)
                  ++ codes ")"));
      args = w'.args ++ values documents pairs;
    })
all_eq-join_example =
    all_eq-join documents started (codes "d") (codes "b", codes "2") ((codes "c", codes "3") ∷ [])
      refl refl refl refl
