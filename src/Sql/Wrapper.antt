-- ===== src/Sql/Wrapper.antt =====
-- `DynamicWrapper`: its state, and the methods that set or extend it. A method returns the new
-- wrapper, as the source's methods by value do. Capacities are not modelled.
use chimes_utils.Base.{
  ℕ, zero, suc, ◌+◌, Bool, true, ◌||◌, none, some, List, [], ◌∷◌, ◌++◌, if◌then◌else◌, length,
}
use chimes_utils.Base.Text.{Text, codes}
use chimes_utils.Base.Dict.{Dict}
use chimes_utils.Str.{trim_end, is_empty, ends_with, replace}
use chimes_utils.Sql.Rbatis.{Rbatis, DriverType, unset, mysql, postgres, sqlite, mssql}

pub record DynamicWrapper (Bson : Type 0) : Type 0 where
  pub driver_type : DriverType
  pub dml : Text
  pub sql : Text
  pub args : List Bson
  pub formats : Dict Text

-- The macro `push_sql!`: each text is pushed onto the first, in turn.
unfoldable pub push_all : Text → List Text → Text
push_all s [] = s
push_all s (v ∷ vs) = push_all (s ++ v) vs

module _ (rb : Rbatis) where
  abbrev pub W : Type 0
  W = DynamicWrapper rb.Bson

  unfoldable pub new : DriverType → W
  new d = record { driver_type = d; dml = codes "where"; sql = []; args = []; formats = [] }

  unfoldable pub trim_value : W → Text → Text → W
  trim_value w from to = record w { sql = replace w.sql from to }

  unfoldable pub set_formats : W → Dict Text → W
  set_formats w formats = record w { formats = formats }

  unfoldable pub set_dml : W → Text → W
  set_dml w dml = record w { dml = dml }

  unfoldable pub set_sql : W → Text → W
  set_sql w sql = record w { sql = sql }

  unfoldable pub push_sql : W → Text → W
  push_sql w sql = record w { sql = w.sql ++ sql }

  -- The loop of `push` over `0..args.len()`: `n` rounds are left, from `index_target` on, and each
  -- placeholder of the pushed text is replaced by the one that many arguments further on.
  unfoldable pub shift_placeholders : DriverType → ℕ → ℕ → ℕ → Text → Text
  shift_placeholders d own zero index_target new_sql = new_sql
  shift_placeholders d own (suc n) index_target new_sql =
      shift_placeholders d own n (index_target + 1)
        (replace new_sql (rb.stmt_convert d index_target) (rb.stmt_convert d (index_target + own)))

  unfoldable pub convert_pushed : DriverType → ℕ → ℕ → Text → Text
  unfolding shift_placeholders
  convert_pushed unset own count sql = sql
  convert_pushed mysql own count sql = sql
  convert_pushed postgres own count sql = shift_placeholders postgres own count 0 sql
  convert_pushed mssql own count sql = shift_placeholders mssql own count 0 sql
  convert_pushed sqlite own count sql = sql

  unfoldable pub push : W → Text → List rb.Bson → W
  unfolding convert_pushed
  push w sql args = record w {
    sql = w.sql ++ convert_pushed w.driver_type (length w.args) (length args) sql;
    args = w.args ++ args;
  }

  unfoldable pub push_wrapper : W → W → W
  unfolding push
  push_wrapper w arg = push w arg.sql arg.args

  unfoldable pub do_if : W → Bool → (W → W) → W
  do_if w test method = if test then method w else w

  unfoldable pub do_if_else : W → Bool → (W → W) → (W → W) → W
  do_if_else w test method_if method_else = if test then method_if w else method_else w

  unfoldable pub do_match : W → List (Bool × (W → W)) → (W → W) → W
  do_match w [] default = default w
  do_match w ((test, case) ∷ cases) default =
      let rest = do_match w cases default in if test then case w else rest

  -- `Null` and what is no array leave the arguments as they are.
  unfoldable pub set_args : W → rb.Bson → W
  set_args w v =
      if rb.is_null v
      then w
      else elim (rb.as_array v) [ none ↦ w | some xs ↦ record w { args = xs } ]

  unfoldable pub push_arg : W → rb.Bson → W
  push_arg w arg = record w { args = w.args ++ arg ∷ [] }

  -- `Vec::pop`: nothing happens on an empty list.
  unfoldable pub drop_last {ℓ} : {A : Type ℓ} → List A → List A
  drop_last [] = []
  drop_last (x ∷ []) = []
  drop_last (x ∷ y ∷ xs) = x ∷ drop_last (y ∷ xs)

  unfoldable pub pop_arg : W → W
  unfolding drop_last
  pop_arg w = record w { args = drop_last w.args }

  -- The endings behind which no connective is put.
  unfoldable pub ends_open : Text → Bool
  ends_open sql =
      ends_with sql rb.template.where_left_space
      || ends_with sql rb.template.and_left_space
      || ends_with sql rb.template.or_left_space
      || ends_with sql (codes "(")
      || ends_with sql (codes ",")
      || ends_with sql (codes "=")
      || ends_with sql (codes "+")
      || ends_with sql (codes "-")
      || ends_with sql (codes "*")
      || ends_with sql (codes "/")
      || ends_with sql (codes "%")
      || ends_with sql (codes "^")
      || ends_with sql (codes ">")
      || ends_with sql (codes "<")
      || ends_with sql (codes "&")
      || ends_with sql (codes "|")

  unfoldable pub not_allow_add_and_on_end : W → Bool
  not_allow_add_and_on_end w =
      let sql = trim_end w.sql in if is_empty sql then true else ends_open sql

  unfoldable pub and : W → W
  and w = if not_allow_add_and_on_end w then w else push_sql w rb.template.and_left_right_space

  unfoldable pub or : W → W
  or w = if not_allow_add_and_on_end w then w else push_sql w rb.template.or_left_right_space

  unfoldable pub having : W → Text → W
  having w sql_having =
      let w' = and w in
      record w' { sql = push_all w'.sql (rb.template.having_value ∷ codes " " ∷ sql_having ∷ []) }

  unfoldable pub insert_into : W → Text → Text → Text → W
  insert_into w table_name columns values = record w {
    sql =
        rb.template.insert_into_value
        ++ (codes " "
            ++ (table_name
                ++ (codes " ("
                    ++ (columns
                        ++ (codes ") "
                            ++ (rb.template.values_value
                                ++ (codes " (" ++ (values ++ codes ")"))))))));
  }
