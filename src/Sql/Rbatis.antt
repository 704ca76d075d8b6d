-- ===== src/Sql/Rbatis.antt =====
-- What rbatis_dynamical.rs takes from the crates rbatis, rbatis-core and rbson: the driver types that
-- `push` matches on, the constants of `rbatis::sql::TEMPLATE`, the placeholder of a driver, and the
-- reading of a serialised argument. All but the driver types is a parameter.
use chimes_utils.Base.{ℕ, Bool, Option, List}
use chimes_utils.Base.Text.{Text}

pub data DriverType : Type 0 where
  unset mysql postgres sqlite mssql : DriverType

-- The constants of `TEMPLATE`, a field for each word and spacing that the source names.
pub record Template : Type 0 where
  pub where_left_space : Text
  pub and_value : Text
  pub and_left_space : Text
  pub and_right_space : Text
  pub and_left_right_space : Text
  pub or_left_space : Text
  pub or_right_space : Text
  pub or_left_right_space : Text
  pub having_value : Text
  pub order_by_left_right_space : Text
  pub group_by_left_right_space : Text
  pub asc_value : Text
  pub desc_value : Text
  pub between_value : Text
  pub like_value : Text
  pub not_value : Text
  pub not_left_space : Text
  pub is_left_space : Text
  pub null_left_space : Text
  pub in_value : Text
  pub insert_into_value : Text
  pub values_value : Text
  pub limit_value : Text

pub record Rbatis : Type 1 where
  -- `rbson::Bson`; an argument stands in the model as `as_bson!` of it.
  pub Bson : Type 0
  pub is_null : Bson → Bool
  pub is_object : Bson → Bool
  pub as_str : Bson → Option Text
  pub as_array : Bson → Option (List Bson)
  -- the pairs of a document in the order in which it is walked
  pub as_document : Bson → Option (List (Text × Bson))
  -- `format!("{}", v)`
  pub display : Bson → Text
  -- `as_bson!` of a `String`
  pub of_text : Text → Bson
  -- what `stmt_convert(index, item)` pushes onto `item`
  pub stmt_convert : DriverType → ℕ → Text
  pub template : Template
