-- ===== src/Database.antt =====
-- The database connections of src/utils/mod.rs: the map of get_multiple_rbatis, which keeps a connection for
-- each address, and the interceptor that every connection gets. The crate rbatis is a parameter. The map is a
-- static without a lock, so calls are taken to follow each other.
pub mod Laws
mod Tests
use chimes_utils.Base.{Bool, Option, none, some, List, [], ◌∷◌, ◌++◌}
use chimes_utils.Base.Text.{Text}
use chimes_utils.Base.Dict
use chimes_utils.Base.Dict.{Dict}
use chimes_utils.Config.{Levels, AppConfig}
use chimes_utils.Sql.Rbatis.{DriverType}
use chimes_utils.Texts.{rbatis_compatible_sql}

-- A connection, and what it is after `link` to an address, whether the link succeeds or fails, with
-- the interceptor added.
pub record RbatisCrate : Type 1 where
  pub Rbatis : Type 0
  pub new : Rbatis
  pub link : Text → Rbatis → Rbatis
  pub add_sql_intercept : Rbatis → Rbatis

module _ (crate_ : RbatisCrate) where
  -- The map, and the addresses that were linked, oldest first.
  pub record Connections : Type 0 where
    pub map : Dict crate_.Rbatis
    pub linked : List Text

  abbrev pub no_connections : Connections
  no_connections = record { map = []; linked = [] }

  -- `get_multiple_rbatis`, and `get_multiple_rbatis_async`, which does the same.
  unfoldable pub get_multiple_rbatis : Text → Connections → crate_.Rbatis × Connections
  get_multiple_rbatis url s = elim (Dict.get url s.map) [
    | some rb ↦ (rb, s)
    | none ↦
        let rb = crate_.add_sql_intercept (crate_.link url crate_.new) in
        (rb, record { map = Dict.insert url rb s.map; linked = s.linked ++ url ∷ [] })
  ]

-- `get_rbatis`: the connection of the configuration, built at the first call; later calls give what
-- the static holds. The plugin logs from the configured level on.
module _ (crate_ : RbatisCrate) (log : Levels)
    (set_log_plugin : log.LevelFilter → crate_.Rbatis → crate_.Rbatis) where
  unfoldable pub get_rbatis : AppConfig log → Option crate_.Rbatis → crate_.Rbatis
  get_rbatis conf (some rb) = rb
  get_rbatis conf none =
      crate_.add_sql_intercept
        (set_log_plugin (conf.db_conf.logger_level) (crate_.link (conf.db_conf.url) crate_.new))

-- `MultipleDatabaseIntercepter::do_intercept`: the statement is put into the form of the driver.
unfoldable pub do_intercept : Option DriverType → Text → Text
unfolding rbatis_compatible_sql
do_intercept driver_type sql = rbatis_compatible_sql driver_type sql
