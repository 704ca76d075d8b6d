-- ===== src/Config/Load.antt =====
-- `load_yaml` of src/utils/mod.rs over the crate yaml-rust.
use chimes_utils.Base.{Bool, false, not, Option, none, some, List, [], ◌∷◌, ◌++◌, if◌then◌else◌}
use chimes_utils.Base.Text.{Text, codes, text_eq}
use chimes_utils.Base.Int.{ℤ, pos, as_unsigned}
use chimes_utils.Mail.{EmailServerConfig}
use chimes_utils.Config.{
  RedisPoolConfig, InstanceType, single, cluster, RedisConfig, WebServerConfig, Levels,
  DatabaseConfig, AppConfig,
}

-- `yaml_rust::Yaml`: the index operator and the readings.
pub record Yaml : Type 1 where
  pub Node : Type 0
  pub index : Node → Text → Node
  pub as_str : Node → Option Text
  pub as_i64 : Node → Option ℤ
  pub as_bool : Node → Option Bool
  pub as_vec : Node → Option (List Node)
  pub is_null : Node → Bool
  -- `YamlLoader::load_from_str`; `none` is an error
  pub load_from_str : Text → Option (List Node)

abbrev pub unwrap_or {ℓ} : {A : Type ℓ} → Option A → A → A
unwrap_or none d = d
unwrap_or (some x) d = x

module _ (log : Levels) (yaml : Yaml) where
  -- `node[key].as_str()`, and with `unwrap_or_default`.
  abbrev pub str_at : yaml.Node → Text → Option Text
  str_at node key = yaml.as_str (yaml.index node key)

  abbrev pub text_at : yaml.Node → Text → Text
  text_at node key = unwrap_or (str_at node key) []

  abbrev pub i64_at : yaml.Node → Text → ℤ
  i64_at node key = unwrap_or (yaml.as_i64 (yaml.index node key)) (pos 0)

  -- A level that is written, and `Info` where none is or it is no level.
  unfoldable pub level_of : Option Text → log.LevelFilter
  level_of none = log.info
  level_of (some s) = elim (log.from_str s) [ none ↦ log.info | some level ↦ level ]

  unfoldable pub database_config : yaml.Node → DatabaseConfig log
  unfolding level_of
  database_config db = record {
    url = text_at db (codes "url");
    logger_level = level_of (str_at db (codes "log-level"));
  }

  unfoldable pub web_config : yaml.Node → WebServerConfig
  web_config web = record {
    port = unwrap_or (yaml.as_i64 (yaml.index web (codes "port"))) (pos 10089);
    rsa_key = text_at web (codes "rsa_key");
    rsa_cert = text_at web (codes "rsa_cert");
    rsa_password_private_key = text_at web (codes "rsa_password_private_key");
    rsa_password_public_key = text_at web (codes "rsa_password_public_key");
    upload_store_path = text_at web (codes "upload-store-path");
    resources_path = text_at web (codes "resources-path");
    upload_temp_path = text_at web (codes "upload-temp-path");
    access_url_prefix = text_at web (codes "access-url-prefix");
  }

  unfoldable pub email_config : yaml.Node → EmailServerConfig
  email_config email = record {
    smtp_server = text_at email (codes "smtp-server");
    password = text_at email (codes "password");
    port = text_at email (codes "port");
    mine_email = text_at email (codes "account");
    ssl = unwrap_or (yaml.as_bool (yaml.index email (codes "ssl"))) false;
  }

  -- The loop over `redis["urls"]`, from the texts `u` found so far.
  unfoldable pub push_urls : List yaml.Node → List Text → List Text
  push_urls [] u = u
  push_urls (ps ∷ rest) u =
      push_urls rest (elim (yaml.as_str ps) [ none ↦ u | some st ↦ u ++ st ∷ [] ])

  unfoldable pub urls_of : Option (List yaml.Node) → List Text
  unfolding push_urls
  urls_of none = []
  urls_of (some s) = push_urls s []

  unfoldable pub instance_of : Option Text → Option InstanceType
  instance_of none = some single
  instance_of (some s) = if text_eq s (codes "cluster") then some cluster else some single

  unfoldable pub pool_config : yaml.Node → RedisPoolConfig
  unfolding as_unsigned
  pool_config pool = record {
    connection_timeout = as_unsigned 64 (i64_at pool (codes "connection_timeout"));
    max_size = as_unsigned 32 (i64_at pool (codes "max_size"));
    mini_idel = as_unsigned 32 (i64_at pool (codes "mini_idel"));
  }

  unfoldable pub redis_config : yaml.Node → Option RedisConfig
  unfolding urls_of instance_of pool_config
  redis_config redis =
      if not (yaml.is_null redis)
      then some (record {
        urls = urls_of (yaml.as_vec (yaml.index redis (codes "urls")));
        database = i64_at redis (codes "database");
        username = str_at redis (codes "username");
        password = str_at redis (codes "password");
        instance_type = instance_of (str_at redis (codes "instance-type"));
        pool = pool_config (yaml.index redis (codes "pool"));
      })
      else none

  unfoldable pub config_of : yaml.Node → AppConfig log
  unfolding database_config web_config email_config redis_config level_of
  config_of doc =
      let reg = yaml.index doc (codes "registry") in
      record {
        db_conf = database_config (yaml.index doc (codes "database"));
        webserver_conf = web_config (yaml.index doc (codes "webserver"));
        email_conf = email_config (yaml.index doc (codes "email"));
        redis_conf = redis_config (yaml.index doc (codes "redis"));
        gateway_address = str_at reg (codes "gateway_address");
        app_id = str_at reg (codes "app_id");
        app_secret = str_at reg (codes "app_secret");
        logger_level = level_of (str_at doc (codes "log-level"));
      }

  -- The file as it is read, or `none` if it cannot be opened. A result `none` is a panic: the text is
  -- no YAML, or it holds no document.
  unfoldable pub load_yaml : Option Text → AppConfig log → Option (AppConfig log)
  unfolding config_of
  load_yaml none self = some self
  load_yaml (some s) self = elim (yaml.load_from_str s) [
    | none ↦ none
    | some docs ↦ elim docs [ [] ↦ none | doc ∷ _ ↦ some (config_of doc) ]
  ]
