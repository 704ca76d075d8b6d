-- ===== src/Config.antt =====
-- The application's configuration of src/utils/mod.rs: its records and the reading of a YAML file.
pub mod Load
pub mod Laws
mod Tests
use chimes_utils.Base.{ℕ, Bool, false, Option, none, some, List, []}
use chimes_utils.Base.Text.{Text}
use chimes_utils.Base.Int.{ℤ, pos}
use chimes_utils.Mail
use chimes_utils.Mail.{EmailServerConfig}

pub record RedisPoolConfig : Type 0 where
  pub connection_timeout : ℕ
  pub max_size : ℕ
  pub mini_idel : ℕ

pub data InstanceType : Type 0 where
  single cluster : InstanceType

pub record RedisConfig : Type 0 where
  pub urls : List Text
  pub database : ℤ
  pub username : Option Text
  pub password : Option Text
  pub instance_type : Option InstanceType
  pub pool : RedisPoolConfig

pub record WebServerConfig : Type 0 where
  pub port : ℤ
  pub rsa_key : Text
  pub rsa_cert : Text
  pub rsa_password_private_key : Text
  pub rsa_password_public_key : Text
  pub upload_store_path : Text
  pub resources_path : Text
  pub upload_temp_path : Text
  pub access_url_prefix : Text

-- `log::LevelFilter` and its `from_str`, where `none` is an error.
pub record Levels : Type 1 where
  pub LevelFilter : Type 0
  pub info : LevelFilter
  pub from_str : Text → Option LevelFilter

module _ (log : Levels) where
  pub record DatabaseConfig : Type 0 where
    pub url : Text
    pub logger_level : log.LevelFilter

  pub record AppConfig : Type 0 where
    pub db_conf : DatabaseConfig
    pub webserver_conf : WebServerConfig
    pub email_conf : EmailServerConfig
    pub redis_conf : Option RedisConfig
    pub gateway_address : Option Text
    pub app_id : Option Text
    pub app_secret : Option Text
    pub logger_level : log.LevelFilter

  -- The configuration that `AppConfig::get` writes at its first call.
  abbrev pub initial : AppConfig
  initial = record {
    db_conf = record { url = []; logger_level = log.info };
    webserver_conf = record {
      port = pos 10089;
      rsa_key = [];
      rsa_cert = [];
      rsa_password_private_key = [];
      rsa_password_public_key = [];
      upload_store_path = [];
      resources_path = [];
      upload_temp_path = [];
      access_url_prefix = [];
    };
    email_conf = Mail.default;
    redis_conf = none;
    gateway_address = none;
    app_id = none;
    app_secret = none;
    logger_level = log.info;
  }
