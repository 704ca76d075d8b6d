-- ===== src/Wechat.antt =====
-- The WeChat client of src/wechat: its errors (errors.rs), and its settings and the decoding of answers (mod.rs).
-- serde_json and yaml-rust are parameters.
pub mod Token
pub mod Decode
pub mod Settings
pub mod Message
pub mod Laws
mod Tests
use chimes_utils.Base.{ℕ, Bool, Option, none, some, List, [], ◌∷◌, ◌++◌, if◌then◌else◌, ◌==◌}
use chimes_utils.Base.Text.{Text, codes}
pub use chimes_utils.Base.Answer.{Answer, ok, err, panicked}
use chimes_utils.Base.Int.{ℤ, pos, negsuc, as_i32}

-- `Io` is `std::io::Error`.
pub data WechatErrorKind (Io : Type 0) : Type 0 where
  msg : Text → WechatErrorKind Io
  io : Io → WechatErrorKind Io
  custom : ℤ → Text → WechatErrorKind Io

-- `E` is the type of the errors that are a cause.
pub record WechatError (Io E : Type 0) : Type 0 where
  pub kind : WechatErrorKind Io
  pub source : Option E

module _ {Io E : Type 0} where
  abbrev pub error_msg : Text → WechatError Io E
  error_msg value = record { kind = msg value; source = none }

  abbrev pub error_custom : ℤ → Text → WechatError Io E
  error_custom code value = record { kind = custom code value; source = none }

-- `serde_json::Value`, where a key that is missing reads as null.
pub record Json : Type 1 where
  pub Value : Type 0
  pub index : Value → Text → Value
  pub as_str : Value → Option Text
  pub as_i64 : Value → Option ℤ
  pub is_object : Value → Bool
  pub contains_key : Value → Text → Bool
  pub to_string : Value → Text
  -- `from_str`; the text of the error if it fails
  pub from_str : Text → Option Value
  pub error_text : Text → Text

module _ (json : Json) (Io E : Type 0) where
  abbrev pub Result : Type 0 → Type 0
  Result A = Answer (WechatError Io E) A

  -- `obj[code].as_i64().unwrap_or_default()`
  abbrev pub i64_at : json.Value → Text → ℤ
  i64_at obj key = elim (json.as_i64 (json.index obj key)) [ none ↦ pos 0 | some n ↦ n ]

  unfoldable pub code_of : json.Value → ℤ
  code_of obj =
      i64_at obj (if json.contains_key obj (codes "errcode") then codes "errcode" else codes "code")

  unfoldable pub message_of : json.Value → Text
  message_of obj =
      if json.contains_key obj (codes "msg")
      then json.to_string (json.index obj (codes "msg"))
      else json.to_string (json.index obj (codes "errmsg"))

  unfoldable pub check_code : ℤ → json.Value → Result json.Value
  unfolding message_of
  check_code (pos n) obj =
      if n == 0 then ok obj else err (error_custom (as_i32 (pos n)) (message_of obj))
  check_code (negsuc n) obj = err (error_custom (as_i32 (negsuc n)) (message_of obj))

  unfoldable pub json_decode : Text → Result json.Value
  unfolding code_of check_code
  json_decode data_ = elim (json.from_str data_) [
    | none ↦ err (error_custom (negsuc 2) (codes "Json decode error: " ++ json.error_text data_))
    | some obj ↦ if json.is_object obj then check_code (code_of obj) obj else panicked
  ]

pub data PlatformType : Type 0 where
  official_account open_platfrom mini_program : PlatformType

pub record WechatConfig : Type 0 where
  pub app_id : Text
  pub offical_appid : Text
  pub secret : Text
  pub token : Text
  pub platform : PlatformType
  pub mch_id : Text
  pub private_key : Text
  pub certificate : Text
  pub secret_key : Text
  pub notify_url : Text
  pub refund_notify_url : Text

abbrev pub default : WechatConfig
default = record {
  app_id = [];
  offical_appid = [];
  secret = [];
  token = [];
  platform = mini_program;
  mch_id = [];
  private_key = [];
  certificate = [];
  secret_key = [];
  notify_url = [];
  refund_notify_url = [];
}

module _ (json : Json) where
  abbrev pub text_at : json.Value → Text → Text
  text_at params key = elim (json.as_str (json.index params key)) [ none ↦ [] | some s ↦ s ]

  -- The fallback of `refund_notify_url`.
  unfoldable pub url_or : Option Text → Text → Text
  url_or none notify_url = notify_url
  url_or (some url) notify_url = url

module _ (json : Json) (Io E : Type 0) where
  unfoldable pub load : json.Value → Answer (WechatError Io E) WechatConfig
  unfolding url_or
  load params = ok (record {
    app_id = text_at json params (codes "app-id");
    offical_appid = text_at json params (codes "offical-appid");
    secret = text_at json params (codes "secret");
    token = text_at json params (codes "token");
    platform = mini_program;
    mch_id = text_at json params (codes "mch_id");
    private_key = text_at json params (codes "private_key");
    certificate = text_at json params (codes "certificate");
    secret_key = text_at json params (codes "secret_key");
    notify_url = text_at json params (codes "notify-url");
    refund_notify_url =
        url_or json (json.as_str (json.index params (codes "refund-notify-url")))
          (text_at json params (codes "notify-url"));
  })

-- A file on its path: an error of the opening or the reading with its text, or what it holds.
pub data File : Type 0 where
  not_opened : Text → File
  not_read : Text → File
  contents : Text → File

-- `load_from_str` is `YamlLoader::load_from_str`, where `none` is an error.
module _ {Doc : Type 0} (load_from_str : Text → Option (List Doc)) (Io E : Type 0) where
  -- `unwrap`, and `docs[0]`.
  unfoldable pub after_docs : Option (List Doc) → Answer (WechatError Io E) WechatConfig
  after_docs none = panicked
  after_docs (some []) = panicked
  after_docs (some (doc ∷ docs)) = ok default

  unfoldable pub load_yaml : File → Answer (WechatError Io E) WechatConfig
  unfolding after_docs
  load_yaml (not_opened e) = err (error_custom (pos 4004) e)
  load_yaml (not_read e) = err (error_custom (pos 4004) (codes "Error Reading file: " ++ e))
  load_yaml (contents s) = after_docs (load_from_str s)
