-- ===== src/Gateway/Register.antt =====
-- The registration and the health check of src/utils/gpt_sdk.rs at the gateway, over the HTTP client, and
-- the tasks that call them. serde_json is a parameter.
use chimes_utils.Base.{ℕ, Bool, false, ◌||◌, Option, none, some, ◌++◌, if◌then◌else◌, ◌==◌}
use chimes_utils.Base.Text.{Text, codes, text_eq}
use chimes_utils.Base.Int.{ℤ, pos, negsuc}
use chimes_utils.Base.Answer.{Answer, ok, err, panicked}
use chimes_utils.Errors.{ChimesError, error_custom}
use chimes_utils.Config.{Levels, AppConfig}
use chimes_utils.Http.{HeaderCrate, CharsetCrate, HttpCrate}
use chimes_utils.Http.Requests.{Client, post}
use chimes_utils.Proc.{Float}
use chimes_utils.Proc.Info.{ChimesPerformanceInfo}

pub record ApiResult (T : Type 0) : Type 0 where
  pub status : ℤ
  pub message : Text
  pub data_ : Option T
  pub timestamp : Option ℕ

pub record GatewayRegisterInfo : Type 0 where
  pub app_id : Option Text
  pub app_secret : Option Text
  pub server : Option Text
  pub port : Option ℤ
  pub rewrite_url : Option Bool
  pub protocol : Option Text
  pub heath_check : Option Text
  pub echo_text : Option Text
  pub proxy_prefix : Option Text

pub record HealthCheckInfo (float : Float) : Type 0 where
  pub app_id : Option Text
  pub app_secret : Option Text
  pub performance : Option (ChimesPerformanceInfo float)

module _ (log : Levels) where
  unfoldable pub build_register_info : AppConfig log → GatewayRegisterInfo
  build_register_info conf = record {
    app_id = conf.app_id;
    app_secret = conf.app_secret;
    server = none;
    port = some (conf.webserver_conf.port);
    rewrite_url = some false;
    protocol = some (codes "http");
    heath_check = some (codes "/api/v1/healthcheck");
    echo_text = some (codes "Iamliving");
    proxy_prefix = none;
  }

  -- `perf` is what `get_performance_info` gives; it has no error.
  unfoldable pub build_health_info :
      (float : Float) → AppConfig log → Bool → ChimesPerformanceInfo float → HealthCheckInfo float
  build_health_info float conf with_perf perf = record {
    app_id = conf.app_id;
    app_secret = conf.app_secret;
    performance = if with_perf then some perf else none;
  }

-- `serde_json::Value` as it is taken apart: an object by its keys, a number by `as_i64`, a text.
pub record GatewayJson : Type 1 where
  pub Value : Type 0
  pub from_str : Text → Option Value
  pub as_object : Value → Option (Text → Option Value)
  pub as_number : Value → Option (Option ℤ)
  pub as_text : Value → Option Text

-- Whether the code takes the status for a success: 200 or 0, as a number or as a text.
unfoldable pub is_ok_status : ℤ → Bool
is_ok_status (pos n) = n == 200 || n == 0
is_ok_status (negsuc n) = false

unfoldable pub is_ok_number : Option ℤ → Bool
unfolding is_ok_status
is_ok_number none = false
is_ok_number (some n) = is_ok_status n

unfoldable pub is_ok_text : Text → Bool
is_ok_text t = text_eq t (codes "200") || text_eq t (codes "0")

-- What a registration ends with; Rust's `()` is `accepted`.
pub data Registered : Type 0 where
  accepted : Registered

module _ (json : GatewayJson) (Io E : Type 0) where
  abbrev pub Result : Type 0 → Type 0
  Result A = Answer (ChimesError Io E) A

  unfoldable pub bad_response : Text → Result Registered
  bad_response res = err (error_custom (pos 10040) (codes "Bad response. " ++ res))

  -- The match on the value of the key status; `res` is the whole answer.
  unfoldable pub on_text : Text → Option Text → Result Registered
  unfolding is_ok_text bad_response
  on_text res none = bad_response res
  on_text res (some tcc) = if is_ok_text tcc then ok accepted else bad_response res

  unfoldable pub on_number : Text → json.Value → Option (Option ℤ) → Result Registered
  unfolding is_ok_number on_text bad_response
  on_number res mtt (some tc) = if is_ok_number tc then ok accepted else bad_response res
  on_number res mtt none = on_text res (json.as_text mtt)

  unfoldable pub on_status : Text → Option json.Value → Result Registered
  unfolding on_number bad_response
  on_status res none = bad_response res
  on_status res (some mtt) = on_number res mtt (json.as_number mtt)

  unfoldable pub on_object : Text → Option (Text → Option json.Value) → Result Registered
  unfolding on_status
  on_object res none = err (error_custom (pos 10043) (codes "Gateway Server response bad format."))
  on_object res (some mp) = on_status res (mp (codes "status"))

  -- `from_str(..).unwrap()`: a text that is no JSON is a panic.
  unfoldable pub on_json : Text → Option json.Value → Result Registered
  unfolding on_object
  on_json res none = panicked
  on_json res (some ret) = on_object res (json.as_object ret)

  unfoldable pub read_registered : Text → Result Registered
  unfolding on_json
  read_registered res = on_json res (json.from_str res)

  module _ (header : HeaderCrate) (codec : CharsetCrate) (http : HttpCrate header codec)
      (register_params : GatewayRegisterInfo → http.Params) where
    -- `cc` is the client that `new_timeout` builds, `gateway_address` the configured address.
    unfoldable pub ggp_register_proxy :
        Client header codec http Io E
        → Option Text
        → GatewayRegisterInfo
        → http.W
        → http.W × Result Registered
    unfolding read_registered
    ggp_register_proxy cc none gr w =
        (w, err (error_custom (pos 10040) (codes "Gateway Server address was not defined.")))
    ggp_register_proxy cc (some url) gr w =
        let fullurl = url ++ codes "/gateway/api/v1/gateway/register" in
        let r = post header codec http Io E cc fullurl (register_params gr) w in
        (r.0, elim r.1 [ ok res ↦ read_registered res | err e ↦ err e | panicked ↦ panicked ])
