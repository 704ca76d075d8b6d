-- ===== src/Gateway/Tests.antt =====
-- A run of the proxy registry of src/utils/gpt_sdk.rs, and its theorem at concrete values.
use chimes_utils.Base.{
  ℕ, ◌≡◌, ◌↔◌, ◌⊎◌, inr, refl, true, false, none, some, List, [], ◌∷◌, ◌++◌, arith,
}
use chimes_utils.Base.Text.{Text, codes, text_eq, text_ne}
use chimes_utils.Base.Int.{pos}
use chimes_utils.Base.Answer.{ok, panicked}
use chimes_utils.Base.Dict
use chimes_utils.Base.Dict.{Dict}
use chimes_utils.Gateway.{GatewayProxyInfo, GatewayProxyManagement, add_proxy_info}
use chimes_utils.Queue.{ProcessQueue, new_with_cookie_fn, round}
use chimes_utils.Queue.Removal.{settled}
use chimes_utils.Queue.Round.{due_calls}
use chimes_utils.Gateway.Schedule.{tasks-round}
use chimes_utils.Http.{ChimesClient, content_charset, encoding_of, text_with_charset}
use chimes_utils.Http.Requests.{answered, sent, text_of, request, post}
use chimes_utils.Http.Sample.{name_of, header, codec, echo, http_at}
use chimes_utils.Proc.{Float}
use chimes_utils.Gateway.Register.{
  ApiResult, GatewayRegisterInfo, HealthCheckInfo, GatewayJson, accepted, ggp_register_proxy,
}
use chimes_utils.Gateway.Health.{ggp_delay_register, ggp_add_health_check_task}
use chimes_utils.Gateway.Answers.{IsAccepted, ggp_register_proxy-IsAccepted}
use chimes_utils.Gateway.Distinct.{IsRegistry, Reports, add_proxy_info-IsRegistry}

abbrev proxy : ℕ → GatewayProxyInfo ℕ Unit
proxy load = record {
  app_id = none;
  app_name = some (codes "a");
  proxy_address = some (codes "x");
  rewrite_url = none;
  echo_text = none;
  proxy_prefix = none;
  proxy_token = none;
  load_avg = some load;
  load_count = none;
  health_status = none;
  living_time = none;
}

abbrev registry : Dict (GatewayProxyManagement ℕ Unit)
registry = (codes "a", record { app_name = codes "a"; proxy_list = proxy 1 ∷ [] }) ∷ []

empty-IsRegistry : IsRegistry {F64 = ℕ} {DateTimeNative = Unit} []
unfolding Dict.get
empty-IsRegistry key g e = cc e

first_add : add_proxy_info (proxy 1) [] ≡ registry
unfolding add_proxy_info Dict.get Dict.insert
first_add = refl

registry-IsRegistry : IsRegistry registry
unfolding add_proxy_info Dict.get Dict.insert
registry-IsRegistry = (add_proxy_info-IsRegistry (proxy 1) [] empty-IsRegistry).0

add_proxy_info-IsRegistry_example :
    IsRegistry (add_proxy_info (proxy 2) registry)
    × (g : GatewayProxyManagement ℕ Unit) × (Dict.get
          (codes "a")
          (add_proxy_info (proxy 2) registry)
        ≡ some g)
    × Reports (proxy 2) g.proxy_list
add_proxy_info-IsRegistry_example = add_proxy_info-IsRegistry (proxy 2) registry registry-IsRegistry

-- The server of Http.Sample answers JSON with itself, and a registration is sent as its protocol. An
-- object is a text, and its status is this text; the empty text is no JSON.
abbrev sender : ChimesClient header codec (http_at true)
sender = record { client = 0; charset = codes "utf-8"; headers = [] }

abbrev json : GatewayJson
json = record {
  Value = Text;
  from_str = name_of;
  as_object = λ v. some (λ key. some v);
  as_number = λ v. none;
  as_text = λ v. some v;
}

abbrev register_params : GatewayRegisterInfo → Text
register_params gr = elim gr.protocol [ none ↦ [] | some p ↦ p ]

abbrev registered : GatewayRegisterInfo
registered = record {
  app_id = none;
  app_secret = none;
  server = none;
  port = none;
  rewrite_url = none;
  protocol = some (codes "200");
  heath_check = none;
  echo_text = none;
  proxy_prefix = none;
}

ggp_register_proxy-IsAccepted_example :
    (((ggp_register_proxy json Unit Unit header codec
          (http_at true)
          register_params
          sender
          (some (codes "u"))
          registered
          0).1
        ≡ ok accepted)
      ↔ IsAccepted json (codes "200"))
    × (((ggp_register_proxy json Unit Unit header codec
            (http_at true)
            register_params
            sender
            (some (codes "u"))
            registered
            0).1
          ≡ panicked)
        ↔ (json.from_str (codes "200") ≡ none))
ggp_register_proxy-IsAccepted_example =
    ggp_register_proxy-IsAccepted json Unit Unit header codec (http_at true) register_params sender
      (codes "u") (codes "200") registered 0 0
      (unfold post request sent answered text_of text_with_charset encoding_of content_charset
          Dict.get echo in
        refl)

-- Floating point numbers are numbers; the answer to a health check is read as one proxy.
abbrev float : Float
float = record { F64 = ℕ; of_u64 = λ n. n; add = λ a b. a }

abbrev answer : Text → Text ⊎ ApiResult (List (GatewayProxyInfo ℕ Unit))
answer res =
    inr (record { status = pos 200; message = []; data_ = some (proxy 2 ∷ []); timestamp = none })

abbrev health : HealthCheckInfo float
health = record { app_id = none; app_secret = none; performance = none }

-- A queue with one task that repeats; a task is queued at 100, and the round is at 130.
abbrev busy : ProcessQueue
busy = record {
  queue = new_with_cookie_fn (codes "c") true 5 (codes "f") (codes "1") 90 ∷ [];
  started = true;
  max_tasks = 1000;
  waiting_timeout = 30;
  signals = [];
}

abbrev handler : ℕ
handler = 7

tasks-round_example :
    let s =
      ggp_delay_register (some (codes "a")) (some (codes "b")) handler (codes "2") 100 ([], busy) in
    let t =
      new_with_cookie_fn (codes "register") false 10 (codes "execute_register") (codes "2") 100 in
    let r = round s.0 130 s.1 in
    let u =
      ggp_add_health_check_task
        (some (codes "a"))
        (some (codes "b"))
        handler
        (codes "2")
        100
        ([], busy) in
    let c =
      new_with_cookie_fn
        (codes "health_check")
        true
        60
        (codes "execute_healthcheck")
        (codes "2")
        100 in
    let k = round u.0 130 u.1 in
    (r.1 ≡ due_calls s.0 130 busy.queue ++ (handler, t) ∷ [])
    × (r.0.queue ≡ settled 130 busy.queue ++ [])
    × (k.1 ≡ due_calls u.0 130 busy.queue ++ [])
    × (k.0.queue ≡ settled 130 busy.queue ++ c ∷ [])
unfolding new_with_cookie_fn text_eq
tasks-round_example =
    tasks-round (codes "a") (codes "b") (codes "2") handler [] busy 100 130 (tt, tt)
      (text_ne (codes "2") (codes "1") refl, tt) (omega arith) (omega arith)
