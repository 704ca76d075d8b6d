-- ===== src/Gateway/Health.antt =====
-- The health check of src/utils/gpt_sdk.rs, which reports to the gateway and takes the proxies of its answer
-- into the registry, and the tasks that are queued for it and for the registration.
use chimes_utils.Base.{
  ℕ, true, false, ◌⊎◌, inl, inr, Option, none, some, List, [], ◌∷◌, ◌++◌, if◌then◌else◌,
}
use chimes_utils.Base.Text.{Text, codes}
use chimes_utils.Base.Int.{pos}
use chimes_utils.Base.Dict.{Dict}
use chimes_utils.Base.Answer.{Answer, ok, err, panicked}
use chimes_utils.Errors.{ChimesError, error_custom}
use chimes_utils.Http.{HeaderCrate, CharsetCrate, HttpCrate}
use chimes_utils.Http.Requests.{Client, post}
use chimes_utils.Proc.{Float}
use chimes_utils.Queue.{ProcessQueue, new_with_cookie_fn, queue_add, queue_registry_handler}
use chimes_utils.Gateway.{GatewayProxyInfo, GatewayProxyManagement, add_proxy_info}
use chimes_utils.Gateway.Register.{ApiResult, HealthCheckInfo, Registered, accepted, is_ok_status}

module _ (F64 DateTimeNative Io E : Type 0) where
  abbrev pub Proxy : Type 0
  Proxy = GatewayProxyInfo F64 DateTimeNative

  abbrev pub Registry : Type 0
  Registry = Dict (GatewayProxyManagement F64 DateTimeNative)

  unfoldable pub add_all :
      List (GatewayProxyInfo F64 DateTimeNative)
      → Dict (GatewayProxyManagement F64 DateTimeNative)
      → Dict (GatewayProxyManagement F64 DateTimeNative)
  unfolding add_proxy_info
  add_all [] m = m
  add_all (ts ∷ rest) m = add_all rest (add_proxy_info ts m)

  unfoldable pub add_answered :
      Option (List (GatewayProxyInfo F64 DateTimeNative))
      → Dict (GatewayProxyManagement F64 DateTimeNative)
      → Dict (GatewayProxyManagement F64 DateTimeNative)
  unfolding add_all
  add_answered none m = m
  add_answered (some lts) m = add_all lts m

  -- What becomes of an answer: the registry behind it, and the result.
  unfoldable pub on_answer :
      Text ⊎ ApiResult (List (GatewayProxyInfo F64 DateTimeNative))
      → Dict (GatewayProxyManagement F64 DateTimeNative)
      → Dict (GatewayProxyManagement F64 DateTimeNative) × Answer (ChimesError Io E) Registered
  unfolding is_ok_status add_answered
  on_answer (inl e) m =
      (m, err (error_custom (pos 10043) (codes "Gateway Server response bad format. " ++ e)))
  on_answer (inr lts) m =
      if is_ok_status lts.status then (add_answered lts.data_ m, ok accepted) else (
        m,
        err (
            error_custom (pos 10043)
              (codes "Gateway Server responses warning message. " ++ lts.message)),
      )

  -- The same for the result of the request; `from_str` is `serde_json::from_str` at the type of the
  -- answer, with the text of its error.
  unfoldable pub on_posted :
      (Text → Text ⊎ ApiResult (List (GatewayProxyInfo F64 DateTimeNative)))
      → Answer (ChimesError Io E) Text
      → Dict (GatewayProxyManagement F64 DateTimeNative)
      → Dict (GatewayProxyManagement F64 DateTimeNative) × Answer (ChimesError Io E) Registered
  unfolding on_answer
  on_posted from_str (ok res) m = on_answer (from_str res) m
  on_posted from_str (err e) m = (m, err e)
  on_posted from_str panicked m = (m, panicked)

module _ (header : HeaderCrate) (codec : CharsetCrate) (http : HttpCrate header codec)
    (float : Float) (DateTimeNative Io E : Type 0)
    (from_str : Text → Text ⊎ ApiResult (List (GatewayProxyInfo float.F64 DateTimeNative)))
    (health_params : HealthCheckInfo float → http.Params) where
  -- `perf` is what `build_health_info` gives.
  unfoldable pub ggp_health_check :
      Client header codec http Io E
      → Option Text
      → HealthCheckInfo float
      → Dict (GatewayProxyManagement float.F64 DateTimeNative)
      → http.W
      → http.W
        × (Dict (GatewayProxyManagement float.F64 DateTimeNative)
            × Answer (ChimesError Io E) Registered)
  unfolding on_posted
  ggp_health_check cc none perf m w =
      (w, (m, err (error_custom (pos 10040) (codes "Gateway Server address was not defined."))))
  ggp_health_check cc (some url) perf m w =
      let fullurl = url ++ codes "/gateway/api/v1/healthcheck" in
      let r = post header codec http Io E cc fullurl (health_params perf) w in
      (r.0, on_posted float.F64 DateTimeNative Io E from_str r.1 m)

-- The handlers and the queue, with the handlers named as the code names them.
module _ {H : Type 0} where
  -- `task_id` and `now` are the random number and the clock that the new task reads.
  unfoldable pub ggp_add_health_check_task :
      Option Text → Option Text → H → Text → ℕ → Dict H × ProcessQueue → Dict H × ProcessQueue
  unfolding queue_registry_handler new_with_cookie_fn queue_add
  ggp_add_health_check_task (some app_id) (some app_secret) execute_healthcheck task_id now
        (registry, q) =
      (
        queue_registry_handler registry (codes "execute_healthcheck") execute_healthcheck,
        queue_add q (
            new_with_cookie_fn (codes "health_check") true 60 (codes "execute_healthcheck") task_id
              now),
      )
  ggp_add_health_check_task _ _ execute_healthcheck task_id now s = s

  unfoldable pub ggp_delay_register :
      Option Text → Option Text → H → Text → ℕ → Dict H × ProcessQueue → Dict H × ProcessQueue
  unfolding queue_registry_handler new_with_cookie_fn queue_add
  ggp_delay_register (some app_id) (some app_secret) execute_register task_id now (registry, q) = (
    queue_registry_handler registry (codes "execute_register") execute_register,
    queue_add q
        (new_with_cookie_fn (codes "register") false 10 (codes "execute_register") task_id now),
  )
  ggp_delay_register _ _ execute_register task_id now s = s
