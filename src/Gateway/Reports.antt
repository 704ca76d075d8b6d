-- ===== src/Gateway/Reports.antt =====
-- The registry behind a health check of src/utils/gpt_sdk.rs.
use chimes_utils.Base.{
  ◌≡◌, refl, ◌⊎◌, inl, inr, Bool-cases, Option, none, some, List, [], ◌∷◌, ◌++◌,
}
use chimes_utils.Base.Text.{Text, codes}
use chimes_utils.Base.Dict.{Dict}
use chimes_utils.Base.Answer.{Answer, ok, err, panicked}
use chimes_utils.Errors.{ChimesError}
use chimes_utils.Http.{HeaderCrate, CharsetCrate, HttpCrate}
use chimes_utils.Http.Requests.{Client, post}
use chimes_utils.Proc.{Float}
use chimes_utils.Gateway.{GatewayProxyInfo, GatewayProxyManagement, add_proxy_info}
use chimes_utils.Gateway.Distinct.{IsRegistry, add_proxy_info-IsRegistry}
use chimes_utils.Gateway.Register.{ApiResult, HealthCheckInfo, Registered, accepted, is_ok_status}
use chimes_utils.Gateway.Health.{add_all, add_answered, on_answer, on_posted, ggp_health_check}

module _ (F64 DateTimeNative Io E : Type 0) where
  -- The registry lists no proxy twice, and it is the old one unless the check succeeds.
  abbrev pub IsKept :
      Dict (GatewayProxyManagement F64 DateTimeNative)
      → Dict (GatewayProxyManagement F64 DateTimeNative) × Answer (ChimesError Io E) Registered
      → Type 0
  IsKept m r = IsRegistry r.0 × ((r.1 ≡ ok accepted) ⊎ (r.0 ≡ m))

  add_all-IsRegistry :
      (lts : List (GatewayProxyInfo F64 DateTimeNative))
      (m : Dict (GatewayProxyManagement F64 DateTimeNative))
      → IsRegistry m
      → IsRegistry (add_all F64 DateTimeNative Io E lts m)
  unfolding add_all
  add_all-IsRegistry [] m i = i
  add_all-IsRegistry (ts ∷ rest) m i =
      add_all-IsRegistry rest (add_proxy_info ts m) (add_proxy_info-IsRegistry ts m i).0

  add_answered-IsRegistry :
      (lts : Option (List (GatewayProxyInfo F64 DateTimeNative)))
      (m : Dict (GatewayProxyManagement F64 DateTimeNative))
      → IsRegistry m
      → IsRegistry (add_answered F64 DateTimeNative Io E lts m)
  unfolding add_answered
  add_answered-IsRegistry none m i = i
  add_answered-IsRegistry (some lts) m i = add_all-IsRegistry lts m i

  on_answer-IsKept :
      (a : Text ⊎ ApiResult (List (GatewayProxyInfo F64 DateTimeNative)))
      (m : Dict (GatewayProxyManagement F64 DateTimeNative))
      → IsRegistry m
      → IsKept m (on_answer F64 DateTimeNative Io E a m)
  unfolding on_answer
  on_answer-IsKept (inl e) m i = (i, inr refl)
  on_answer-IsKept (inr lts) m i = elim (Bool-cases (is_ok_status lts.status)) [
    | inl y ↦ rw (on_answer, y) (add_answered-IsRegistry lts.data_ m i, inl refl)
    | inr n ↦ rw (on_answer, n) (i, inr refl)
  ]

  on_posted-IsKept :
      (from_str : Text → Text ⊎ ApiResult (List (GatewayProxyInfo F64 DateTimeNative)))
      (r : Answer (ChimesError Io E) Text) (m : Dict (GatewayProxyManagement F64 DateTimeNative))
      → IsRegistry m
      → IsKept m (on_posted F64 DateTimeNative Io E from_str r m)
  unfolding on_posted
  on_posted-IsKept from_str (ok res) m i = on_answer-IsKept (from_str res) m i
  on_posted-IsKept from_str (err e) m i = (i, inr refl)
  on_posted-IsKept from_str panicked m i = (i, inr refl)

module _ (header : HeaderCrate) (codec : CharsetCrate) (http : HttpCrate header codec)
    (float : Float) (DateTimeNative Io E : Type 0)
    (from_str : Text → Text ⊎ ApiResult (List (GatewayProxyInfo float.F64 DateTimeNative)))
    (health_params : HealthCheckInfo float → http.Params) where
  -- Whatever the gateway answers to a health check, if it answers at all, and whether its address is
  -- configured or not: a registry that lists no proxy twice still lists none twice behind the check,
  -- and unless the check succeeds, the registry is the one before it.
  pub ggp_health_check-IsKept :
      (cc : Client header codec http Io E) (url : Option Text) (perf : HealthCheckInfo float)
      (m : Dict (GatewayProxyManagement float.F64 DateTimeNative)) (w : http.W)
      → IsRegistry m
      → IsKept float.F64 DateTimeNative Io E m
          (ggp_health_check header codec http float DateTimeNative Io E from_str health_params cc
            url perf m w).1
  unfolding ggp_health_check
  ggp_health_check-IsKept cc none perf m w i = (i, inr refl)
  ggp_health_check-IsKept cc (some url) perf m w i =
      on_posted-IsKept float.F64 DateTimeNative Io E from_str
        (post header codec http Io E cc (url ++ codes "/gateway/api/v1/healthcheck")
          (health_params perf) w).1
        m i
