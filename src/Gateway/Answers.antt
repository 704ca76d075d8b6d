-- ===== src/Gateway/Answers.antt =====
-- What the registration of src/utils/gpt_sdk.rs takes for a success, where it panics, and what the health
-- check leaves in the registry.
use chimes_utils.Base.{
  ◌≡◌, refl, ap, ◌⊎◌, ◌↔◌, ◌≢◌, inl, inr, true, Bool-cases, Option, none, some, ◌++◌, ◌==◌, ==_iff,
  arith,
}
use chimes_utils.Base.Text.{Text, codes, text_eq, text_eq_iff}
use chimes_utils.Base.Int.{ℤ, pos, negsuc}
use chimes_utils.Base.Answer.{Answer, ok, panicked}
use chimes_utils.Errors.{ChimesError}
use chimes_utils.Http.{HeaderCrate, CharsetCrate, HttpCrate}
use chimes_utils.Http.Requests.{Client, post}
use chimes_utils.Gateway.Register.{
  GatewayRegisterInfo, GatewayJson, Registered, accepted, is_ok_status, is_ok_number, is_ok_text,
  bad_response, on_text, on_number, on_status, on_object, on_json, read_registered,
  ggp_register_proxy,
}

-- The status says success: the number or the text 200 or 0.
abbrev pub IsOkNumber : Option ℤ → Type 0
IsOkNumber n = (n ≡ some (pos 200)) ⊎ (n ≡ some (pos 0))

abbrev pub IsOkText : Text → Type 0
IsOkText t = (t ≡ codes "200") ⊎ (t ≡ codes "0")

is_ok_number-IsOkNumber : (n : Option ℤ) → (is_ok_number n ≡ true) ↔ IsOkNumber n
unfolding is_ok_number is_ok_status
is_ok_number-IsOkNumber none = ((λ h. cc h), λ s. elim s [ inl h ↦ cc h | inr h ↦ cc h ])
is_ok_number-IsOkNumber (some (negsuc n)) =
    ((λ h. cc h), λ s. elim s [ inl h ↦ cc h | inr h ↦ cc h ])
is_ok_number-IsOkNumber (some (pos n)) = (
  λ h. elim (Bool-cases (n == 200)) [
    | inl e ↦ inl (ap (λ k. some (pos k)) ((==_iff n 200).0 e))
    | inr e ↦ inr (ap (λ k. some (pos k)) (ground (arith, h, e)))
  ],
  λ s. elim s [ inl h ↦ ap is_ok_number h | inr h ↦ ap is_ok_number h ],
)

is_ok_text-IsOkText : (t : Text) → (is_ok_text t ≡ true) ↔ IsOkText t
unfolding is_ok_text
is_ok_text-IsOkText t = (
  λ h. elim (Bool-cases (text_eq t (codes "200"))) [
    | inl e ↦ inl ((text_eq_iff t (codes "200")).0 e)
    | inr e ↦ inr ((text_eq_iff t (codes "0")).0 (ground (arith, h, e)))
  ],
  λ s. elim s [ inl h ↦ rw h (unfold text_eq in refl) | inr h ↦ rw h (unfold text_eq in refl) ],
)

-- The answer is a JSON object whose status says success; a status that is a number is not read as a
-- text.
pub record IsAccepted (json : GatewayJson) (res : Text) : Type 0 where
  pub ret : json.Value
  pub mp : Text → Option json.Value
  pub mtt : json.Value
  pub is_json : json.from_str res ≡ some ret
  pub is_object : json.as_object ret ≡ some mp
  pub has_status : mp (codes "status") ≡ some mtt
  pub agrees :
      ((n : Option ℤ) × (json.as_number mtt ≡ some n) × IsOkNumber n)
      ⊎ ((t : Text) × (json.as_number mtt ≡ none) × (json.as_text mtt ≡ some t) × IsOkText t)

module _ (json : GatewayJson) (Io E : Type 0) (res : Text) where
  abbrev Ended : Answer (ChimesError Io E) Registered → Type 0 → Type 0
  Ended r P = ((r ≡ ok accepted) → P) × (r ≢ panicked)

  text-Ended :
      (o : Option Text) → Ended (on_text json Io E res o) ((t : Text) × (o ≡ some t) × IsOkText t)
  unfolding on_text bad_response
  text-Ended none = ((λ h. cc h), λ h. cc h)
  text-Ended (some t) = elim (Bool-cases (is_ok_text t)) [
    | inl y ↦ rw (on_text, y) ((λ h. (t, refl, (is_ok_text-IsOkText t).0 y)), λ h. cc h)
    | inr n ↦ rw (on_text, n) ((λ h. cc h), λ h. cc h)
  ]

  abbrev Agrees : json.Value → Option (Option ℤ) → Type 0
  Agrees mtt o =
      ((n : Option ℤ) × (o ≡ some n) × IsOkNumber n)
      ⊎ ((t : Text) × (o ≡ none) × (json.as_text mtt ≡ some t) × IsOkText t)

  number-Ended :
      (mtt : json.Value) (o : Option (Option ℤ))
      → Ended (on_number json Io E res mtt o) (Agrees mtt o)
  unfolding on_number bad_response
  number-Ended mtt (some n) = elim (Bool-cases (is_ok_number n)) [
    | inl y ↦ rw (on_number, y) ((λ h. inl (n, refl, (is_ok_number-IsOkNumber n).0 y)), λ h. cc h)
    | inr f ↦ rw (on_number, f) ((λ h. cc h), λ h. cc h)
  ]
  number-Ended mtt none =
      let e = text-Ended (json.as_text mtt) in
      ((λ h. let (t, j, k) = e.0 h in inr (t, refl, j, k)), e.1)

  status-Ended :
      (o : Option json.Value)
      → Ended
          (on_status json Io E res o)
          ((mtt : json.Value) × (o ≡ some mtt) × Agrees mtt (json.as_number mtt))
  unfolding on_status bad_response
  status-Ended none = ((λ h. cc h), λ h. cc h)
  status-Ended (some mtt) =
      let e = number-Ended mtt (json.as_number mtt) in ((λ h. (mtt, refl, e.0 h)), e.1)

  object-Ended :
      (o : Option (Text → Option json.Value))
      → Ended (on_object json Io E res o) (
          (mp : Text → Option json.Value) × (o ≡ some mp)
          × (mtt : json.Value) × (mp (codes "status") ≡ some mtt)
          × Agrees mtt (json.as_number mtt))
  unfolding on_object
  object-Ended none = ((λ h. cc h), λ h. cc h)
  object-Ended (some mp) =
      let e = status-Ended (mp (codes "status")) in
      ((λ h. let (mtt, a, b) = e.0 h in (mp, refl, mtt, a, b)), e.1)

  -- Only a text that is no JSON is a panic.
  json-Ended :
      (o : Option json.Value)
      → json.from_str res ≡ o
      → (on_json json Io E res o ≡ ok accepted → IsAccepted json res)
        × ((on_json json Io E res o ≡ panicked) ↔ (o ≡ none))
  unfolding on_json
  json-Ended none e = ((λ h. cc h), ((λ h. refl), λ h. refl))
  json-Ended (some ret) e =
      let t = object-Ended (json.as_object ret) in
      (
        (λ h.
            let (mp, a, mtt, b, c) = t.0 h in
            record {
              ret = ret;
              mp = mp;
              mtt = mtt;
              is_json = e;
              is_object = a;
              has_status = b;
              agrees = c;
            }),
        ((λ h. absurd (t.1 h)), λ h. cc h),
      )

  number-accepted :
      (mtt : json.Value)
      → Agrees mtt (json.as_number mtt)
      → on_number json Io E res mtt (json.as_number mtt) ≡ ok accepted
  unfolding on_number on_text
  number-accepted mtt (inl (n, a, k)) = rw (a, on_number, (is_ok_number-IsOkNumber n).1 k) refl
  number-accepted mtt (inr (t, a, b, k)) = rw (a, b, on_text, (is_ok_text-IsOkText t).1 k) refl

  IsAccepted-read : IsAccepted json res → on_json json Io E res (json.from_str res) ≡ ok accepted
  unfolding on_json on_object on_status
  IsAccepted-read a = rw (a.is_json, a.is_object, a.has_status) (number-accepted a.mtt a.agrees)

module _ (json : GatewayJson) (Io E : Type 0) (header : HeaderCrate) (codec : CharsetCrate)
    (http : HttpCrate header codec) (register_params : GatewayRegisterInfo → http.Params) where
  -- Let the gateway's address `url` be configured, and let the request of the registration be
  -- answered with the text `res`. The registration succeeds exactly if `res` is a JSON object whose
  -- status is the number or the text 200 or 0. It panics exactly if `res` is no JSON.
  pub ggp_register_proxy-IsAccepted :
      (cc : Client header codec http Io E) (url res : Text) (gr : GatewayRegisterInfo)
      (w w2 : http.W)
      → post header codec http Io E cc
          (url ++ codes "/gateway/api/v1/gateway/register")
          (register_params gr)
          w
        ≡ (w2, ok res)
      → (((ggp_register_proxy json Io E header codec http register_params cc (some url) gr w).1
            ≡ ok accepted)
          ↔ IsAccepted json res)
        × (((ggp_register_proxy json Io E header codec http register_params cc (some url) gr w).1
              ≡ panicked)
            ↔ (json.from_str res ≡ none))
  unfolding ggp_register_proxy read_registered
  ggp_register_proxy-IsAccepted cc url res gr w w2 e =
      let r = json-Ended json Io E res (json.from_str res) refl in
      rw (ggp_register_proxy, e) ((r.0, IsAccepted-read json Io E res), r.1)
