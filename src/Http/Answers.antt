-- ===== src/Http/Answers.antt =====
-- What the requests of src/utils/actix_client.rs answer, and how they agree with each other.
use chimes_utils.Base.{◌≡◌, refl, sym, ap, ◌⊎◌, inl, inr, Bool-cases, Option, none, some}
use chimes_utils.Base.Text.{Text}
use chimes_utils.Base.Int.{ℤ, pos}
use chimes_utils.Base.Answer.{Answer, ok, err, panicked, map_ok}
use chimes_utils.Errors.{ErrorKind, custom, ChimesError}
use chimes_utils.Http.{HeaderCrate, CharsetCrate, json_body, HttpCrate}
use chimes_utils.Http.Requests.{
  after, Client, build, send_failed, body_failed, refused, message_refused, text_of, explained,
  answered, sent, request, request_with_response,
}

module _ {Io : Type 0} where
  abbrev pub kind_code : ErrorKind Io → Option ℤ
  kind_code (custom code _) = some code
  kind_code _ = none

-- A result up to the words of its error: the code is kept.
module _ {Io E A : Type 0} where
  abbrev pub coded : Answer (ChimesError Io E) A → Answer (Option ℤ) A
  coded (ok a) = ok a
  coded (err e) = err (kind_code e.kind)
  coded panicked = panicked

abbrev pub text_part : {A B : Type 0} → A × B → A
text_part p = p.0

module _ (header : HeaderCrate) (codec : CharsetCrate) (http : HttpCrate header codec)
    (Io E : Type 0) where
  explained-coded :
      {A : Type 0} (self : Client header codec http Io E) (res : http.Response)
      (r : http.W × (Text ⊎ codec.Bytes))
      → coded (explained header codec http {Io = Io} {E = E} {A = A} self res r).1
        ≡ err (some (pos 500))
  unfolding explained message_refused
  explained-coded self res (w, inl e) = refl
  explained-coded self res (w, inr bs) = refl

  body_agree :
      (self : Client header codec http Io E) (res : http.Response)
      (b : http.W × (Text ⊎ codec.Bytes))
      → coded
          (after b
            (body_failed header codec http Io E)
            (λ bs v. (v, ok (text_of header codec http Io E self res bs)))).1
        ≡ map_ok text_part (
            coded
              (after b
                (body_failed header codec http Io E)
                (λ bs v. (v, ok (text_of header codec http Io E self res bs, http.headers res)))).1)
  unfolding body_failed
  body_agree self res (w, inl e) = refl
  body_agree self res (w, inr bs) = refl

  sent_agree :
      (self : Client header codec http Io E) (r : http.W × (Text ⊎ http.Response))
      → coded
          (after r (send_failed header codec http Io E) (
            answered header codec http
              (text_of header codec http Io E self)
              (refused header codec http))).1
        ≡ map_ok text_part (
            coded
              (after r (send_failed header codec http Io E) (
                answered header codec http
                  (λ res bs. (text_of header codec http Io E self res bs, http.headers res))
                  (λ res v. explained header codec http self res (http.body res v)))).1)
  unfolding send_failed answered refused
  sent_agree self (w, inl e) = refl
  sent_agree self (w, inr res) = elim (Bool-cases (http.is_success res)) [
    | inl y ↦ rw (answered, y) (body_agree self res (http.body res w))
    | inr n ↦
        rw (answered, n) (sym (ap (map_ok text_part) (explained-coded self res (http.body res w))))
  ]

  -- `request` and `request_with_response`, asked for the same, agree: both succeed with the same
  -- text, or both fail with the same code, whatever is sent, refused or cannot be read.
  pub request-eq-request_with_response :
      (self : Client header codec http Io E) (method : http.Method) (url : Text)
      (params : http.Params) (w : http.W)
      → coded (request header codec http Io E self method url params w).1
        ≡ map_ok text_part
            (coded (request_with_response header codec http Io E self method url params w).1)
  unfolding request request_with_response sent
  request-eq-request_with_response self method url params w =
      sent_agree self
        (http.send (build header codec http Io E self method url) (json_body params) w)
