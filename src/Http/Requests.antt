-- ===== src/Http/Requests.antt =====
-- The requests of src/utils/actix_client.rs.
use chimes_utils.Base.{◌⊎◌, inl, inr, none, some, List, [], ◌∷◌, ◌++◌, if◌then◌else◌}
use chimes_utils.Base.Text.{Text, codes}
use chimes_utils.Base.Int.{pos, negsuc}
use chimes_utils.Base.Answer.{Answer, ok, err}
use chimes_utils.Errors.{ChimesError, error_custom}
use chimes_utils.Http.{
  HeaderCrate, CharsetCrate, Payload, no_body, json_body, text_body, bytes_body, HttpCrate,
  ChimesClient, text_with_charset,
}

-- What follows a step that may fail.
module _ {W A B F : Type 0} where
  abbrev pub after : W × (Text ⊎ A) → (Text → F) → (A → W → W × Answer F B) → W × Answer F B
  after (w, inr a) failed f = f a w
  after (w, inl e) failed f = (w, err (failed e))

module _ (header : HeaderCrate) (codec : CharsetCrate) (http : HttpCrate header codec)
    (Io E : Type 0) where
  abbrev pub Reply : Type 0 → Type 0
  Reply A = http.W × Answer (ChimesError Io E) A

  abbrev pub Client : Type 0
  Client = ChimesClient header codec http

  -- The loop over the headers of the client.
  unfoldable pub insert_headers :
      List (header.HeaderName × header.HeaderValue) → http.ClientRequest → http.ClientRequest
  insert_headers [] build = build
  insert_headers ((head_name, head_value) ∷ rest) build =
      insert_headers rest (http.insert_header head_name head_value build)

  unfoldable pub build : Client → http.Method → Text → http.ClientRequest
  unfolding insert_headers
  build self method url =
      insert_headers (header.into_iter self.headers) (http.request self.client method url)

  unfoldable pub send_failed : Text → ChimesError Io E
  send_failed e = error_custom (pos 500) (codes "Send request error: " ++ e)

  unfoldable pub body_failed : Text → ChimesError Io E
  body_failed e = error_custom (negsuc 0) (codes "error: " ++ e)

  unfoldable pub message_refused : http.Response → Text → ChimesError Io E
  message_refused res resp =
      error_custom (pos 500) (codes "status=" ++ http.show_status res ++ codes ", message=" ++ resp)

  unfoldable pub text_of : Client → http.Response → codec.Bytes → Text
  text_of self res bs = text_with_charset header codec (http.headers res) self.charset bs

module _ (header : HeaderCrate) (codec : CharsetCrate) (http : HttpCrate header codec)
    {Io E A : Type 0} where
  -- The answer to a failing status.
  unfoldable pub refused : http.Response → http.W → Reply header codec http Io E A
  refused res w = (w, err (error_custom (pos 500) (codes "status=" ++ http.show_status res)))

  -- The answer that `request_with_response` gives to it: the body is read, and its text, or the
  -- text of the error, is put behind the status.
  unfoldable pub explained :
      Client header codec http Io E
      → http.Response
      → http.W × (Text ⊎ codec.Bytes)
      → Reply header codec http Io E A
  unfolding message_refused text_of
  explained self res (w, inr bs) = (
    w,
    err (message_refused header codec http Io E res (text_of header codec http Io E self res bs)),
  )
  explained self res (w, inl e) = (w, err (message_refused header codec http Io E res e))

  -- A status of success lets the body be read, and `read` makes the result of it.
  unfoldable pub answered :
      (http.Response → codec.Bytes → A)
      → (http.Response → http.W → Reply header codec http Io E A)
      → http.Response
      → http.W
      → Reply header codec http Io E A
  unfolding body_failed
  answered read otherwise res w =
      if http.is_success res
      then after (http.body res w) (body_failed header codec http Io E)
          (λ bs v. (v, ok (read res bs)))
      else otherwise res w

module _ (header : HeaderCrate) (codec : CharsetCrate) (http : HttpCrate header codec)
    (Io E : Type 0) where
  -- What all requests do with the answer, `read` and `otherwise` apart.
  unfoldable pub sent :
      (A : Type 0)
      → Client header codec http Io E
      → http.Method
      → Text
      → Payload http.Params codec.Bytes
      → (http.Response → codec.Bytes → A)
      → (http.Response → http.W → Reply header codec http Io E A)
      → http.W
      → Reply header codec http Io E A
  unfolding build send_failed answered
  sent A self method url payload read otherwise w =
      after (http.send (build header codec http Io E self method url) payload w)
        (send_failed header codec http Io E) (answered header codec http read otherwise)

  unfoldable pub get :
      Client header codec http Io E → Text → http.W → Reply header codec http Io E Text
  unfolding sent text_of refused
  get self url w =
      sent Text self http.method_get url no_body (text_of header codec http Io E self)
        (refused header codec http) w

  unfoldable pub get_bytes :
      Client header codec http Io E → Text → http.W → Reply header codec http Io E codec.Bytes
  unfolding sent refused
  get_bytes self url w =
      sent codec.Bytes self http.method_get url no_body (λ res bs. bs) (refused header codec http) w

  -- A method that cannot be read is POST.
  unfoldable pub request_betyes :
      Client header codec http Io E
      → Text
      → Text
      → http.Params
      → http.W
      → Reply header codec http Io E codec.Bytes
  unfolding sent refused
  request_betyes self method_str url params w =
      let method : http.Method = elim (http.from_bytes method_str) [
        | some s ↦ s
        | none ↦ http.method_post
      ] in
      sent codec.Bytes self method url (json_body params) (λ res bs. bs) (refused header codec http)
        w

  unfoldable pub request :
      Client header codec http Io E
      → http.Method
      → Text
      → http.Params
      → http.W
      → Reply header codec http Io E Text
  unfolding sent text_of refused
  request self method url params w =
      sent Text self method url (json_body params) (text_of header codec http Io E self)
        (refused header codec http) w

  unfoldable pub post :
      Client header codec http Io E
      → Text
      → http.Params
      → http.W
      → Reply header codec http Io E Text
  unfolding request
  post self url params w = request self http.method_post url params w

  unfoldable pub put :
      Client header codec http Io E
      → Text
      → http.Params
      → http.W
      → Reply header codec http Io E Text
  unfolding request
  put self url params w = request self http.method_put url params w

  unfoldable pub delete :
      Client header codec http Io E
      → Text
      → http.Params
      → http.W
      → Reply header codec http Io E Text
  unfolding request
  delete self url params w = request self http.method_delete url params w

  unfoldable pub request_form_with_response :
      Client header codec http Io E
      → http.Method
      → Text
      → Text
      → http.W
      → Reply header codec http Io E (Text × header.HeaderMap)
  unfolding sent text_of explained
  request_form_with_response self method url params w =
      sent (Text × header.HeaderMap) self method url (text_body params)
        (λ res bs. (text_of header codec http Io E self res bs, http.headers res))
        (λ res v. explained header codec http self res (http.body res v)) w

  unfoldable pub request_with_response :
      Client header codec http Io E
      → http.Method
      → Text
      → http.Params
      → http.W
      → Reply header codec http Io E (Text × header.HeaderMap)
  unfolding sent text_of explained
  request_with_response self method url params w =
      sent (Text × header.HeaderMap) self method url (json_body params)
        (λ res bs. (text_of header codec http Io E self res bs, http.headers res))
        (λ res v. explained header codec http self res (http.body res v)) w

  unfoldable pub post_betyes :
      Client header codec http Io E
      → Text
      → codec.Bytes
      → http.W
      → Reply header codec http Io E Text
  unfolding sent text_of refused
  post_betyes self url body w =
      sent Text self http.method_post url (bytes_body body) (text_of header codec http Io E self)
        (refused header codec http) w
