-- ===== src/Http/Sample.antt =====
-- A server for the tests of the HTTP client of src/utils/actix_client.rs and of what uses it: it answers
-- every request with its own body; JSON it refuses unless it is told to accept it.
use chimes_utils.Base.{
  ℕ, ◌⊎◌, inr, Bool, true, false, ◌==◌, if◌then◌else◌, Option, none, some, [], ◌∷◌,
}
use chimes_utils.Base.Text.{Text, codes}
use chimes_utils.Base.Dict
use chimes_utils.Base.Dict.{Dict}
use chimes_utils.Http.{
  HeaderCrate, borrowed, CharsetCrate, Payload, no_body, json_body, text_body, bytes_body,
  HttpCrate,
}

-- Names and values are texts, and the empty text is no name.
unfoldable pub name_of : Text → Option Text
name_of [] = none
name_of (c ∷ s) = some (c ∷ s)

abbrev pub header : HeaderCrate
header = record {
  HeaderName = Text;
  HeaderValue = Text;
  HeaderMap = Dict Text;
  content_type = codes "content-type";
  from_lowercase = name_of;
  from_str = λ s. some s;
  to_str = λ v. some v;
  new = [];
  insert = λ n v h. Dict.insert n v h;
  get = λ n h. Dict.get n h;
  into_iter = λ h. h;
  to_lowercase = λ s. s;
}

-- The bytes are UTF-8, read as their code points; the decoding leaves a byte order mark out.
unfoldable pub unmark : Text → Text
unmark [] = []
unmark (c ∷ s) = if c == 65279 then s else c ∷ s

unfoldable pub is_marked : Text → Bool
is_marked [] = false
is_marked (c ∷ s) = c == 65279

abbrev pub codec : CharsetCrate
codec = record {
  Bytes = Text;
  Mime = Text;
  Encoding = Bool;
  parse = λ s. some s;
  charset = λ m. none;
  for_label = λ s. none;
  utf_8 = true;
  decode = λ e bs. borrowed (unmark bs);
  from_utf8_unchecked = λ bs. bs;
}

-- The status, and the body of an answer.
unfoldable pub echo : Bool → Payload Text Text → ℕ → ℕ × (Text ⊎ (Bool × Text))
echo accepts no_body w = (w, inr (true, codes "ok"))
echo accepts (json_body t) w = (w, inr (accepts, t))
echo accepts (text_body t) w = (w, inr (true, t))
echo accepts (bytes_body t) w = (w, inr (true, t))

abbrev pub http_at : Bool → HttpCrate header codec
http_at accepts = record {
  W = ℕ;
  HttpClient = ℕ;
  ClientRequest = Dict Text;
  Response = Bool × Text;
  Method = ℕ;
  Params = Text;
  method_get = 0;
  method_post = 1;
  method_put = 2;
  method_delete = 3;
  from_bytes = λ s. none;
  request = λ c m url. [];
  insert_header = λ n v r. Dict.insert n v r;
  send = λ r p w. echo accepts p w;
  is_success = λ res. res.0;
  show_status = λ res. codes "404";
  headers = λ res. [];
  body = λ res w. (w, inr res.1);
}
