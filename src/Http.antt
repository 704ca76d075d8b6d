-- ===== src/Http.antt =====
-- The HTTP client of src/utils/actix_client.rs: its headers, and the requests that it sends. The crate
-- awc with its headers and its bodies, and the crates mime and encoding_rs, are parameters; every
-- request takes and gives the state `W` of what it talks to.
pub mod Requests
pub mod Headers
pub mod Answers
pub mod Decoding
pub mod Sample
mod Tests
use chimes_utils.Base.{◌⊎◌, ℕ, Bool, Option, none, some, List, [], ◌∷◌}
use chimes_utils.Base.Text.{Text, codes}

-- Headers and their names and values, with `HeaderMap::insert`, `get` and iteration.
pub record HeaderCrate : Type 1 where
  pub HeaderName : Type 0
  pub HeaderValue : Type 0
  pub HeaderMap : Type 0
  pub content_type : HeaderName
  pub from_lowercase : Text → Option HeaderName
  pub from_str : Text → Option HeaderValue
  pub to_str : HeaderValue → Option Text
  pub new : HeaderMap
  pub insert : HeaderName → HeaderValue → HeaderMap → HeaderMap
  pub get : HeaderName → HeaderMap → Option HeaderValue
  pub into_iter : HeaderMap → List (HeaderName × HeaderValue)
  -- `str::to_lowercase`
  pub to_lowercase : Text → Text

-- The `Cow` that a decoding gives: a part of the bytes themselves, as a text, or a new text.
pub data Cow : Type 0 where
  borrowed owned : Text → Cow

-- The media type of a text with its parameter `charset`, and the encodings.
pub record CharsetCrate : Type 1 where
  pub Bytes : Type 0
  pub Mime : Type 0
  pub Encoding : Type 0
  pub parse : Text → Option Mime
  pub charset : Mime → Option Text
  pub for_label : Text → Option Encoding
  pub utf_8 : Encoding
  pub decode : Encoding → Bytes → Cow
  pub from_utf8_unchecked : Bytes → Text

-- What is sent with a request.
pub data Payload (Params Bytes : Type 0) : Type 0 where
  no_body : Payload Params Bytes
  json_body : Params → Payload Params Bytes
  text_body : Text → Payload Params Bytes
  bytes_body : Bytes → Payload Params Bytes

-- awc: its client, a request that is built, and an answer. An error stands on the left, as it is printed.
pub record HttpCrate (header : HeaderCrate) (codec : CharsetCrate) : Type 1 where
  pub W : Type 0
  pub HttpClient : Type 0
  pub ClientRequest : Type 0
  pub Response : Type 0
  pub Method : Type 0
  -- what `T : Serialize` may be
  pub Params : Type 0
  pub method_get : Method
  pub method_post : Method
  pub method_put : Method
  pub method_delete : Method
  pub from_bytes : Text → Option Method
  pub request : HttpClient → Method → Text → ClientRequest
  pub insert_header : header.HeaderName → header.HeaderValue → ClientRequest → ClientRequest
  pub send : ClientRequest → Payload Params codec.Bytes → W → W × (Text ⊎ Response)
  pub is_success : Response → Bool
  pub show_status : Response → Text
  pub headers : Response → header.HeaderMap
  pub body : Response → W → W × (Text ⊎ codec.Bytes)

module _ (header : HeaderCrate) (codec : CharsetCrate) (http : HttpCrate header codec) where
  pub record ChimesClient : Type 0 where
    pub client : http.HttpClient
    pub charset : Text
    pub headers : header.HeaderMap

  -- The record that `new_timeout`, `new_tls` and `new_ssl` end with, over the client they build.
  unfoldable pub new : http.HttpClient → ChimesClient
  new client = record { client = client; charset = codes "utf-8"; headers = header.new }

  unfoldable pub set_charset : Text → ChimesClient → ChimesClient
  set_charset charset self = record self { charset = charset }

  -- Both names of a header are lower case before they are read; a name or a value that cannot be
  -- read is left out.
  unfoldable pub put_valid :
      Option header.HeaderName → Option header.HeaderValue → ChimesClient → ChimesClient
  put_valid (some hn) (some hv) self = record self { headers = header.insert hn hv self.headers }
  put_valid _ _ self = self

  unfoldable pub put_header : Text → Text → ChimesClient → ChimesClient
  unfolding put_valid
  put_header key value self =
      put_valid (header.from_lowercase (header.to_lowercase key)) (header.from_str value) self

  -- The same, and the client is given back for further calls.
  unfoldable pub insert_header : Text → Text → ChimesClient → ChimesClient
  unfolding put_valid
  insert_header key value self =
      put_valid (header.from_lowercase (header.to_lowercase key)) (header.from_str value) self

-- The name of the encoding: the parameter of the content type if there is one that can be read.
module _ (header : HeaderCrate) (codec : CharsetCrate) where
  unfoldable pub content_charset : Option header.HeaderValue → Option Text
  content_charset none = none
  content_charset (some value) = elim (header.to_str value) [
    | none ↦ none
    | some s ↦ elim (codec.parse s) [ none ↦ none | some mime ↦ codec.charset mime ]
  ]

  unfoldable pub encoding_of : Option Text → Text → codec.Encoding
  encoding_of named default_encoding =
      let encoding_name : Text = elim named [ none ↦ default_encoding | some c ↦ c ] in
      elim (codec.for_label encoding_name) [ none ↦ codec.utf_8 | some e ↦ e ]

  -- It is an `Ok` on every path. A text that is borrowed is not what is given: that is all of the bytes.
  unfoldable pub text_with_charset : header.HeaderMap → Text → codec.Bytes → Text
  unfolding content_charset encoding_of
  text_with_charset headers default_encoding bs =
      let encoding =
        encoding_of (content_charset (header.get header.content_type headers)) default_encoding in
      elim (codec.decode encoding bs) [ owned s ↦ s | borrowed s ↦ codec.from_utf8_unchecked bs ]
