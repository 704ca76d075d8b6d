-- ===== src/Http/Decoding.antt =====
-- The texts that the requests of src/utils/actix_client.rs find, against the meaning of the bytes.
use chimes_utils.Base.{◌≡◌, ◌⊎◌, inr, ℕ, Bool, true, ◌∷◌, if◌then◌else◌}
use chimes_utils.Base.Text.{Text}
use chimes_utils.Http.{
  HeaderCrate, Cow, borrowed, owned, CharsetCrate, HttpCrate, content_charset, encoding_of,
}
use chimes_utils.Http.Requests.{Reply, Client, refused, text_of, answered, get}

-- U+FEFF, which a text may be marked with at its front.
abbrev pub byte_order_mark : ℕ
byte_order_mark = 65279

-- What encoding_rs says of a text that it borrows: the bytes are UTF-8, and the text is all of them
-- but a mark at their front.
pub record IsBorrowing (codec : CharsetCrate) (is_marked : codec.Bytes → Bool) : Type 0 where
  pub borrows :
      (e : codec.Encoding) (bs : codec.Bytes) (t : Text)
      → codec.decode e bs ≡ borrowed t
      → codec.from_utf8_unchecked bs ≡ (if is_marked bs then byte_order_mark ∷ t else t)

-- The text of a body: the text that is decoded, but with the mark of the bytes if it is borrowed.
abbrev pub body_text : Cow → Bool → Text
body_text (owned t) marked = t
body_text (borrowed t) marked = if marked then byte_order_mark ∷ t else t

-- The server answered `res` with a status of success, its body was read as `bs`, and `s` is the text of
-- these bytes in the encoding that the content type names, or else in the client's own.
pub record IsAnswer (header : HeaderCrate) (codec : CharsetCrate) (http : HttpCrate header codec)
    (is_marked : codec.Bytes → Bool) (default_encoding : Text) (r : http.W × (Text ⊎ http.Response))
    (s : Text) : Type 0 where
  pub res : http.Response
  pub bs : codec.Bytes
  pub before : http.W
  pub behind : http.W
  pub sent_ok : r ≡ (before, inr res)
  pub success : http.is_success res ≡ true
  pub body_ok : http.body res before ≡ (behind, inr bs)
  pub text_ok :
      s
      ≡ body_text
          (codec.decode
            (encoding_of header codec
              (content_charset header codec (header.get header.content_type (http.headers res)))
              default_encoding)
            bs)
          (is_marked bs)

module _ (header : HeaderCrate) (codec : CharsetCrate) (is_marked : codec.Bytes → Bool)
    (borrowing : IsBorrowing codec is_marked) where
  module _ (http : HttpCrate header codec) (Io E : Type 0)
      (self : Client header codec http Io E) where
    abbrev Found : http.W × (Text ⊎ http.Response) → Text → Type 0
    Found = IsAnswer header codec http is_marked self.charset

    abbrev on_answer : http.Response → http.W → Reply header codec http Io E Text
    on_answer =
        answered header codec http (text_of header codec http Io E self) (refused header codec http)
