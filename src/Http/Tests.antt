-- ===== src/Http/Tests.antt =====
-- The theorems on the HTTP client of src/utils/actix_client.rs at the server of Http.Sample, which refuses
-- JSON.
use chimes_utils.Base.{◌≡◌, refl, true, false, [], ◌∷◌}
use chimes_utils.Base.Text.{Text, codes, text_eq, text_eq_refl}
use chimes_utils.Base.Dict
use chimes_utils.Base.Dict.{Dict, get-insert}
use chimes_utils.Base.Answer.{ok, map_ok}
use chimes_utils.Http.{
  borrowed, HttpCrate, ChimesClient, content_charset, encoding_of, text_with_charset,
}
use chimes_utils.Http.Requests.{answered, sent, text_of, get, request, request_with_response}
use chimes_utils.Http.Answers.{coded, text_part, request-eq-request_with_response}
use chimes_utils.Http.Decoding.{byte_order_mark}
use chimes_utils.Http.Sample.{unmark, header, codec, echo, http_at}
use chimes_utils.Http.Headers.{IsHeaderMap}

abbrev http : HttpCrate header codec
http = http_at false

abbrev client : ChimesClient header codec http
client = record { client = 0; charset = codes "utf-8"; headers = [] }

request-eq-request_with_response_example :
    coded (request header codec http Unit Unit client 1 (codes "u") (codes "p") 0).1
    ≡ map_ok text_part (
        coded
          (request_with_response header codec http Unit Unit client 1 (codes "u") (codes "p") 0).1)
request-eq-request_with_response_example =
    request-eq-request_with_response header codec http Unit Unit client 1 (codes "u") (codes "p") 0

-- The decoding leaves the mark out, and the text keeps it.
marked_text :
    (codec.decode true (byte_order_mark ∷ codes "ok") ≡ borrowed (codes "ok"))
    × (text_with_charset header codec [] (codes "utf-8") (byte_order_mark ∷ codes "ok")
        ≡ byte_order_mark ∷ codes "ok")
unfolding text_with_charset encoding_of content_charset unmark Dict.get
marked_text = (refl, refl)

-- The answers of this server: a text, and a refused request.
get_succeeds : (get header codec http Unit Unit client (codes "u") 0).1 ≡ ok (codes "ok")
unfolding get sent answered text_of text_with_charset encoding_of content_charset Dict.get echo
    unmark
get_succeeds = refl

laws : IsHeaderMap header text_eq
laws = record { same_refl = text_eq_refl; get-insert = λ n m v h. get-insert n m v h }
