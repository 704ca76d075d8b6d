-- ===== src/Wechat/Tests.antt =====
-- The theorems on the WeChat client of src/wechat at concrete values.
use chimes_utils.Base.{◌≡◌, refl, true, false, Option, none, some, [], ◌∷◌, if◌then◌else◌}
use chimes_utils.Base.Text.{Text, codes, text_eq}
use chimes_utils.Base.Int.{pos, as_unsigned}
use chimes_utils.Base.Dict
use chimes_utils.Base.Dict.{Dict}
use chimes_utils.Wechat.{ok, Json, code_of, check_code, json_decode}
use chimes_utils.Wechat.Token.{
  TokioAccessToken, TokioToken, Reply, cache_key, token_url, set, is_valid, token_of, read_token,
  get_access_token, keep, get,
}
use chimes_utils.Str.{starts_with, strip_prefix}
use chimes_utils.Wechat.Message.{contains, is_sent}
use chimes_utils.Wechat.Laws.{get-get}

-- A text is the document whose `access_token` it is; null is `none`.
abbrev json : Json
json = record {
  Value = Option Text;
  index = λ v key. if text_eq key (codes "access_token") then v else none;
  as_str = λ v. v;
  as_i64 = λ v. none;
  is_object = λ v. true;
  contains_key = λ v key. false;
  to_string = λ v. [];
  from_str = λ s. some (some s);
  error_text = λ s. [];
}

abbrev client : Text → Option Text
client url = some (codes "t")

abbrev app : TokioAccessToken
app = record { app_type = []; app_id = codes "a"; secret = [] }

abbrev other_app : TokioAccessToken
other_app = record { app_type = []; app_id = codes "b"; secret = [] }

abbrev token : TokioToken
token = record { access_token = codes "t"; create_time = 50; expires = pos 7200 }

abbrev reply : Reply
reply = record {
  found = some token;
  cache = (cache_key app, token) ∷ [];
  requests = token_url app [] ∷ [];
}

first_get : get json Unit Unit client 49 50 app [] ≡ some reply
unfolding get keep get_access_token read_token token_of json_decode check_code code_of set Dict.get
    Dict.insert text_eq
first_get = refl

get-get_example :
    get json Unit Unit (λ url. none) 6000 6000 app reply.cache
    ≡ some (record { found = some token; cache = reply.cache; requests = [] })
get-get_example =
    get-get json Unit Unit client (λ url. none) 49 50 6000 6000 app [] reply token first_get refl
      (unfold is_valid as_unsigned in refl)

fetched : get_access_token json Unit Unit client 50 app [] ≡ ok token
unfolding get_access_token read_token token_of json_decode check_code code_of text_eq
fetched = refl

-- An answer with an error code counts as sent.
error_is_sent :
    is_sent {F = Unit} (ok (codes "{\"errcode\":40003,\"errmsg\":\"invalid openid\"}")) ≡ true
unfolding is_sent contains starts_with strip_prefix
error_is_sent = refl
