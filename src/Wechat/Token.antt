-- ===== src/Wechat/Token.antt =====
-- The access tokens of src/wechat/token.rs and their cache, a static map behind a mutex. The mutex is never
-- held across a wait or another lock, so it is left out.
use chimes_utils.Base.{
  ℕ, ◌+◌, ◌-◌, ◌^◌, Bool, Option, none, some, List, [], ◌∷◌, ◌++◌, ltb, wrap64, if◌then◌else◌,
}
use chimes_utils.Base.Text.{Text, codes}
use chimes_utils.Base.Int.{ℤ, pos, as_unsigned}
use chimes_utils.Base.Dict
use chimes_utils.Base.Dict.{Dict}
use chimes_utils.Str.{is_empty}
use chimes_utils.Wechat.{WechatError, error_msg, Answer, ok, err, panicked, Json, json_decode}

pub record TokioAccessToken : Type 0 where
  pub app_type : Text
  pub app_id : Text
  pub secret : Text

pub record TokioToken : Type 0 where
  pub access_token : Text
  pub create_time : ℕ
  pub expires : ℤ

unfoldable pub new : Text → Text → Text → TokioAccessToken
new app_type app_id secret = record { app_type = app_type; app_id = app_id; secret = secret }

abbrev pub api_domain : Text
api_domain = codes "https://api.weixin.qq.com"

unfoldable pub token_url : TokioAccessToken → Text → Text
token_url self grant_type =
    api_domain
    ++ codes "/cgi-bin/token?grant_type="
    ++ (if is_empty grant_type then codes "client_credential" else grant_type)
    ++ codes "&appid="
    ++ self.app_id
    ++ codes "&secret="
    ++ self.secret

unfoldable pub cache_key : TokioAccessToken → Text
cache_key self = codes "wechat_config_cache_tokio" ++ codes "-" ++ self.app_id

unfoldable pub set : TokioAccessToken → TokioToken → Dict TokioToken → Dict TokioToken
unfolding cache_key
set self val cache = Dict.insert (cache_key self) val cache

unfoldable pub clear : Dict TokioToken → Dict TokioToken
clear cache = []

-- `now < create_time + expires as u64 - 1000u64`, on u64.
unfoldable pub is_valid : ℕ → TokioToken → Bool
is_valid now t = ltb now (wrap64 (t.create_time + as_unsigned 64 t.expires + 2 ^ 64 - 1000))

-- What a `get` gives, the cache behind it, and the addresses that were asked.
pub record Reply : Type 0 where
  pub found : Option TokioToken
  pub cache : Dict TokioToken
  pub requests : List Text

module _ (json : Json) (Io E : Type 0) where
  -- The match on `data["access_token"].as_str()`.
  unfoldable pub token_of : ℕ → Option Text → Answer (WechatError Io E) TokioToken
  token_of now none = err (error_msg (codes "access token error"))
  token_of now (some token) =
      ok (record { access_token = token; create_time = now; expires = pos 7200 })

  -- The body of an answer that came in at second `now`.
  unfoldable pub read_token : ℕ → Text → Answer (WechatError Io E) TokioToken
  unfolding token_of
  read_token now res = elim (json_decode json Io E res) [
    | ok data_ ↦ token_of now (json.as_str (json.index data_ (codes "access_token")))
    | err e ↦ err e
    | panicked ↦ panicked
  ]

  -- `client` is `ChimesClient::get`: the body at an address, or `none` for an error.
  unfoldable pub get_access_token :
      (Text → Option Text) → ℕ → TokioAccessToken → Text → Answer (WechatError Io E) TokioToken
  unfolding token_url read_token
  get_access_token client now self grant_type = elim (client (token_url self grant_type)) [
    | none ↦ err (error_msg (codes "access token is invalid"))
    | some res ↦ read_token now res
  ]

  -- The end of `get`: a fetched token is kept and returned, and an error is logged.
  unfoldable pub keep :
      TokioAccessToken → Dict TokioToken → Answer (WechatError Io E) TokioToken → Option Reply
  unfolding set
  keep self cache (ok access) = some (record {
    found = some access;
    cache = set self access cache;
    requests = token_url self self.app_type ∷ [];
  })
  keep self cache (err e) =
      some (record { found = none; cache = cache; requests = token_url self self.app_type ∷ [] })
  keep self cache panicked = none

  -- `now` and `created` are the two times that are read. `none` is a panic.
  unfoldable pub get :
      (Text → Option Text) → ℕ → ℕ → TokioAccessToken → Dict TokioToken → Option Reply
  unfolding get_access_token keep is_valid
  get client now created self cache =
      let fetched = keep self cache (get_access_token client created self self.app_type) in
      elim (Dict.get (cache_key self) cache) [
        | none ↦ fetched
        | some mcx ↦
            if is_valid now mcx
            then some (record { found = some mcx; cache = cache; requests = [] })
            else fetched
      ]
