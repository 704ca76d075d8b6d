-- ===== src/Wechat/Laws.antt =====
-- The token cache of src/wechat/token.rs: a valid token is found again, a token is fetched for its time,
-- and the applications do not disturb each other.
use mathlib.Core.List.{append_cancel_left}
use chimes_utils.Base.{
  subst, ℕ, ◌+◌, ◌<◌, ◌^◌, ◌≡◌, ◌≢◌, ◌↔◌, refl, ◌∙◌, inl, inr, true, Option, none, some, [], ◌++◌,
  Bool-cases, Option-cases, arith,
}
use chimes_utils.Base.Text.{Text, codes, text_eq_iff}
use chimes_utils.Base.Int.{pos, as_unsigned}
use chimes_utils.Base.Dict
use chimes_utils.Base.Dict.{Dict, get-insert, get-insert_self}
use chimes_utils.Wechat.{WechatError, Answer, ok, err, panicked, Json, json_decode}
use chimes_utils.Wechat.Token.{
  TokioAccessToken, TokioToken, Reply, cache_key, token_url, set, is_valid, token_of, read_token,
  get_access_token, keep, get,
}

-- What a reply finds is in its cache, and no other key of the cache changes.
abbrev Keeps : Text → Dict TokioToken → Option Reply → Type 0
Keeps key cache none = Unit
Keeps key cache (some r) =
    ((t : TokioToken) → r.found ≡ some t → Dict.get key r.cache ≡ some t)
    × ((j : Text) → j ≢ key → Dict.get j r.cache ≡ Dict.get j cache)

-- No key of the cache changes.
same_cache :
    (cache : Dict TokioToken) (key j : Text) → j ≢ key → Dict.get j cache ≡ Dict.get j cache
same_cache cache key j h = refl

cache_key-injective : (a b : TokioAccessToken) → cache_key a ≡ cache_key b → a.app_id ≡ b.app_id
unfolding cache_key
cache_key-injective a b e =
    append_cancel_left (codes "wechat_config_cache_tokio" ++ codes "-") a.app_id b.app_id e

module _ (json : Json) (Io E : Type 0) where
  keep-Keeps :
      (self : TokioAccessToken) (cache : Dict TokioToken) (a : Answer (WechatError Io E) TokioToken)
      → Keeps (cache_key self) cache (keep json Io E self cache a)
  unfolding keep set
  keep-Keeps self cache (ok access) = (
    λ t f. get-insert_self (cache_key self) access cache ∙ f,
    λ j n.
        ground
          (arith, n, get-insert (cache_key self) j access cache, text_eq_iff (cache_key self) j),
  )
  keep-Keeps self cache (err e) = (λ t f. ground (arith, f), same_cache cache (cache_key self))
  keep-Keeps self cache panicked = tt

  get-Keeps :
      (client : Text → Option Text) (now created : ℕ) (self : TokioAccessToken)
      (cache : Dict TokioToken)
      → Keeps (cache_key self) cache (get json Io E client now created self cache)
  unfolding get
  get-Keeps client now created self cache =
      let fetched =
        keep-Keeps self cache (get_access_token json Io E client created self self.app_type) in
      elim (Option-cases (Dict.get (cache_key self) cache)) [
        | inl n ↦ rw (get, n) fetched
        | inr (mcx, m) ↦ elim (Bool-cases (is_valid now mcx)) [
          | inl v ↦ rw (get, m, v) (λ t f. m ∙ f, same_cache cache (cache_key self))
          | inr v ↦ rw (get, m, v) fetched
        ]
      ]

  -- A token that `get` found, in the cache or from the server, is found again by a later `get` as
  -- long as it is valid: the second one sends no request and leaves the cache as it is.
  pub get-get :
      (client client' : Text → Option Text) (now created now' created' : ℕ)
      (self : TokioAccessToken) (cache : Dict TokioToken) (r : Reply) (t : TokioToken)
      → get json Io E client now created self cache ≡ some r
      → r.found ≡ some t
      → is_valid now' t ≡ true
      → get json Io E client' now' created' self r.cache
        ≡ some (record { found = some t; cache = r.cache; requests = [] })
  unfolding get
  get-get client client' now created now' created' self cache r t h f v =
      let k =
        subst (λ (o : Option Reply). Keeps (cache_key self) cache o) h
          (get-Keeps client now created self cache) in
      rw (get, k.0 t f, v) refl

  -- A `get` for one application leaves the cached token of every other application as it is.
  pub get_other :
      (client : Text → Option Text) (now created : ℕ) (self other : TokioAccessToken)
      (cache : Dict TokioToken) (r : Reply)
      → other.app_id ≢ self.app_id
      → get json Io E client now created self cache ≡ some r
      → Dict.get (cache_key other) r.cache ≡ Dict.get (cache_key other) cache
  get_other client now created self other cache r n h =
      let k =
        subst (λ (o : Option Reply). Keeps (cache_key self) cache o) h
          (get-Keeps client now created self cache) in
      k.1 (cache_key other) (λ e. n (cache_key-injective other self e))

  -- What is fetched carries the time of its fetching, and the time to live of two hours.
  abbrev IsFetched : ℕ → Answer (WechatError Io E) TokioToken → Type 0
  IsFetched created (ok t) = (t.create_time ≡ created) × (t.expires ≡ pos 7200)
  IsFetched created (err e) = Unit
  IsFetched created panicked = Unit

  token_of-IsFetched :
      (created : ℕ) (o : Option Text) → IsFetched created (token_of json Io E created o)
  unfolding token_of
  token_of-IsFetched created none = tt
  token_of-IsFetched created (some token) = (refl, refl)

  read_token-IsFetched :
      (created : ℕ) (res : Text) → IsFetched created (read_token json Io E created res)
  unfolding read_token
  read_token-IsFetched created res =
      elim (json_decode json Io E res)
        as (λ a. IsFetched created (elim a [
          | ok data_ ↦
              token_of json Io E created (json.as_str (json.index data_ (codes "access_token")))
          | err e ↦ err e
          | panicked ↦ panicked
        ])) [
          | ok data_ ↦
              token_of-IsFetched created (json.as_str (json.index data_ (codes "access_token")))
          | err e ↦ tt
          | panicked ↦ tt
        ]

  get_access_token-IsFetched :
      (client : Text → Option Text) (created : ℕ) (self : TokioAccessToken) (grant_type : Text)
      → IsFetched created (get_access_token json Io E client created self grant_type)
  unfolding get_access_token
  get_access_token-IsFetched client created self grant_type =
      elim (Option-cases (client (token_url self grant_type))) [
        | inl n ↦ rw (get_access_token, n) tt
        | inr (res, n) ↦ rw (get_access_token, n) (read_token-IsFetched created res)
      ]

  -- A token that was fetched at `created` is valid for 6200 seconds, if its end fits 64 bits.
  pub get_access_token-is_valid :
      (client : Text → Option Text) (created now : ℕ) (self : TokioAccessToken) (grant_type : Text)
      (t : TokioToken)
      → get_access_token json Io E client created self grant_type ≡ ok t
      → created + 7200 < 2 ^ 64
      → (is_valid now t ≡ true) ↔ (now < created + 6200)
  unfolding is_valid as_unsigned
  get_access_token-is_valid client created now self grant_type t h fits =
      let (c, x) =
        subst (λ (a : Answer (WechatError Io E) TokioToken). IsFetched created a) h
          (get_access_token-IsFetched client created self grant_type) in
      rw (is_valid, c, x) (ground (arith, fits))
