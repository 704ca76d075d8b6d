-- ===== src/Redis/Start.antt =====
-- The start of the pool in src/utils/redis_client.rs: when it fails, and when it panics.
use chimes_utils.Base.{ℕ, ◌≡◌, refl, ap, ◌∙◌, Option, none, some, List, ◌∷◌}
use chimes_utils.Base.Text.{Text, codes}
use chimes_utils.Base.Answer.{ok, err, panicked}
use chimes_utils.Errors.{ChimesError}
use chimes_utils.Config.{RedisConfig, Levels, AppConfig, initial}
use chimes_utils.Config.Load.{Yaml, load_yaml}
use chimes_utils.Config.Laws.{IsBadValue, bare_redis, load_yaml-redis_bad}
use chimes_utils.Redis.{RedisCrate, to_redis_client, client_of, open_first}
use chimes_utils.Redis.Pool.{
  PoolCrate, Cell, build_pool, gen_redis_conn_pool, pool_of, init_global_redis,
  get_redis_connection, on_pool, redis_get, redis_set, redis_set_expire, redis_del,
}

module _ (redis : RedisCrate) (r2d2 : PoolCrate redis) (Io E : Type 0) where
  -- Every function on keys answers that there is no text, and asks no server.
  abbrev pub IsSilent : Cell redis r2d2 Io E → redis.S → Type 0
  IsSilent cell w =
      ((k : Text) → redis_get redis r2d2 Io E cell k w ≡ (w, ok none))
      × ((k v : Text) → redis_set redis r2d2 Io E cell k v w ≡ (w, ok none))
      × ((k v : Text) (n : ℕ) → redis_set_expire redis r2d2 Io E cell k v n w ≡ (w, ok none))
      × ((k : Text) → redis_del redis r2d2 Io E cell k w ≡ (w, ok none))

  none-IsSilent : (w : redis.S) → IsSilent (some none) w
  unfolding redis_get redis_set redis_set_expire redis_del on_pool get_redis_connection
  none-IsSilent w = (λ k. refl, λ k v. refl, λ k v n. refl, λ k. refl)

  -- If the pool cannot be built at the first `init_global_redis`, for whatever reason short of a
  -- panic, the failure stays: a later `init_global_redis` with any configuration builds nothing,
  -- and every function on keys then answers that there is no text, which is no error.
  pub init_global_redis-failed :
      (conf : Option RedisConfig) (w w1 : redis.S) (e : ChimesError Io E)
      → gen_redis_conn_pool redis r2d2 Io E conf w ≡ (w1, err e)
      → (init_global_redis redis r2d2 Io E conf none w ≡ (w1, some (some none)))
        × ((later : Option RedisConfig) (w2 : redis.S)
            → (init_global_redis redis r2d2 Io E later (some none) w2 ≡ (w2, some (some none)))
              × IsSilent (some none) w2)
  unfolding init_global_redis pool_of
  init_global_redis-failed conf w w1 e h =
      (rw (init_global_redis, h) refl, λ later w2. (refl, none-IsSilent w2))

  bare_panics :
      (w : redis.S) → gen_redis_conn_pool redis r2d2 Io E (some bare_redis) w ≡ (w, panicked)
  unfolding gen_redis_conn_pool build_pool to_redis_client client_of open_first
  bare_panics w = refl

  init_bare : (w : redis.S) → init_global_redis redis r2d2 Io E (some bare_redis) none w ≡ (w, none)
  unfolding init_global_redis pool_of
  init_bare w = rw (init_global_redis, bare_panics w) refl

  -- Let the first document of a settings file lack the key `redis`, whatever else it holds, where a
  -- missing key reads as no text, number, Boolean or list, and not as null. After such a file is
  -- loaded, the first `init_global_redis` panics: Redis is taken to be configured, and its first
  -- address is read from an empty list. With the configuration that the program starts with, the
  -- first `init_global_redis` does not panic, and notes that there is no pool.
  pub init_global_redis-load_yaml :
      (log : Levels) (yaml : Yaml) (bad doc : yaml.Node) (docs : List yaml.Node) (s : Text)
      (self conf : AppConfig log) (w : redis.S)
      → IsBadValue yaml bad
      → yaml.index doc (codes "redis") ≡ bad
      → yaml.load_from_str s ≡ some (doc ∷ docs)
      → load_yaml log yaml (some s) self ≡ some conf
      → (init_global_redis redis r2d2 Io E conf.redis_conf none w ≡ (w, none))
        × (init_global_redis redis r2d2 Io E (initial log).redis_conf none w
            ≡ (w, some (some none)))
  unfolding gen_redis_conn_pool init_global_redis pool_of
  init_global_redis-load_yaml log yaml bad doc docs s self conf w b d l h = (
    ap (λ (r : Option RedisConfig). init_global_redis redis r2d2 Io E r none w)
          (load_yaml-redis_bad log yaml bad doc docs s self conf b d l h)
        ∙ init_bare w,
    refl,
  )
