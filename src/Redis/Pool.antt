-- ===== src/Redis/Pool.antt =====
-- The static pool of src/utils/redis_client.rs and the functions on keys.
use chimes_utils.Base.{ℕ, Option, none, some, List, [], ◌∷◌}
use chimes_utils.Base.Text.{Text, codes}
use chimes_utils.Base.Int.{ℤ, pos}
use chimes_utils.Base.Answer.{Answer, ok, err, panicked}
use chimes_utils.Errors.{ChimesError, error_custom}
use chimes_utils.Str.{show}
use chimes_utils.Config.{RedisPoolConfig, RedisConfig}
use chimes_utils.Redis.{
  RedisCrate, RedisClient, RedisConnection, RedisConnectionManager, to_redis_client, query,
}

-- The crate r2d2: a pool that is built over a manager, and a connection that is taken from it.
pub record PoolCrate (redis : RedisCrate) : Type 1 where
  pub Pool : Type 0
  pub build : RedisPoolConfig → RedisConnectionManager redis → redis.S → redis.S × Answer Text Pool
  pub get : Pool → redis.S → redis.S × Answer Text (RedisConnection redis)

module _ (redis : RedisCrate) (r2d2 : PoolCrate redis) (Io E : Type 0) where
  abbrev pub Result : Type 0 → Type 0
  Result A = Answer (ChimesError Io E) A

  -- The builder with the numbers of the settings, over the client that they name.
  unfoldable pub build_pool :
      RedisPoolConfig
      → Answer redis.RedisError (RedisClient redis)
      → redis.S
      → redis.S × Result r2d2.Pool
  build_pool conf (ok rc) w =
      let r = r2d2.build conf (record { redis_client = rc }) w in
      (
        r.0,
        elim r.1 [
          | ok pool ↦ ok pool
          | err e ↦ err (error_custom (pos 10071) e)
          | panicked ↦ panicked
        ],
      )
  build_pool conf (err e) w = (w, err (error_custom (pos 10071) (redis.to_string e)))
  build_pool conf panicked w = (w, panicked)

  -- The argument is `redis_conf` of the configuration.
  unfoldable pub gen_redis_conn_pool : Option RedisConfig → redis.S → redis.S × Result r2d2.Pool
  unfolding build_pool
  gen_redis_conn_pool none w = (w, err (error_custom (pos 10070) (codes "Config Error")))
  gen_redis_conn_pool (some redis_conf) w =
      build_pool redis_conf.pool (to_redis_client redis redis_conf) w

  -- What `GLOBAL_REDIS_POOL` holds: nothing before it is initialised, then the pool, if one was
  -- built. An outer `none` of the answer is a panic, which leaves the cell as it was.
  abbrev pub Cell : Type 0
  Cell = Option (Option r2d2.Pool)

  unfoldable pub pool_of : Result r2d2.Pool → Option (Option r2d2.Pool)
  pool_of (ok it) = some (some it)
  pool_of (err e) = some none
  pool_of panicked = none

  unfoldable pub init_global_redis : Option RedisConfig → Cell → redis.S → redis.S × Option Cell
  unfolding gen_redis_conn_pool pool_of
  init_global_redis conf (some p) w = (w, some (some p))
  init_global_redis conf none w =
      let r = gen_redis_conn_pool conf w in
      (r.0, elim (pool_of r.1) [ none ↦ none | some p ↦ some (some p) ])

  unfoldable pub get_redis_connection : Cell → Option r2d2.Pool
  get_redis_connection none = none
  get_redis_connection (some conn) = conn

  -- The matches that every function on keys repeats: a text, or the error under the function's
  -- code.
  unfoldable pub coded : ℤ → Answer redis.RedisError Text → Result (Option Text)
  coded code (ok xv) = ok (some xv)
  coded code (err e) = err (error_custom code (redis.to_string e))
  coded code panicked = panicked

  unfoldable pub on_connection :
      ℤ → List Text → Answer Text (RedisConnection redis) → redis.S → redis.S × Result (Option Text)
  unfolding coded
  on_connection code cmd (ok tc) w =
      let r = query redis redis.string_of tc cmd w in (r.0, coded code r.1)
  on_connection code cmd (err e) w = (w, err (error_custom code e))
  on_connection code cmd panicked w = (w, panicked)

  unfoldable pub on_pool :
      ℤ → List Text → Option r2d2.Pool → redis.S → redis.S × Result (Option Text)
  unfolding on_connection
  on_pool code cmd none w = (w, ok none)
  on_pool code cmd (some c) w = let r = r2d2.get c w in on_connection code cmd r.1 r.0

  unfoldable pub redis_get : Cell → Text → redis.S → redis.S × Result (Option Text)
  unfolding on_pool get_redis_connection
  redis_get cell key w = on_pool (pos 10070) (codes "GET" ∷ key ∷ []) (get_redis_connection cell) w

  unfoldable pub redis_set : Cell → Text → Text → redis.S → redis.S × Result (Option Text)
  unfolding on_pool get_redis_connection
  redis_set cell key value w =
      on_pool (pos 10076) (codes "SET" ∷ key ∷ value ∷ []) (get_redis_connection cell) w

  unfoldable pub redis_set_expire :
      Cell → Text → Text → ℕ → redis.S → redis.S × Result (Option Text)
  unfolding on_pool get_redis_connection
  redis_set_expire cell key value expire w =
      on_pool (pos 10077) (codes "SET" ∷ key ∷ value ∷ codes "EX" ∷ show expire ∷ [])
        (get_redis_connection cell) w

  unfoldable pub redis_del : Cell → Text → redis.S → redis.S × Result (Option Text)
  unfolding on_pool get_redis_connection
  redis_del cell key w = on_pool (pos 10077) (codes "DEL" ∷ key ∷ []) (get_redis_connection cell) w
