-- ===== src/Redis.antt =====
-- The Redis client of src/utils/redis_client.rs: its clients, its connections and the pool that the
-- functions use. The crates redis and r2d2 are parameters, and so is the server, whose state every
-- request takes and gives.
pub mod Pool
pub mod Laws
pub mod Start
mod Tests
use chimes_utils.Base.{ℕ, Bool, true, false, not, Option, none, some, List, [], ◌∷◌}
use chimes_utils.Base.Text.{Text, codes}
use chimes_utils.Base.Answer.{Answer, ok, err, panicked, map_ok, and_then}
use chimes_utils.Config.{InstanceType, single, cluster, RedisConfig}

-- Rust's `()`.
pub data Done : Type 0 where
  done : Done

-- The crate redis. A command is its words; `S` is the state of the server.
pub record RedisCrate : Type 1 where
  pub S : Type 0
  pub Client : Type 0
  pub ClusterClient : Type 0
  pub Connection : Type 0
  pub ClusterConnection : Type 0
  pub Value : Type 0
  pub RedisError : Type 0
  pub to_string : RedisError → Text
  -- the error `(ErrorKind::TypeError, text)`
  pub type_error : Text → RedisError
  -- `Client::open`, and `ClusterClientBuilder` with its addresses and its password
  pub open_client : Text → Answer RedisError Client
  pub build : List Text → Option Text → Answer RedisError ClusterClient
  pub get_connection : Client → S → S × Answer RedisError Connection
  pub get_cluster_connection : ClusterClient → S → S × Answer RedisError ClusterConnection
  pub is_open : Connection → Bool
  pub is_open_cluster : ClusterConnection → Bool
  pub req_command : Connection → List Text → S → S × Answer RedisError Value
  pub req_command_cluster : ClusterConnection → List Text → S → S × Answer RedisError Value
  -- `from_redis_value` at String and at ()
  pub string_of : Value → Answer RedisError Text
  pub unit_of : Value → Answer RedisError Done

module _ (redis : RedisCrate) where
  pub data RedisClient : Type 0 where
    single_client : redis.Client → RedisClient
    cluster_client : redis.ClusterClient → RedisClient

  pub data RedisConnection : Type 0 where
    single_connection : redis.Connection → RedisConnection
    cluster_connection : redis.ClusterConnection → RedisConnection

  pub record RedisConnectionManager : Type 0 where
    pub redis_client : RedisClient

module _ (redis : RedisCrate) where
  -- `self.urls[0]` is a panic where there is no address.
  unfoldable pub open_first : List Text → Answer redis.RedisError (RedisClient redis)
  open_first [] = panicked
  open_first (url ∷ rest) = map_ok single_client (redis.open_client url)

  unfoldable pub client_of :
      Option InstanceType → RedisConfig → Answer redis.RedisError (RedisClient redis)
  unfolding open_first
  client_of none self = err (redis.type_error (codes "Config Error"))
  client_of (some single) self = open_first self.urls
  client_of (some cluster) self = map_ok cluster_client (redis.build self.urls self.password)

  unfoldable pub to_redis_client : RedisConfig → Answer redis.RedisError (RedisClient redis)
  unfolding client_of
  to_redis_client self = client_of self.instance_type self

  unfoldable pub get_redis_connection :
      RedisClient redis → redis.S → redis.S × Answer redis.RedisError (RedisConnection redis)
  get_redis_connection (single_client s) w =
      let r = redis.get_connection s w in (r.0, map_ok single_connection r.1)
  get_redis_connection (cluster_client c) w =
      let r = redis.get_cluster_connection c w in (r.0, map_ok cluster_connection r.1)

  unfoldable pub is_open : RedisConnection redis → Bool
  is_open (single_connection sc) = redis.is_open sc
  is_open (cluster_connection cc) = redis.is_open_cluster cc

  unfoldable pub req_command :
      RedisConnection redis → List Text → redis.S → redis.S × Answer redis.RedisError redis.Value
  req_command (single_connection sc) cmd w = redis.req_command sc cmd w
  req_command (cluster_connection cc) cmd w = redis.req_command_cluster cc cmd w

  -- `query`, at the reading `read` of its answer.
  unfoldable pub query :
      {T : Type 0}
      → (redis.Value → Answer redis.RedisError T)
      → RedisConnection redis
      → List Text
      → redis.S
      → redis.S × Answer redis.RedisError T
  unfolding req_command
  query read conn cmd w = let r = req_command conn cmd w in (r.0, and_then r.1 read)

  unfoldable pub connect :
      RedisConnectionManager redis
      → redis.S
      → redis.S × Answer redis.RedisError (RedisConnection redis)
  unfolding get_redis_connection
  connect self w = get_redis_connection self.redis_client w

  unfoldable pub is_valid : RedisConnection redis → redis.S → redis.S × Answer redis.RedisError Done
  unfolding query
  is_valid conn w = query redis.unit_of conn (codes "PING" ∷ []) w

  unfoldable pub has_broken : RedisConnection redis → Bool
  unfolding is_open
  has_broken conn = not (is_open conn)
