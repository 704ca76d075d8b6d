-- ===== src/Redis/Tests.antt =====
-- The theorems on the Redis client of src/utils/redis_client.rs at a server that is a dictionary.
use chimes_utils.Base.{ℕ, ◌≡◌, refl, false, true, Option, none, some, List, [], ◌∷◌, if◌then◌else◌}
use chimes_utils.Base.Text.{Text, codes, text_eq}
use chimes_utils.Base.Int.{pos}
use chimes_utils.Base.Dict
use chimes_utils.Base.Dict.{Dict, get-insert, get-remove}
use chimes_utils.Base.Answer.{Answer, ok, err}
use chimes_utils.Errors.{error_custom}
use chimes_utils.Config.{Levels, AppConfig, initial}
use chimes_utils.Config.Load.{Yaml, web_config, redis_config, config_of, load_yaml}
use chimes_utils.Config.Laws.{IsBadValue, bare_redis}
use chimes_utils.Redis.{done, RedisCrate, single_connection, req_command}
use chimes_utils.Redis.Pool.{PoolCrate, init_global_redis, redis_get, redis_set, redis_del}
use chimes_utils.Redis.Laws.{IsStore, redis_get-redis_set, redis_get-redis_del}
use chimes_utils.Redis.Start.{init_global_redis-load_yaml}

data Value : Type 0 where
  text : Text → Value
  okay : Value
  nil : Value
  int : ℕ → Value

unfoldable value_of : Option Text → Value
value_of none = nil
value_of (some v) = text v

-- GET and DEL of a key, and SET of a key to a text.
unfoldable request : List Text → Dict Text → Dict Text × Answer Text Value
unfolding Dict.get Dict.insert Dict.remove value_of
request (op ∷ k ∷ []) w =
    if text_eq op (codes "GET")
    then (w, ok (value_of (Dict.get k w)))
    else (Dict.remove k w, ok (int 1))
request (op ∷ k ∷ v ∷ []) w = (Dict.insert k v w, ok okay)
request _ w = (w, err [])

unfoldable string_of : Value → Answer Text Text
string_of (text t) = ok t
string_of okay = ok (codes "OK")
string_of nil = err (codes "nil")
string_of (int n) = err (codes "int")

unfoldable refusal : Value → Text
refusal (int n) = codes "int"
refusal _ = codes "nil"

abbrev redis : RedisCrate
redis = record {
  S = Dict Text;
  Client = Text;
  ClusterClient = Text;
  Connection = Text;
  ClusterConnection = Text;
  Value = Value;
  RedisError = Text;
  to_string = λ e. e;
  type_error = λ e. e;
  open_client = λ url. ok url;
  build = λ urls password. err (codes "no cluster");
  get_connection = λ c w. (w, ok c);
  get_cluster_connection = λ c w. (w, ok c);
  is_open = λ c. true;
  is_open_cluster = λ c. true;
  req_command = λ c cmd w. request cmd w;
  req_command_cluster = λ c cmd w. request cmd w;
  string_of = string_of;
  unit_of = λ v. ok done;
}

abbrev r2d2 : PoolCrate redis
r2d2 = record {
  Pool = ℕ;
  build = λ conf manager w. (w, ok 0);
  get = λ pool w. (w, ok (single_connection []));
}

server : IsStore redis r2d2 0
unfolding req_command request string_of refusal value_of text_eq
server = record {
  look = λ w k. Dict.get k w;
  put = λ k v w. Dict.insert k v w;
  cut = λ k w. Dict.remove k w;
  conn = single_connection [];
  text = text;
  okay = okay;
  nil = nil;
  int = int;
  no_string = refusal;
  get_ok = λ w. refl;
  string_text = λ t. refl;
  string_okay = refl;
  string_nil = refl;
  string_int = λ n. refl;
  get_some = λ k v w h. rw h refl;
  get_none = λ k w h. rw h refl;
  set_reply = λ k v w. refl;
  del_reply = λ k w. (1, refl);
  look_put = λ k v j w. get-insert k j v w;
  look_cut = λ k j w. get-remove k j w;
}

abbrev two_keys : Dict Text
two_keys = (codes "a", codes "1") ∷ (codes "b", codes "2") ∷ []

redis_get-redis_set_example :
    let w2 = (redis_set redis r2d2 Unit Unit (some (some 0)) (codes "a") (codes "3") two_keys).0 in
    ((redis_set redis r2d2 Unit Unit (some (some 0)) (codes "a") (codes "3") two_keys).1
      ≡ ok (some (codes "OK")))
    × ((j : Text)
        → (redis_get redis r2d2 Unit Unit (some (some 0)) j w2).1 ≡ (
            if text_eq (codes "a") j
            then ok (some (codes "3"))
            else (redis_get redis r2d2 Unit Unit (some (some 0)) j two_keys).1))
redis_get-redis_set_example =
    redis_get-redis_set redis r2d2 Unit Unit 0 server (codes "a") (codes "3") two_keys

redis_get-redis_del_example :
    let w2 = (redis_del redis r2d2 Unit Unit (some (some 0)) (codes "a") two_keys).0 in
    ((m : Text) × ((redis_del redis r2d2 Unit Unit (some (some 0)) (codes "a") two_keys).1
        ≡ err (error_custom (pos 10077) m)))
    × ((j : Text)
        → (redis_get redis r2d2 Unit Unit (some (some 0)) j w2).1 ≡ (
            if text_eq (codes "a") j
            then err (error_custom (pos 10070) (codes "nil"))
            else (redis_get redis r2d2 Unit Unit (some (some 0)) j two_keys).1))
unfolding refusal server
redis_get-redis_del_example = redis_get-redis_del redis r2d2 Unit Unit 0 server (codes "a") two_keys

abbrev log : Levels
log = record { LevelFilter = ℕ; info = 3; from_str = λ s. none }

-- A missing value, a document with a section for the server only, this section, and its port.
data Node : Type 0 where
  bad document web port : Node

abbrev yaml : Yaml
yaml = record {
  Node = Node;
  index = λ n key. elim n [
    | bad ↦ bad
    | document ↦ if text_eq key (codes "webserver") then web else bad
    | web ↦ if text_eq key (codes "port") then port else bad
    | port ↦ bad
  ];
  as_str = λ n. none;
  as_i64 = λ n. elim n [ port ↦ some (pos 8080) | _ ↦ none ];
  as_bool = λ n. none;
  as_vec = λ n. none;
  is_null = λ n. false;
  load_from_str = λ s. some (document ∷ []);
}

missing : IsBadValue yaml bad
missing = record {
  index_bad = λ key. refl;
  as_str_bad = refl;
  as_i64_bad = refl;
  as_bool_bad = refl;
  as_vec_bad = refl;
  is_null_bad = refl;
}

abbrev loaded : AppConfig log
loaded = record (initial log) {
  webserver_conf = record (initial log).webserver_conf { port = pos 8080 };
  redis_conf = some bare_redis;
}

init_global_redis-load_yaml_example :
    (init_global_redis redis r2d2 Unit Unit (some bare_redis) none two_keys ≡ (two_keys, none))
    × (init_global_redis redis r2d2 Unit Unit none none two_keys ≡ (two_keys, some (some none)))
init_global_redis-load_yaml_example =
    init_global_redis-load_yaml redis r2d2 Unit Unit log yaml bad document [] (codes "x: 1")
      (initial log) loaded two_keys missing (unfold text_eq in refl) refl
      (unfold load_yaml config_of web_config redis_config text_eq in refl)
