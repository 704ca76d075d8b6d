-- ===== src/Config/Tests.antt =====
-- The theorems on the configuration of src/utils/mod.rs at concrete values.
use chimes_utils.Base.{ℕ, ◌≡◌, refl, false, none, some, [], ◌∷◌, if◌then◌else◌}
use chimes_utils.Base.Text.{text_eq}
use chimes_utils.Base.Int.{pos}
use chimes_utils.Config.{Levels, AppConfig, initial}
use chimes_utils.Config.Load.{Yaml, config_of, load_yaml}
use chimes_utils.Config.Laws.{IsBadValue, bare_redis, load_yaml-bad}

abbrev log : Levels
log = record { LevelFilter = ℕ; info = 3; from_str = λ s. none }

-- A missing value, a document in which every key is missing, and a number in a document in which
-- every key leads to it.
data Node : Type 0 where
  bad document number : Node

abbrev yaml : Yaml
yaml = record {
  Node = Node;
  index = λ n key. elim n [ bad ↦ bad | document ↦ bad | number ↦ number ];
  as_str = λ n. none;
  as_i64 = λ n. elim n [ number ↦ some (pos 5000000000) | _ ↦ none ];
  as_bool = λ n. none;
  as_vec = λ n. none;
  is_null = λ n. false;
  load_from_str = λ s. some ((if text_eq s [] then document else number) ∷ []);
}

bad-IsBadValue : IsBadValue yaml bad
bad-IsBadValue = record {
  index_bad = λ key. refl;
  as_str_bad = refl;
  as_i64_bad = refl;
  as_bool_bad = refl;
  as_vec_bad = refl;
  is_null_bad = refl;
}

load_yaml-bad_example :
    load_yaml log yaml (some []) (initial log)
    ≡ some (record (initial log) { redis_conf = some bare_redis })
load_yaml-bad_example =
    load_yaml-bad log yaml bad document [] [] (initial log) bad-IsBadValue (λ key. refl)
      (unfold text_eq in refl)

-- A pool size that needs more than 32 bits is cut.
overflowing : AppConfig log
unfolding config_of
overflowing = config_of log yaml number
