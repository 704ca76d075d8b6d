-- ===== src/Config/Laws.antt =====
-- What `load_yaml` of src/utils/mod.rs gives: for a file without settings, and for pool settings out of
-- range.
use mathlib.Core.Option.{some-injective}
use chimes_utils.Base.{
  subst, ◌^◌, ◌<◌, ◌≡◌, refl, sym, ap, ◌∙◌, inl, inr, false, Option, none, some, List, [], ◌∷◌,
  Bool-cases, arith,
}
use chimes_utils.Base.Text.{Text, codes}
use chimes_utils.Base.Int.{ℤ, pos, negsuc, as_unsigned}
use chimes_utils.Config.{RedisPoolConfig, single, RedisConfig, Levels, AppConfig, initial}
use chimes_utils.Config.Load.{
  Yaml, i64_at, level_of, database_config, web_config, email_config, urls_of, instance_of,
  pool_config, redis_config, config_of, load_yaml,
}

-- `Yaml::BadValue`, which stands for every key that is missing.
pub record IsBadValue (yaml : Yaml) (bad : yaml.Node) : Type 0 where
  pub index_bad : (key : Text) → yaml.index bad key ≡ bad
  pub as_str_bad : yaml.as_str bad ≡ none
  pub as_i64_bad : yaml.as_i64 bad ≡ none
  pub as_bool_bad : yaml.as_bool bad ≡ none
  pub as_vec_bad : yaml.as_vec bad ≡ none
  pub is_null_bad : yaml.is_null bad ≡ false

-- The Redis settings where the file names none.
abbrev pub bare_redis : RedisConfig
bare_redis = record {
  urls = [];
  database = pos 0;
  username = none;
  password = none;
  instance_type = some single;
  pool = record { connection_timeout = 0; max_size = 0; mini_idel = 0 };
}

-- The numbers of the pool fit their types.
abbrev pub PoolFits : RedisPoolConfig → Type 0
PoolFits p = (p.connection_timeout < 2 ^ 64) × (p.max_size < 2 ^ 32) × (p.mini_idel < 2 ^ 32)

-- The Redis settings, where there are any, have pool numbers that fit.
abbrev pub RedisFits : Option RedisConfig → Type 0
RedisFits none = Unit
RedisFits (some r) = PoolFits r.pool

module _ (log : Levels) (yaml : Yaml) where
  str_bad :
      (bad : yaml.Node)
      → IsBadValue yaml bad
      → (key : Text) → yaml.as_str (yaml.index bad key) ≡ none
  str_bad bad b key = ap yaml.as_str (b.index_bad key) ∙ b.as_str_bad

  config_of-bad :
      (bad doc : yaml.Node)
      → IsBadValue yaml bad
      → ((key : Text) → yaml.index doc key ≡ bad)
      → config_of log yaml doc ≡ record (initial log) { redis_conf = some bare_redis }
  unfolding config_of database_config web_config email_config level_of redis_config urls_of
      instance_of pool_config as_unsigned
  config_of-bad bad doc b d =
      let e : (key : Text) → yaml.as_str (yaml.index doc key) ≡ none =
        λ key. ap yaml.as_str (d key) ∙ b.as_str_bad in
      simp
        (e, d, str_bad bad b, b.index_bad, b.as_i64_bad, b.as_bool_bad, b.as_vec_bad, b.is_null_bad)

  -- Let a file hold a document in which every key is missing, and let a missing key read as no
  -- text, number, Boolean or list, and not as null. Loading the file gives the configuration that the
  -- program starts with, but for Redis: it is configured, as a single instance without addresses,
  -- where the program starts without Redis.
  pub load_yaml-bad :
      (bad doc : yaml.Node) (docs : List yaml.Node) (s : Text) (self : AppConfig log)
      → IsBadValue yaml bad
      → ((key : Text) → yaml.index doc key ≡ bad)
      → yaml.load_from_str s ≡ some (doc ∷ docs)
      → load_yaml log yaml (some s) self
        ≡ some (record (initial log) { redis_conf = some bare_redis })
  unfolding load_yaml
  load_yaml-bad bad doc docs s self b d l = rw (load_yaml, l) (ap some (config_of-bad bad doc b d))

  redis_config-bad :
      (bad : yaml.Node) → IsBadValue yaml bad → redis_config log yaml bad ≡ some bare_redis
  unfolding redis_config urls_of instance_of pool_config as_unsigned
  redis_config-bad bad b =
      simp (str_bad bad b, b.index_bad, b.as_i64_bad, b.as_vec_bad, b.is_null_bad)

  loaded-config_of :
      (doc : yaml.Node) (docs : List yaml.Node) (s : Text) (self : AppConfig log)
      → yaml.load_from_str s ≡ some (doc ∷ docs)
      → load_yaml log yaml (some s) self ≡ some (config_of log yaml doc)
  unfolding load_yaml
  loaded-config_of doc docs s self l = rw (load_yaml, l) refl

  -- A file whose document has no Redis section, whatever else it has.
  pub load_yaml-redis_bad :
      (bad doc : yaml.Node) (docs : List yaml.Node) (s : Text) (self conf : AppConfig log)
      → IsBadValue yaml bad
      → yaml.index doc (codes "redis") ≡ bad
      → yaml.load_from_str s ≡ some (doc ∷ docs)
      → load_yaml log yaml (some s) self ≡ some conf
      → conf.redis_conf ≡ some bare_redis
  unfolding config_of
  load_yaml-redis_bad bad doc docs s self conf b d l h =
      let e : some (config_of log yaml doc) ≡ some conf =
        sym (loaded-config_of doc docs s self l) ∙ h in
      ap (λ (c : AppConfig log). c.redis_conf)
        (sym (some-injective (config_of log yaml doc) conf e))
      ∙ ap (redis_config log yaml) d
      ∙ redis_config-bad bad b

  as_unsigned-lt_64 : (i : ℤ) → as_unsigned 64 i < 2 ^ 64
  unfolding as_unsigned
  as_unsigned-lt_64 (pos n) = omega arith
  as_unsigned-lt_64 (negsuc n) = omega arith

  as_unsigned-lt_32 : (i : ℤ) → as_unsigned 32 i < 2 ^ 32
  unfolding as_unsigned
  as_unsigned-lt_32 (pos n) = omega arith
  as_unsigned-lt_32 (negsuc n) = omega arith

  redis_config-RedisFits : (redis : yaml.Node) → RedisFits (redis_config log yaml redis)
  unfolding redis_config pool_config
  redis_config-RedisFits redis = elim (Bool-cases (yaml.is_null redis)) [
    | inl n ↦ rw (redis_config, n) tt
    | inr n ↦
        let pool = yaml.index redis (codes "pool") in
        rw (redis_config, n)
          (
            as_unsigned-lt_64 (i64_at log yaml pool (codes "connection_timeout")),
            as_unsigned-lt_32 (i64_at log yaml pool (codes "max_size")),
            as_unsigned-lt_32 (i64_at log yaml pool (codes "mini_idel")),
          )
  ]

  loaded-RedisFits :
      (docs : Option (List yaml.Node)) (b : AppConfig log)
      → elim docs [
        | none ↦ none
        | some ds ↦ elim ds [ [] ↦ none | doc ∷ _ ↦ some (config_of log yaml doc) ]
      ]
        ≡ some b
      → RedisFits b.redis_conf
  loaded-RedisFits none b h = cc
  loaded-RedisFits (some []) b h = cc
  loaded-RedisFits (some (doc ∷ docs)) b h =
      subst (λ (c : AppConfig log). RedisFits c.redis_conf)
        (some-injective (config_of log yaml doc) b h)
        (unfold config_of in redis_config-RedisFits (yaml.index doc (codes "redis")))

  -- Whatever numbers a file holds, the numbers of the Redis pool that are loaded fit their types,
  -- the timeout 64 bits and the two sizes 32 bits, if those before the load did.
  pub load_yaml-RedisFits :
      (file : Option Text) (a b : AppConfig log)
      → RedisFits a.redis_conf
      → load_yaml log yaml file a ≡ some b
      → RedisFits b.redis_conf
  unfolding load_yaml
  load_yaml-RedisFits none a b f h =
      subst (λ (c : AppConfig log). RedisFits c.redis_conf) (some-injective a b h) f
  load_yaml-RedisFits (some s) a b f h = loaded-RedisFits (yaml.load_from_str s) b h
