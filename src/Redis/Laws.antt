-- ===== src/Redis/Laws.antt =====
-- The functions on keys of src/utils/redis_client.rs against a server that keeps a dictionary, and
-- what is left of a pool that could not be built.
use chimes_utils.Base.{
  ℕ, ◌≡◌, refl, ◌∙◌, Option, none, some, [], ◌∷◌, if◌then◌else◌, Bool-cases, inl, inr,
}
use chimes_utils.Base.Text.{Text, codes, text_eq}
use chimes_utils.Base.Int.{pos}
use chimes_utils.Base.Answer.{ok, err}
use chimes_utils.Errors.{error_custom}
use chimes_utils.Redis.{RedisCrate, RedisConnection, req_command, query}
use chimes_utils.Redis.Pool.{
  PoolCrate, Result, get_redis_connection, coded, on_connection, on_pool, redis_get, redis_set,
  redis_del,
}

-- A server that is reached through the pool `c` and keeps a dictionary, of which `look` reads a
-- key. It answers GET with the text or with nil, SET with OK, and DEL with a number; texts and OK
-- are read as a String, nil and numbers are not.
pub record IsStore (redis : RedisCrate) (r2d2 : PoolCrate redis) (c : r2d2.Pool) : Type 0 where
  pub look : redis.S → Text → Option Text
  pub put : Text → Text → redis.S → redis.S
  pub cut : Text → redis.S → redis.S
  pub conn : RedisConnection redis
  pub text : Text → redis.Value
  pub okay : redis.Value
  pub nil : redis.Value
  pub int : ℕ → redis.Value
  pub no_string : redis.Value → redis.RedisError
  pub get_ok : (w : redis.S) → r2d2.get c w ≡ (w, ok conn)
  pub string_text : (t : Text) → redis.string_of (text t) ≡ ok t
  pub string_okay : redis.string_of okay ≡ ok (codes "OK")
  pub string_nil : redis.string_of nil ≡ err (no_string nil)
  pub string_int : (n : ℕ) → redis.string_of (int n) ≡ err (no_string (int n))
  pub get_some :
      (k v : Text) (w : redis.S)
      → look w k ≡ some v
      → req_command redis conn (codes "GET" ∷ k ∷ []) w ≡ (w, ok (text v))
  pub get_none :
      (k : Text) (w : redis.S)
      → look w k ≡ none
      → req_command redis conn (codes "GET" ∷ k ∷ []) w ≡ (w, ok nil)
  pub set_reply :
      (k v : Text) (w : redis.S)
      → req_command redis conn (codes "SET" ∷ k ∷ v ∷ []) w ≡ (put k v w, ok okay)
  pub del_reply :
      (k : Text) (w : redis.S)
      → (n : ℕ) × (req_command redis conn (codes "DEL" ∷ k ∷ []) w ≡ (cut k w, ok (int n)))
  pub look_put :
      (k v j : Text) (w : redis.S) → look (put k v w) j ≡ (if text_eq k j then some v else look w j)
  pub look_cut :
      (k j : Text) (w : redis.S) → look (cut k w) j ≡ (if text_eq k j then none else look w j)

-- What `redis_get` answers where the server has this under the key.
abbrev pub told :
    (redis : RedisCrate) (r2d2 : PoolCrate redis) (c : r2d2.Pool)
    → IsStore redis r2d2 c
    → (Io E : Type 0) → Option Text
    → Result redis r2d2 Io E (Option Text)
told redis r2d2 c s Io E none = err (error_custom (pos 10070) (redis.to_string (s.no_string s.nil)))
told redis r2d2 c s Io E (some v) = ok (some v)

module _ (redis : RedisCrate) (r2d2 : PoolCrate redis) (Io E : Type 0) (c : r2d2.Pool)
    (s : IsStore redis r2d2 c) where
  get_told :
      (k : Text) (w : redis.S) (o : Option Text)
      → s.look w k ≡ o
      → redis_get redis r2d2 Io E (some (some c)) k w ≡ (w, told redis r2d2 c s Io E o)
  unfolding redis_get get_redis_connection on_pool on_connection coded query
  get_told k w none h = rw (redis_get, s.get_ok w, s.get_none k w h, s.string_nil)
  get_told k w (some v) h = rw (redis_get, s.get_ok w, s.get_some k v w h, s.string_text v)

  set_told :
      (k v : Text) (w : redis.S)
      → redis_set redis r2d2 Io E (some (some c)) k v w ≡ (s.put k v w, ok (some (codes "OK")))
  unfolding redis_set get_redis_connection on_pool on_connection coded query
  set_told k v w = rw (redis_set, s.get_ok w, s.set_reply k v w, s.string_okay)

  -- Let the pool `c` reach a server that keeps a dictionary. Setting a key answers OK; then a
  -- lookup of this key finds the value, and a lookup of any other key answers what it answered
  -- before.
  pub redis_get-redis_set :
      (k v : Text) (w : redis.S)
      → let w2 = (redis_set redis r2d2 Io E (some (some c)) k v w).0 in
        ((redis_set redis r2d2 Io E (some (some c)) k v w).1 ≡ ok (some (codes "OK")))
        × ((j : Text)
            → (redis_get redis r2d2 Io E (some (some c)) j w2).1 ≡ (
                if text_eq k j
                then ok (some v)
                else (redis_get redis r2d2 Io E (some (some c)) j w).1))
  redis_get-redis_set k v w = rw (set_told k v w) (
    refl,
    λ j. elim (Bool-cases (text_eq k j)) [
      | inl e ↦ rw (get_told j (s.put k v w) (some v) (s.look_put k v j w ∙ rw e refl), e) refl
      | inr e ↦
          rw
            (
              get_told j (s.put k v w) (s.look w j) (s.look_put k v j w ∙ rw e refl),
              get_told j w (s.look w j) refl,
              e,
            )
            refl
    ],
  )

  del_told :
      (k : Text) (w : redis.S)
      → (n : ℕ) × (redis_del redis r2d2 Io E (some (some c)) k w
          ≡ (s.cut k w, err (error_custom (pos 10077) (redis.to_string (s.no_string (s.int n))))))
  unfolding redis_del get_redis_connection on_pool on_connection coded query
  del_told k w = let d = s.del_reply k w in (d.0, rw (redis_del, s.get_ok w, d.1, s.string_int d.0))

  -- Let the pool `c` reach a server that keeps a dictionary. Deleting a key answers an error with
  -- the code 10077, whether the key was there or not, since the number in the server's answer is
  -- no String. Still the key is gone: its lookup answers an error with the code 10070, where other
  -- keys answer as before.
  pub redis_get-redis_del :
      (k : Text) (w : redis.S)
      → let w2 = (redis_del redis r2d2 Io E (some (some c)) k w).0 in
        ((m : Text) × ((redis_del redis r2d2 Io E (some (some c)) k w).1
            ≡ err (error_custom (pos 10077) m)))
        × ((j : Text)
            → (redis_get redis r2d2 Io E (some (some c)) j w2).1 ≡ (
                if text_eq k j
                then err (error_custom (pos 10070) (redis.to_string (s.no_string s.nil)))
                else (redis_get redis r2d2 Io E (some (some c)) j w).1))
  redis_get-redis_del k w =
      let d = del_told k w in
      rw d.1 (
        (redis.to_string (s.no_string (s.int d.0)), refl),
        λ j. elim (Bool-cases (text_eq k j)) [
          | inl e ↦ rw (get_told j (s.cut k w) none (s.look_cut k j w ∙ rw e refl), e) refl
          | inr e ↦
              rw
                (
                  get_told j (s.cut k w) (s.look w j) (s.look_cut k j w ∙ rw e refl),
                  get_told j w (s.look w j) refl,
                  e,
                )
                refl
        ],
      )
