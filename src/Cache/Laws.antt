-- ===== src/Cache/Laws.antt =====
-- What a caller sees of `APP_DATA`: the resizing, an insertion followed by a lookup, and the lookup
-- of an entry whose time is over.
use chimes_utils.Base.{
  ℕ, ◌+◌, ◌≤◌, ◌<◌, ◌^◌, ◌≡◌, refl, inl, inr, false, ◌&&◌, none, some, List, [], ◌∷◌, if◌then◌else◌,
  length, ltb, arith, Bool-cases,
}
use chimes_utils.Base.Text.{Text}
use chimes_utils.Base.Dict
use chimes_utils.Base.Dict.{Dict, get-insert, get-insert_self}
use chimes_utils.Cache.{
  ValuePaire, AppData, done, blocked, is_due, due_keys, remove_keys, global_app_data_remove,
  global_app_data_resizing, global_app_data_insert_with_expire, is_stale, global_app_data_get,
}
use chimes_utils.Cache.Entries.{
  IsKeyed, without, listed, due, get-without, listed-due_keys, without-IsKeyed, insert-IsKeyed,
}

-- The state between two calls.
abbrev pub free : Dict ValuePaire → AppData
free m = record { locked = false; entries = m }

remove_keys-free :
    (ks : List Text) (m : Dict ValuePaire) → remove_keys ks (free m) ≡ done (free (without ks m))
unfolding remove_keys without global_app_data_remove
remove_keys-free [] m = refl
remove_keys-free (k ∷ ks) m = remove_keys-free ks (Dict.remove k m)

-- The map that a resizing at time `t` leaves.
unfoldable pub resized : ℕ → Dict ValuePaire → Dict ValuePaire
resized t m = without (if ltb 10 (length m) then due_keys t m else []) m

pub resizing-free :
    (t : ℕ) (m : Dict ValuePaire) → global_app_data_resizing t (free m) ≡ done (free (resized t m))
unfolding global_app_data_resizing resized
resizing-free t m = remove_keys-free _ m

pub get-resized :
    (t : ℕ) (j : Text) (m : Dict ValuePaire)
    → IsKeyed m
    → Dict.get j (resized t m)
      ≡ (if ltb 10 (length m) && due t (Dict.get j m) then none else Dict.get j m)
unfolding resized listed
get-resized t j m h = elim (Bool-cases (ltb 10 (length m))) [
  | inl e ↦ rw (e, get-without (due_keys t m) j m, listed-due_keys t j m h)
  | inr e ↦ rw (e, get-without [] j m)
]

-- A resizing comes back with the mutex free. With more than ten entries it takes away exactly the
-- entries that are due at the time that it reads; with ten or fewer it changes nothing. The map stays
-- well formed.
pub resizing_lem :
    (t : ℕ) (m : Dict ValuePaire)
    → IsKeyed m
    → (m' : Dict ValuePaire) × (global_app_data_resizing t (free m) ≡ done (free m'))
      × IsKeyed m'
      × ((j : Text)
          → Dict.get j m'
            ≡ (if ltb 10 (length m) && due t (Dict.get j m) then none else Dict.get j m))
unfolding resized
resizing_lem t m h =
    (resized t m, resizing-free t m, without-IsKeyed _ m h, λ j. get-resized t j m h)

-- A lookup comes back, with the mutex free and the map unchanged, exactly if the entry is not stale:
-- it gives the value, or nothing if there is no entry.
pub get-free :
    (key : Text) (tm : ℕ) (m : Dict ValuePaire)
    → global_app_data_get key tm (free m) ≡ elim (Dict.get key m) [
      | none ↦ done (none, free m)
      | some v ↦ if is_stale tm v then blocked else done (some v.value, free m)
    ]
unfolding global_app_data_get global_app_data_remove
get-free key tm m = ground arith

-- The lookup of an entry whose time is over never comes back: it locks the mutex that it holds.
pub get_stale :
    (key : Text) (tm : ℕ) (m : Dict ValuePaire) (v : ValuePaire)
    → Dict.get key m ≡ some v
    → 0 < v.expired
    → v.timestamp + v.expired < tm
    → tm < 2 ^ 64
    → global_app_data_get key tm (free m) ≡ blocked
unfolding is_stale
get_stale key tm m v e positive over fits = ground (arith, get-free key tm m)

module _ (key val : Text) (exp now t : ℕ) (m : Dict ValuePaire) (h : IsKeyed m) where
  abbrev pub fresh : ValuePaire
  fresh = record { value = val; key = key; timestamp = now; expired = exp }

  abbrev pub inserted : Dict ValuePaire
  inserted = Dict.insert key fresh m

  insert-free :
      global_app_data_insert_with_expire key val exp now t (free m)
      ≡ done (free (resized t inserted))
  unfolding global_app_data_insert_with_expire
  insert-free = resizing-free t inserted

  inserted-IsKeyed : IsKeyed inserted
  inserted-IsKeyed = insert-IsKeyed key fresh m refl h

  get-inserted :
      Dict.get key (resized t inserted)
      ≡ (if ltb 10 (length inserted) && due t (some fresh) then none else some fresh)
  get-inserted = rw (get-resized t key inserted inserted-IsKeyed, get-insert_self key fresh m)

  -- An inserted value is found until its time is over: an insertion comes back, and a lookup not
  -- later than `now + exp` returns the value, if the resizing after the insertion read the clock
  -- before that time, and the time fits 64 bits.
  pub get-insert_live :
      (tm : ℕ)
      → t < now + exp
      → tm ≤ now + exp
      → now + exp < 2 ^ 64
      → (m' : Dict ValuePaire) × (global_app_data_insert_with_expire key val exp now t (free m)
          ≡ done (free m'))
        × IsKeyed m'
        × (global_app_data_get key tm (free m') ≡ done (some val, free m'))
  unfolding is_due is_stale resized
  get-insert_live tm before within fits = (
    resized t inserted,
    insert-free,
    without-IsKeyed _ inserted inserted-IsKeyed,
    ground (arith, get-free key tm (resized t inserted), get-inserted),
  )

  -- A value inserted with a time to live of 0, which the lookup takes for no end, is gone at once if
  -- the map then holds more than ten entries and the clock does not run backwards.
  pub get-insert_zero :
      exp ≡ 0
      → now ≤ t
      → now < 2 ^ 64
      → 10 < length inserted
      → (m' : Dict ValuePaire) × (global_app_data_insert_with_expire key val exp now t (free m)
          ≡ done (free m'))
        × ((tm : ℕ) → global_app_data_get key tm (free m') ≡ done (none, free m'))
  unfolding is_due
  get-insert_zero zero_exp forward fits many = (
    resized t inserted,
    insert-free,
    λ tm. ground (arith, get-free key tm (resized t inserted), get-inserted),
  )
