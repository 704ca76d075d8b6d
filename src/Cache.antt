-- ===== src/Cache.antt =====
-- The process-wide cache of src/utils/global_data.rs: `APP_DATA`, a map from keys to values with a
-- time to live, behind one `std::sync::Mutex`. A reading of the clock is an argument of the call that
-- makes it. A thread that locks the mutex while it holds it never comes back: that is `blocked`.
pub mod Entries
pub mod Laws
mod Tests
use chimes_utils.Base.{
  ℕ, ◌+◌, ◌*◌, Bool, true, false, ◌&&◌, Option, none, some, List, [], ◌∷◌, length, ltb, leb, wrap64,
  if◌then◌else◌,
}
use chimes_utils.Base.Text.{Text}
use chimes_utils.Base.Dict
use chimes_utils.Base.Dict.{Dict}

pub record ValuePaire : Type 0 where
  pub value : Text
  pub key : Text
  pub timestamp : ℕ
  pub expired : ℕ

-- The mutex and what it guards.
pub record AppData : Type 0 where
  pub locked : Bool
  pub entries : Dict ValuePaire

pub data Outcome {ℓ} (A : Type ℓ) : Type ℓ where
  done : A → Outcome A
  blocked : Outcome A

infixl 5 ◌>>=◌
abbrev pub ◌>>=◌ {ℓ κ} : {A : Type ℓ} {B : Type κ} → Outcome A → (A → Outcome B) → Outcome B
done a >>= f = f a
blocked >>= f = blocked

unfoldable pub lock : AppData → Outcome AppData
lock s = if s.locked then blocked else done (record s { locked = true })

unfoldable pub unlock : AppData → AppData
unlock s = record s { locked = false }

unfoldable pub global_app_data_remove : Text → AppData → Outcome AppData
unfolding lock unlock
global_app_data_remove key s = do
  dts ← lock s
  done (unlock (record dts { entries = Dict.remove key dts.entries }))

-- The test of the resizing loop.
unfoldable pub is_due : ℕ → ValuePaire → Bool
is_due t f = leb (wrap64 (f.timestamp + f.expired)) t

-- The keys that the loop collects.
unfoldable pub due_keys : ℕ → Dict ValuePaire → List Text
due_keys t [] = []
due_keys t ((k, f) ∷ values) =
    let rest = due_keys t values in if is_due t f then f.key ∷ rest else rest

unfoldable pub remove_keys : List Text → AppData → Outcome AppData
remove_keys [] s = done s
remove_keys (key ∷ keys) s = global_app_data_remove key s >>= remove_keys keys

unfoldable pub global_app_data_resizing : ℕ → AppData → Outcome AppData
unfolding lock unlock due_keys remove_keys
global_app_data_resizing t s = do
  dts ← lock s
  let keys = if ltb 10 (length dts.entries) then due_keys t dts.entries else []
  remove_keys keys (unlock dts)

-- `now` is read before the insertion, `t` by the resizing after it.
unfoldable pub global_app_data_insert_with_expire :
    Text → Text → ℕ → ℕ → ℕ → AppData → Outcome AppData
unfolding lock unlock
global_app_data_insert_with_expire key val exp now t s = do
  let value : ValuePaire = record { value = val; key = key; timestamp = now; expired = exp }
  dts ← lock s
  global_app_data_resizing t (unlock (record dts { entries = Dict.insert key value dts.entries }))

unfoldable pub global_app_data_insert : Text → Text → ℕ → ℕ → AppData → Outcome AppData
global_app_data_insert key val now t s =
    global_app_data_insert_with_expire key val (1000 * 60) now t s

-- The test of the lookup: a time to live of 0 never ends here.
unfoldable pub is_stale : ℕ → ValuePaire → Bool
is_stale tm mpt = ltb 0 mpt.expired && ltb (wrap64 (mpt.timestamp + mpt.expired)) tm

-- The guard `dt` is held until the function returns, also across the call of the removal.
unfoldable pub found : Text → ℕ → Option ValuePaire → AppData → Outcome (Option Text × AppData)
found key tm none dt = done (none, unlock dt)
found key tm (some mpt) dt =
    if is_stale tm mpt
    then (do dt' ← global_app_data_remove key dt; done (none, unlock dt'))
    else done (some mpt.value, unlock dt)

unfoldable pub global_app_data_get : Text → ℕ → AppData → Outcome (Option Text × AppData)
unfolding lock unlock found
global_app_data_get key tm s = do dt ← lock s; found key tm (Dict.get key dt.entries) dt
