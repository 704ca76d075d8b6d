-- ===== src/Cache/Entries.antt =====
-- The map that the cache guards: what the resizing loop collects and removes.
use chimes_utils.Base.{
  ℕ, ◌+◌, ◌≡◌, leb, wrap64, refl, inl, inr, Bool, false, ◌||◌, Option, none, some, List, [], ◌∷◌,
  if◌then◌else◌, arith, Bool-cases,
}
use chimes_utils.Base.Text.{Text, text_eq, text_eq_iff}
use chimes_utils.Base.Dict
use chimes_utils.Base.Dict.{Dict, get-remove, get-insert}
use chimes_utils.Cache.{ValuePaire, is_due, due_keys}

-- Every entry stands once, under the key that it holds.
abbrev pub IsKeyed : Dict ValuePaire → Type 0
IsKeyed [] = Unit
IsKeyed ((k, v) ∷ m) = (v.key ≡ k) × (Dict.get k m ≡ none) × IsKeyed m

unfoldable pub listed : Text → List Text → Bool
listed j [] = false
listed j (k ∷ ks) = text_eq k j || listed j ks

unfoldable pub without : List Text → Dict ValuePaire → Dict ValuePaire
without [] m = m
without (k ∷ ks) m = without ks (Dict.remove k m)

pub get-without :
    (ks : List Text) (j : Text) (m : Dict ValuePaire)
    → Dict.get j (without ks m) ≡ (if listed j ks then none else Dict.get j m)
unfolding without listed
get-without [] j m = refl
get-without (k ∷ ks) j m = ground (arith, get-without ks j (Dict.remove k m), get-remove k j m)

-- The time of the entry is over, in 64 bits, at `t` or before.
abbrev pub due : ℕ → Option ValuePaire → Bool
due t none = false
due t (some v) = leb (wrap64 (v.timestamp + v.expired)) t

-- The loop collects a key exactly if the entry under it is due.
pub listed-due_keys :
    (t : ℕ) (j : Text) (m : Dict ValuePaire)
    → IsKeyed m
    → listed j (due_keys t m) ≡ due t (Dict.get j m)
unfolding due_keys is_due listed Dict.get
listed-due_keys t j [] h = refl
listed-due_keys t j ((k, v) ∷ m) (same, fresh, h) =
    ground (arith, listed-due_keys t j m h, text_eq_iff k j, text_eq_iff v.key j)

pub remove-IsKeyed : (k : Text) (m : Dict ValuePaire) → IsKeyed m → IsKeyed (Dict.remove k m)
unfolding Dict.remove
remove-IsKeyed k [] h = tt
remove-IsKeyed k ((j, v) ∷ m) (same, fresh, h) =
    ground (arith, remove-IsKeyed k m h, get-remove k j m)

pub without-IsKeyed : (ks : List Text) (m : Dict ValuePaire) → IsKeyed m → IsKeyed (without ks m)
unfolding without
without-IsKeyed [] m h = h
without-IsKeyed (k ∷ ks) m h = without-IsKeyed ks (Dict.remove k m) (remove-IsKeyed k m h)

pub insert-IsKeyed :
    (k : Text) (v : ValuePaire) (m : Dict ValuePaire)
    → v.key ≡ k
    → IsKeyed m
    → IsKeyed (Dict.insert k v m)
unfolding Dict.insert
insert-IsKeyed k v [] e h = (e, unfold Dict.get in refl, tt)
insert-IsKeyed k v ((j, w) ∷ m) e (same, fresh, h) = elim (Bool-cases (text_eq j k)) [
  | inl q ↦ rw q (e, rw (← ((text_eq_iff j k).0 q)) fresh, h)
  | inr q ↦ rw q (
    same,
    ground (arith, get-insert k j v m, text_eq_iff j k, text_eq_iff k j),
    insert-IsKeyed k v m e h,
  )
]
