-- ===== src/Queue/Ids.antt =====
-- Task numbers: what a method that searches by number does where the numbers differ.
use chimes_utils.Base.{
  ℕ, ◌≡◌, ◌≢◌, refl, sym, inl, inr, false, List, [], ◌∷◌, ◌++◌, All, All-append, Bool-cases,
}
use chimes_utils.Base.Text.{Text, text_eq, text_eq_iff}
use chimes_utils.Queue.{ProcessTask, remove_first, touch}

-- No task of the list has the number.
abbrev pub IsFresh : Text → List ProcessTask → Type 0
IsFresh id = All (λ t. id ≢ t.task_id)

abbrev pub IsDistinct : List ProcessTask → Type 0
IsDistinct [] = Unit
IsDistinct (t ∷ ts) = IsFresh t.task_id ts × IsDistinct ts

pub ne_test : (a b : Text) → a ≢ b → text_eq a b ≡ false
ne_test a b h = elim (Bool-cases (text_eq a b)) [
  | inl e ↦ absurd (h ((text_eq_iff a b).0 e))
  | inr e ↦ e
]

module _ (id : Text) where
  pub touch_fresh : (nsec : ℕ) (ts : List ProcessTask) → IsFresh id ts → touch id nsec ts ≡ ts
  unfolding touch
  touch_fresh nsec [] h = refl
  touch_fresh nsec (t ∷ ts) (ne, h) = rw (ne_test id t.task_id ne, touch_fresh nsec ts h)

  pub touch-append :
      (nsec : ℕ) (pre ts : List ProcessTask)
      → IsFresh id pre
      → touch id nsec (pre ++ ts) ≡ pre ++ touch id nsec ts
  unfolding touch
  touch-append nsec [] ts h = refl
  touch-append nsec (t ∷ pre) ts (ne, h) = rw (ne_test id t.task_id ne, touch-append nsec pre ts h)

  pub remove_first-append :
      (pre ts : List ProcessTask)
      → IsFresh id pre
      → remove_first id (pre ++ ts) ≡ pre ++ remove_first id ts
  unfolding remove_first
  remove_first-append [] ts h = refl
  remove_first-append (t ∷ pre) ts (ne, h) =
      rw (ne_test id t.task_id ne, remove_first-append pre ts h)

-- Every task of the second list has a number that the first does not hold.
abbrev pub IsApart : List ProcessTask → List ProcessTask → Type 0
IsApart pre ts = All (λ t. IsFresh t.task_id pre) ts

-- The first task of the second list may move to the end of the first, its number kept.
pub IsApart-move :
    (pre : List ProcessTask) (t : ProcessTask) (ts : List ProcessTask)
    → IsApart pre ts
    → IsFresh t.task_id ts
    → IsApart (pre ++ t ∷ []) ts
IsApart-move pre t [] h f = tt
IsApart-move pre t (u ∷ ts) (a, h) (ne, f) = (
  All-append (λ v. u.task_id ≢ v.task_id) pre (t ∷ []) a ((λ e. ne (sym e)), tt),
  IsApart-move pre t ts h f,
)
