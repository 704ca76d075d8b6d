-- ===== src/Queue/Removal.antt =====
-- The end of a round of the worker of queue.rs: the removal of the tasks that do not repeat.
use chimes_utils.Base.{
  ℕ, ◌≡◌, refl, sym, ap, ◌∙◌, inl, inr, true, false, List, [], ◌∷◌, ◌++◌, append_assoc,
  if◌then◌else◌, arith, Bool-cases,
}
use chimes_utils.Base.Text.{text_eq_refl}
use chimes_utils.Queue.{ProcessTask, ProcessQueue, remove_first, is_due, remove_all}
use chimes_utils.Queue.Ids.{IsFresh, IsDistinct, IsApart, IsApart-move, remove_first-append}

module _ (now : ℕ) where
  -- A task after it has been visited.
  abbrev pub stamp : ProcessTask → ProcessTask
  stamp t = if is_due now t then record t { last_time = now } else t

  abbrev pub stamped : List ProcessTask → List ProcessTask
  stamped [] = []
  stamped (t ∷ ts) = stamp t ∷ stamped ts

  -- The tasks of a round that are removed: those that are due and do not repeat.
  abbrev pub ended : List ProcessTask → List ProcessTask
  ended [] = []
  ended (t ∷ ts) =
      if is_due now t then (if t.cyclicity then ended ts else t ∷ ended ts) else ended ts

  -- The queue after a round: a task that is not due stays as it is, one that is due and repeats
  -- stays with its time set, and one that is due and does not repeat goes.
  abbrev pub settled : List ProcessTask → List ProcessTask
  settled [] = []
  settled (t ∷ ts) =
      if is_due now t
      then (if t.cyclicity then record t { last_time = now } ∷ settled ts else settled ts)
      else t ∷ settled ts

  pub stamp-task_id : (t : ProcessTask) → (stamp t).task_id ≡ t.task_id
  stamp-task_id t = ground arith

module _ (now : ℕ) where
  remove_stamped :
      (pre : List ProcessTask) (t : ProcessTask) (ts : List ProcessTask)
      → IsFresh t.task_id pre
      → remove_first t.task_id (pre ++ stamp now t ∷ ts) ≡ pre ++ ts
  remove_stamped pre t ts fp =
      rw (remove_first-append t.task_id pre (stamp now t ∷ ts) fp)
        (unfold remove_first in rw (stamp-task_id now t, text_eq_refl t.task_id))

  module _ (t : ProcessTask) (ts : List ProcessTask) (e : is_due now t ≡ true)
      (c : t.cyclicity ≡ false) where
    ends : ended now (t ∷ ts) ≡ t ∷ ended now ts
    ends = simp (e, c)

    goes : settled now (t ∷ ts) ≡ settled now ts
    goes = simp (e, c)

  repeats :
      (t : ProcessTask) (ts : List ProcessTask)
      → is_due now t ≡ true
      → t.cyclicity ≡ true
      → (ended now (t ∷ ts) ≡ ended now ts)
        × (stamp now t ≡ record t { last_time = now })
        × (settled now (t ∷ ts) ≡ record t { last_time = now } ∷ settled now ts)
  repeats t ts e c = (simp (e, c), simp e, simp (e, c))

  pub remove_all_lem :
      (ts : List ProcessTask) (q : ProcessQueue) (pre : List ProcessTask)
      → IsApart pre ts
      → IsDistinct ts
      → remove_all (ended now ts) (record q { queue = pre ++ stamped now ts })
        ≡ record q { queue = pre ++ settled now ts }
  unfolding remove_all
  remove_all_lem [] q pre a d = refl
  remove_all_lem (t ∷ ts) q pre (fp, a) (ft, d) = elim (Bool-cases (is_due now t)) [
    | inl e ↦ elim (Bool-cases t.cyclicity) [
      | inl c ↦
          ap (λ l. remove_all l (record q { queue = pre ++ stamped now (t ∷ ts) }))
            (repeats t ts e c).0
          ∙ ap (λ u. remove_all (ended now ts) (record q { queue = pre ++ u ∷ stamped now ts }))
              (repeats t ts e c).1
          ∙ (simp append_assoc at (
              remove_all_lem ts q (pre ++ record t { last_time = now } ∷ [])
                (IsApart-move pre (record t { last_time = now }) ts a ft) d))
          ∙ ap (λ l. record q { queue = pre ++ l }) (sym (repeats t ts e c).2)
      | inr c ↦
          ap (λ l. remove_all l (record q { queue = pre ++ stamped now (t ∷ ts) })) (ends t ts e c)
          ∙ ap (λ l. remove_all (ended now ts) (record q { queue = l }))
              (remove_stamped pre t (stamped now ts) fp)
          ∙ remove_all_lem ts q pre a d
          ∙ ap (λ l. record q { queue = pre ++ l }) (sym (goes t ts e c))
    ]
    | inr e ↦
        simp e (
          simp append_assoc at (remove_all_lem ts q (pre ++ t ∷ []) (IsApart-move pre t ts a ft) d))
  ]
