-- ===== src/Queue/Round.antt =====
-- One round of the worker of queue.rs against its specification.
use chimes_utils.Base.{
  ℕ, ◌≡◌, refl, ap, ◌∙◌, inl, inr, List, [], ◌∷◌, ◌++◌, append_assoc, append-nil, if◌then◌else◌,
  arith, Bool-cases,
}
use chimes_utils.Base.Text.{Text, text_eq_refl}
use chimes_utils.Base.Dict.{Dict}
use chimes_utils.Queue.{
  ProcessTask, ProcessQueue, Pass, touch, is_due, process_task, visit, visit_all, round,
}
use chimes_utils.Queue.Ids.{IsFresh, IsDistinct, IsApart, IsApart-move, touch_fresh, touch-append}
use chimes_utils.Queue.Removal.{stamp, stamped, ended, settled, stamp-task_id, remove_all_lem}

touch_at :
    (now : ℕ) (pre : List ProcessTask) (t : ProcessTask) (ts : List ProcessTask)
    → IsFresh t.task_id pre
    → IsFresh t.task_id ts
    → touch t.task_id now (pre ++ t ∷ ts) ≡ (pre ++ record t { last_time = now } ∷ []) ++ ts
touch_at now pre t ts fp ft = rw (touch-append t.task_id now pre (t ∷ ts) fp) (
    unfold touch in
    rw (text_eq_refl t.task_id, touch_fresh t.task_id now ts ft) (simp append_assoc))

module _ {H : Type 0} (registry : Dict H) (now : ℕ) where
  -- The calls of a round: the due tasks that have a handler, in the order of the queue.
  abbrev pub due_calls : List ProcessTask → List (H × ProcessTask)
  due_calls [] = []
  due_calls (t ∷ ts) =
      if is_due now t then process_task registry t ++ due_calls ts else due_calls ts

  -- The queue with its tasks replaced.
  abbrev with_queue : ProcessQueue → List ProcessTask → ProcessQueue
  with_queue q ts = record q { queue = ts }

  visit_head :
      (q : ProcessQueue) (pre : List ProcessTask) (t : ProcessTask) (ts : List ProcessTask)
      (calls : List (H × ProcessTask)) (out : List ProcessTask)
      → IsFresh t.task_id pre
      → IsFresh t.task_id ts
      → visit registry now t
          (record { msq = with_queue q (pre ++ t ∷ ts); calls = calls; should_remove_tasks = out })
        ≡ record {
          msq = with_queue q ((pre ++ stamp now t ∷ []) ++ ts);
          calls = calls ++ due_calls (t ∷ []);
          should_remove_tasks = out ++ ended now (t ∷ []);
        }
  unfolding visit touch
  visit_head q pre t ts calls out fp ft = elim (Bool-cases (is_due now t)) [
    | inl e ↦
        rw (e, visit)
          (rw (touch_at now pre t ts fp ft) (elim (Bool-cases t.cyclicity) [
            | inl c ↦ simp (c, append-nil)
            | inr c ↦ simp (c, append-nil)
          ]))
    | inr e ↦ rw (e, visit) (simp (append_assoc, append-nil))
  ]

  -- The calls, and the tasks to be removed, of a list that is split at its head.
  due_calls-cons :
      (t : ProcessTask) (ts : List ProcessTask)
      → due_calls (t ∷ []) ++ due_calls ts ≡ due_calls (t ∷ ts)
  due_calls-cons t ts = elim (Bool-cases (is_due now t)) [
    | inl e ↦ simp (e, append_assoc)
    | inr e ↦ simp e
  ]

  ended-cons :
      (t : ProcessTask) (ts : List ProcessTask)
      → ended now (t ∷ []) ++ ended now ts ≡ ended now (t ∷ ts)
  ended-cons t ts = ground arith

  visit_all_lem :
      (ts : List ProcessTask) (q : ProcessQueue) (pre : List ProcessTask)
      (calls : List (H × ProcessTask)) (out : List ProcessTask)
      → IsApart pre ts
      → IsDistinct ts
      → visit_all registry now ts
          (record { msq = with_queue q (pre ++ ts); calls = calls; should_remove_tasks = out })
        ≡ record {
          msq = with_queue q (pre ++ stamped now ts);
          calls = calls ++ due_calls ts;
          should_remove_tasks = out ++ ended now ts;
        }
  unfolding visit_all
  visit_all_lem [] q pre calls out a d = simp append-nil
  visit_all_lem (t ∷ ts) q pre calls out (fp, a) (ft, d) =
      rw (visit_head q pre t ts calls out fp ft) (
        visit_all_lem ts q (pre ++ stamp now t ∷ []) (calls ++ due_calls (t ∷ []))
          (out ++ ended now (t ∷ [])) (moved t ts a ft) d
        ∙ regroup)
    where
      regroup :
          ◌≡◌ {A = Pass H}
            (record {
              msq = with_queue q ((pre ++ stamp now t ∷ []) ++ stamped now ts);
              calls = (calls ++ due_calls (t ∷ [])) ++ due_calls ts;
              should_remove_tasks = (out ++ ended now (t ∷ [])) ++ ended now ts;
            })
            (record {
              msq = with_queue q (pre ++ stamped now (t ∷ ts));
              calls = calls ++ due_calls (t ∷ ts);
              should_remove_tasks = out ++ ended now (t ∷ ts);
            })
      regroup = λ i. record {
        msq = with_queue q (append_assoc pre (stamp now t ∷ []) (stamped now ts) i);
        calls =
            (append_assoc calls (due_calls (t ∷ [])) (due_calls ts)
                ∙ ap (λ l. calls ++ l) (due_calls-cons t ts))
              i;
        should_remove_tasks =
            (append_assoc out (ended now (t ∷ [])) (ended now ts)
                ∙ ap (λ l. out ++ l) (ended-cons t ts))
              i;
      }

      moved :
          (t : ProcessTask) (ts : List ProcessTask)
          → IsApart pre ts
          → IsFresh t.task_id ts
          → IsApart (pre ++ stamp now t ∷ []) ts
      moved t ts a ft = IsApart-move pre (stamp now t) ts a (rw (stamp-task_id now t) ft)

IsApart-nil : (ts : List ProcessTask) → IsApart [] ts
IsApart-nil [] = tt
IsApart-nil (t ∷ ts) = (tt, IsApart-nil ts)

-- With distinct task numbers, a round of the worker calls the handlers of exactly the tasks that are
-- due, in the order of the queue, each once; it sets the time of those that repeat, removes those
-- that do not, and leaves every other task and every other part of the queue as it is.
pub round_lem :
    {H : Type 0} (registry : Dict H) (now : ℕ) (q : ProcessQueue)
    → IsDistinct q.queue
    → round registry now q
      ≡ (record q { queue = settled now q.queue }, due_calls registry now q.queue)
unfolding round
round_lem registry now q d =
    rw (visit_all_lem registry now q.queue q [] [] [] (IsApart-nil q.queue) d) (
      ap (λ q'. (q', due_calls registry now q.queue))
        (remove_all_lem now q.queue q [] (IsApart-nil q.queue) d))

settled-IsFresh :
    (now : ℕ) (id : Text) (ts : List ProcessTask) → IsFresh id ts → IsFresh id (settled now ts)
settled-IsFresh now id [] h = tt
settled-IsFresh now id (t ∷ ts) (ne, h) = ground (arith, settled-IsFresh now id ts h)

pub settled-IsDistinct :
    (now : ℕ) (ts : List ProcessTask) → IsDistinct ts → IsDistinct (settled now ts)
settled-IsDistinct now [] h = tt
settled-IsDistinct now (t ∷ ts) (fresh, h) =
    ground (arith, settled-IsDistinct now ts h, settled-IsFresh now t.task_id ts fresh)

-- Nothing that a round leaves is due at the second of the round.
due_calls-settled :
    {H : Type 0} (registry : Dict H) (now : ℕ) (ts : List ProcessTask)
    → (due_calls registry now (settled now ts) ≡ [])
      × (settled now (settled now ts) ≡ settled now ts)
unfolding is_due
due_calls-settled registry now [] = (refl, refl)
due_calls-settled registry now (t ∷ ts) =
    let ih = due_calls-settled registry now ts in ground (arith, ih.0, ih.1)

-- A second round in the same second calls no handler and changes nothing.
pub round-round :
    {H : Type 0} (registry : Dict H) (now : ℕ) (q : ProcessQueue)
    → IsDistinct q.queue
    → round registry now (round registry now q).0 ≡ ((round registry now q).0, [])
round-round registry now q d =
    let (nothing, same) = due_calls-settled registry now q.queue in
    rw (round_lem registry now q d) (
      round_lem registry now (record q { queue = settled now q.queue })
        (settled-IsDistinct now q.queue d)
      ∙ λ i. (record q { queue = same i }, nothing i))
