-- ===== src/Queue/Broken.antt =====
-- A round of queue.rs that a panic breaks off keeps the task numbers distinct.
use chimes_utils.Base.{ℕ, inl, inr, List, [], ◌∷◌, arith, Bool-cases}
use chimes_utils.Base.Text.{Text}
use chimes_utils.Base.Dict.{Dict}
use chimes_utils.Queue.{
  ProcessTask, ProcessQueue, Pass, touch, update_task_lasttime, is_due, visit, visit_all,
  broken_round,
}
use chimes_utils.Queue.Ids.{IsFresh, IsDistinct}

touch-IsFresh :
    (id k : Text) (now : ℕ) (ts : List ProcessTask) → IsFresh k ts → IsFresh k (touch id now ts)
unfolding touch
touch-IsFresh id k now [] f = tt
touch-IsFresh id k now (t ∷ ts) (ne, f) = ground (arith, touch-IsFresh id k now ts f)

touch-IsDistinct :
    (id : Text) (now : ℕ) (ts : List ProcessTask) → IsDistinct ts → IsDistinct (touch id now ts)
unfolding touch
touch-IsDistinct id now [] d = tt
touch-IsDistinct id now (t ∷ ts) (fresh, d) =
    ground (arith, touch-IsDistinct id now ts d, touch-IsFresh id t.task_id now ts fresh)

module _ {H : Type 0} (registry : Dict H) (now : ℕ) where
  visit-IsDistinct :
      (ct : ProcessTask) (p : Pass H)
      → IsDistinct p.msq.queue
      → IsDistinct (visit registry now ct p).msq.queue
  unfolding visit update_task_lasttime
  visit-IsDistinct ct p d = elim (Bool-cases (is_due now ct)) [
    | inl e ↦ rw (visit, e) (touch-IsDistinct ct.task_id now p.msq.queue d)
    | inr e ↦ rw (visit, e) d
  ]

  visit_all-IsDistinct :
      (cts : List ProcessTask) (p : Pass H)
      → IsDistinct p.msq.queue
      → IsDistinct (visit_all registry now cts p).msq.queue
  unfolding visit_all
  visit_all-IsDistinct [] p d = d
  visit_all-IsDistinct (ct ∷ cts) p d =
      visit_all-IsDistinct cts (visit registry now ct p) (visit-IsDistinct ct p d)

  pub broken_round-IsDistinct :
      (before : List ProcessTask) (ct : ProcessTask) (q : ProcessQueue)
      → IsDistinct q.queue
      → IsDistinct (broken_round registry now before ct q).queue
  unfolding broken_round update_task_lasttime
  broken_round-IsDistinct before ct q d =
      let p : Pass H = record { msq = q; calls = []; should_remove_tasks = [] } in
      touch-IsDistinct ct.task_id now (visit_all registry now before p).msq.queue
        (visit_all-IsDistinct before p d)
