-- ===== src/Gateway/Schedule.antt =====
-- The tasks that src/utils/gpt_sdk.rs queues, in the rounds of the worker of src/utils/queue.rs.
use chimes_utils.Base.{
  ℕ, ◌+◌, ◌<◌, ◌≤◌, ◌^◌, ◌≡◌, refl, sym, ap, ap₂, ◌∙◌, inl, inr, Bool, true, false, some, List, [],
  ◌∷◌, ◌++◌, append_assoc, ltb, if◌then◌else◌, Bool-cases, arith,
}
use chimes_utils.Base.Text.{Text, codes}
use chimes_utils.Base.Dict
use chimes_utils.Base.Dict.{Dict}
use chimes_utils.Queue.{
  ProcessTask, ProcessQueue, new_with_cookie_fn, queue_add, is_due, process_task,
  queue_registry_handler, round,
}
use chimes_utils.Queue.Ids.{IsFresh, IsDistinct}
use chimes_utils.Queue.Removal.{settled}
use chimes_utils.Queue.Round.{due_calls, round_lem}
use chimes_utils.Queue.History.{append-IsDistinct}
use chimes_utils.Gateway.Health.{ggp_add_health_check_task, ggp_delay_register}

settled-append :
    (now : ℕ) (ts us : List ProcessTask) → settled now (ts ++ us) ≡ settled now ts ++ settled now us
settled-append now [] us = refl
settled-append now (t ∷ ts) us = ground (arith, settled-append now ts us)

is_due-after :
    (now : ℕ) (t : ProcessTask)
    → t.last_time ≤ now
    → now < 2 ^ 64
    → is_due now t ≡ ltb (t.last_time + t.period) now
unfolding is_due
is_due-after now t h fits = ground arith

if-list :
    (b : Bool) (x y : ProcessTask) → (if b then x ∷ [] else y ∷ []) ≡ (if b then x else y) ∷ []
if-list true x y = refl
if-list false x y = refl

module _ {H : Type 0} where
  due_calls-append :
      (registry : Dict H) (now : ℕ) (ts us : List ProcessTask)
      → due_calls registry now (ts ++ us) ≡ due_calls registry now ts ++ due_calls registry now us
  due_calls-append registry now [] us = refl
  due_calls-append registry now (t ∷ ts) us = elim (Bool-cases (is_due now t)) [
    | inl e ↦
        rw (e, due_calls-append registry now ts us)
          (sym (
            append_assoc (process_task registry t) (due_calls registry now ts)
              (due_calls registry now us)))
    | inr e ↦ rw (e, due_calls-append registry now ts us) refl
  ]

  -- A round with one task more: what it does with the others stays the same.
  added_round :
      (registry : Dict H) (now : ℕ) (q : ProcessQueue) (t : ProcessTask)
      → IsDistinct q.queue
      → IsFresh t.task_id q.queue
      → round registry now (queue_add q t) ≡ (
        record (queue_add q t) { queue = settled now q.queue ++ settled now (t ∷ []) },
        due_calls registry now q.queue ++ due_calls registry now (t ∷ []),
      )
  unfolding queue_add
  added_round registry now q t d f =
      round_lem registry now (queue_add q t) (append-IsDistinct t q.queue f d)
      ∙ ap₂ (λ l c. (record (queue_add q t) { queue = l }, c)) (settled-append now q.queue (t ∷ []))
          (due_calls-append registry now q.queue (t ∷ []))

  process_task-registered :
      (registry : Dict H) (execute : H) (t : ProcessTask)
      → process_task (queue_registry_handler registry t.handler_type execute) t ≡ (execute, t) ∷ []
  unfolding process_task queue_registry_handler
  process_task-registered registry execute t =
      rw (process_task, Dict.get-insert_self t.handler_type execute registry) refl

  -- A task that is alone, with its handler registered last.
  due_calls-alone :
      (registry : Dict H) (execute : H) (now : ℕ) (t : ProcessTask)
      → due_calls (queue_registry_handler registry t.handler_type execute) now (t ∷ [])
        ≡ (if is_due now t then (execute, t) ∷ [] else [])
  due_calls-alone registry execute now t = elim (Bool-cases (is_due now t)) [
    | inl e ↦ rw (e, process_task-registered registry execute t) refl
    | inr e ↦ rw e refl
  ]

  -- A fresh task is queued with its handler, and then a round follows.
  queued_round :
      (registry : Dict H) (execute : H) (q : ProcessQueue) (now : ℕ) (t : ProcessTask)
      → IsDistinct q.queue
      → IsFresh t.task_id q.queue
      → t.last_time ≤ now
      → now < 2 ^ 64
      → let handlers = queue_registry_handler registry t.handler_type execute in
        let is_over = ltb (t.last_time + t.period) now in
        let r = round handlers now (queue_add q t) in
        let stays = if t.cyclicity then record t { last_time = now } ∷ [] else [] in
        (r.1 ≡ due_calls handlers now q.queue ++ (if is_over then (execute, t) ∷ [] else []))
        × (r.0.queue ≡ settled now q.queue ++ (if is_over then stays else t ∷ []))
  queued_round registry execute q now t d f h fits =
      let handlers = queue_registry_handler registry t.handler_type execute in
      let e = is_due-after now t h fits in
      rw (added_round handlers now q t d f, due_calls-alone registry execute now t, e) (refl, refl)

  -- Let a task be queued under a fresh number at `queued` in a queue of distinct numbers, and let the
  -- next round be at `now`, which is not before. If more than ten seconds have gone by, the round calls
  -- the handler of the registration once, behind the calls that are due anyway, and the task is gone;
  -- else it makes no further call, and the task waits. For the health check it is likewise after more
  -- than sixty seconds, but the task stays, with the time of the round. The rest of the queue is what a
  -- round leaves of it.
  pub tasks-round :
      (app_id app_secret task_id : Text) (execute : H) (registry : Dict H) (q : ProcessQueue)
      (queued now : ℕ)
      → IsDistinct q.queue
      → IsFresh task_id q.queue
      → queued ≤ now
      → now < 2 ^ 64
      → let s =
          ggp_delay_register (some app_id) (some app_secret) execute task_id queued (registry, q) in
        let t =
          new_with_cookie_fn
            (codes "register")
            false
            10
            (codes "execute_register")
            task_id
            queued in
        let r = round s.0 now s.1 in
        let u =
          ggp_add_health_check_task
            (some app_id)
            (some app_secret)
            execute
            task_id
            queued
            (registry, q) in
        let c =
          new_with_cookie_fn
            (codes "health_check")
            true
            60
            (codes "execute_healthcheck")
            task_id
            queued in
        let k = round u.0 now u.1 in
        (r.1
          ≡ due_calls s.0 now q.queue ++ (if ltb (queued + 10) now then (execute, t) ∷ [] else []))
        × (r.0.queue ≡ settled now q.queue ++ (if ltb (queued + 10) now then [] else t ∷ []))
        × (k.1
            ≡ due_calls u.0 now q.queue
              ++ (if ltb (queued + 60) now then (execute, c) ∷ [] else []))
        × (k.0.queue
            ≡ settled now q.queue
              ++ (if ltb (queued + 60) now then record c { last_time = now } else c) ∷ [])
  unfolding ggp_delay_register ggp_add_health_check_task new_with_cookie_fn
  tasks-round app_id app_secret task_id execute registry q queued now d f h fits =
      let t =
        new_with_cookie_fn (codes "register") false 10 (codes "execute_register") task_id queued in
      let c =
        new_with_cookie_fn (codes "health_check") true 60 (codes "execute_healthcheck") task_id
          queued in
      let (calls_1, queue_1) = queued_round registry execute q now t d f h fits in
      let (calls_2, queue_2) = queued_round registry execute q now c d f h fits in
      (
        calls_1,
        queue_1,
        calls_2,
        queue_2
            ∙ ap (λ l. settled now q.queue ++ l)
                (if-list (ltb (queued + 60) now) (record c { last_time = now }) c),
      )
