-- ===== src/Queue/History.antt =====
-- Histories of the task queue of queue.rs: calls from other threads and rounds of its workers, in any
-- order. A worker tests `started` before each round and ends when it finds it false, or a handler that
-- it calls panics.
use chimes_utils.Base.{
  ℕ, ◌+◌, ◌-◌, ◌<◌, ◌≡◌, ◌≢◌, refl, sym, ap, subst, ◌∙◌, inl, inr, Bool, true, false, List, [], ◌∷◌,
  ◌++◌, All-append, arith, Bool-cases,
}
use chimes_utils.Base.Text.{Text}
use chimes_utils.Base.Dict.{Dict}
use chimes_utils.Queue.{
  ProcessTask, ProcessQueue, new, remove_first, queue_add, queue_remove, Launch, launched, panicked,
  not_needed, start, shutdown, notify, is_due, process_task, round, broken_round,
}
use chimes_utils.Queue.Ids.{IsFresh, IsDistinct}
use chimes_utils.Queue.Broken.{broken_round-IsDistinct}
use chimes_utils.Queue.Round.{round_lem, settled-IsDistinct}

-- The queue, how many workers run, and how many panicked or could not be started for a panic.
pub record Server : Type 0 where
  pub msq : ProcessQueue
  pub workers : ℕ
  pub panics : ℕ

abbrev pub after_launch : Launch → Server → Server
after_launch launched s = record s { workers = s.workers + 1 }
after_launch panicked s = record s { panics = s.panics + 1 }
after_launch not_needed s = s

abbrev pub spawned : Bool → Server → Server
spawned built s = after_launch (start built s.msq).1 (record s { msq = (start built s.msq).0 })

module _ {H : Type 0} (registry : Dict H) where
  -- A new task has a number that no task of the queue has.
  pub data Step (s : Server) (s' : Server) : Type 0 where
    adds :
        (t : ProcessTask)
        → IsFresh t.task_id s.msq.queue
        → s' ≡ record s { msq = queue_add s.msq t }
        → Step s s'
    removes : (t : ProcessTask) → s' ≡ record s { msq = queue_remove s.msq t } → Step s s'
    starts : (built : Bool) → s' ≡ spawned built s → Step s s'
    shuts : s' ≡ record s { msq = shutdown s.msq } → Step s s'
    notifies : s' ≡ record s { msq = notify s.msq } → Step s s'
    passes :
        (now : ℕ)
        → 0 < s.workers
        → s.msq.started ≡ true
        → s' ≡ record s { msq = (round registry now s.msq).0 }
        → Step s s'
    -- A handler of a due task panics, with any tasks before it.
    dies :
        (now : ℕ) (before : List ProcessTask) (ct : ProcessTask) (rest : List ProcessTask)
        → 0 < s.workers
        → s.msq.started ≡ true
        → s.msq.queue ≡ before ++ ct ∷ rest
        → is_due now ct ≡ true
        → process_task registry ct ≢ []
        → s' ≡ record s {
          msq = broken_round registry now before ct s.msq;
          workers = s.workers - 1;
          panics = s.panics + 1;
        }
        → Step s s'
    ends :
        0 < s.workers
        → s.msq.started ≡ false
        → s' ≡ record s { workers = s.workers - 1 }
        → Step s s'

  pub data Reach (s : Server) : Server → Type 0 where
    here : Reach s s
    next : {t u : Server} → Reach s t → Step t u → Reach s u

abbrev pub init : Server
init = record { msq = new; workers = 0; panics = 0 }

-- The task numbers differ, and a started queue has a worker, or there was a panic.
pub record IsServed (s : Server) : Type 0 where
  pub distinct : IsDistinct s.msq.queue
  pub served : s.msq.started ≡ true → 0 < s.workers + s.panics

pub append-IsDistinct :
    (t : ProcessTask) (ts : List ProcessTask)
    → IsFresh t.task_id ts
    → IsDistinct ts
    → IsDistinct (ts ++ t ∷ [])
append-IsDistinct t [] f d = (tt, tt)
append-IsDistinct t (u ∷ ts) (ne, f) (fresh, d) = (
  All-append (λ v. u.task_id ≢ v.task_id) ts (t ∷ []) fresh ((λ e. ne (sym e)), tt),
  append-IsDistinct t ts f d,
)

remove_first-IsFresh :
    (id k : Text) (ts : List ProcessTask) → IsFresh k ts → IsFresh k (remove_first id ts)
unfolding remove_first
remove_first-IsFresh id k [] f = tt
remove_first-IsFresh id k (t ∷ ts) (ne, f) = ground (arith, remove_first-IsFresh id k ts f)

remove_first-IsDistinct :
    (id : Text) (ts : List ProcessTask) → IsDistinct ts → IsDistinct (remove_first id ts)
unfolding remove_first
remove_first-IsDistinct id [] d = tt
remove_first-IsDistinct id (t ∷ ts) (fresh, d) =
    ground (arith, remove_first-IsDistinct id ts d, remove_first-IsFresh id t.task_id ts fresh)

start-queue : (built : Bool) (q : ProcessQueue) → (start built q).0.queue ≡ q.queue
unfolding start
start-queue built q = ground arith

after_launch-queue : (l : Launch) (s : Server) → (after_launch l s).msq ≡ s.msq
after_launch-queue launched s = refl
after_launch-queue panicked s = refl
after_launch-queue not_needed s = refl

shutdown-queue : (q : ProcessQueue) → (shutdown q).queue ≡ q.queue
unfolding shutdown
shutdown-queue q = ground arith

shutdown-started : (q : ProcessQueue) → (shutdown q).started ≡ false
unfolding shutdown
shutdown-started q = ground arith

spawned-queue : (built : Bool) (s : Server) → (spawned built s).msq.queue ≡ s.msq.queue
spawned-queue built s =
    ap (λ (q : ProcessQueue). q.queue)
      (after_launch-queue (start built s.msq).1 (record s { msq = (start built s.msq).0 }))
    ∙ start-queue built s.msq

notify-queue : (q : ProcessQueue) → ((notify q).queue ≡ q.queue) × ((notify q).started ≡ q.started)
unfolding notify
notify-queue q = ground arith

workers-spawned :
    (built : Bool) (s : Server)
    → (s.msq.started ≡ true → 0 < s.workers + s.panics)
    → 0 < (spawned built s).workers + (spawned built s).panics
unfolding start
workers-spawned true s h = elim (Bool-cases s.msq.started) [
  | inl e ↦ rw e (h e)
  | inr e ↦ rw e (omega arith)
]
workers-spawned false s h = elim (Bool-cases s.msq.started) [
  | inl e ↦ rw e (h e)
  | inr e ↦ rw e (omega arith)
]

module _ {H : Type 0} (registry : Dict H) where
  Step-IsServed : {s s' : Server} → Step registry s s' → IsServed s → IsServed s'
  unfolding queue_add queue_remove
  Step-IsServed {s} (adds t f e) v =
      rw e (record { distinct = append-IsDistinct t s.msq.queue f v.distinct; served = v.served })
  Step-IsServed {s} (removes t e) v = rw e (record {
    distinct = remove_first-IsDistinct t.task_id s.msq.queue v.distinct;
    served = v.served;
  })
  Step-IsServed {s} (starts built e) v = rw e (record {
    distinct = subst IsDistinct (sym (spawned-queue built s)) v.distinct;
    served = λ _. workers-spawned built s v.served;
  })
  Step-IsServed {s} (shuts e) v = rw e (record {
    distinct = rw (shutdown-queue s.msq) v.distinct;
    served = λ h. cc (h, shutdown-started s.msq);
  })
  Step-IsServed {s} (notifies e) v = rw e (record {
    distinct = rw (notify-queue s.msq).0 v.distinct;
    served = λ h. v.served (sym (notify-queue s.msq).1 ∙ h);
  })
  Step-IsServed {s} (passes now w st e) v =
      rw (e, round_lem registry now s.msq v.distinct)
        (record { distinct = settled-IsDistinct now s.msq.queue v.distinct; served = v.served })
  Step-IsServed {s} (dies now before ct rest w st q due called e) v = rw e (record {
    distinct = broken_round-IsDistinct registry now before ct s.msq v.distinct;
    served = λ _. omega arith;
  })
  Step-IsServed {s} (ends w st e) v = rw e (record { distinct = v.distinct; served = λ h. cc })

  Reach-IsServed : {s t : Server} → IsServed s → Reach registry s t → IsServed t
  Reach-IsServed v here = v
  Reach-IsServed v (next r st) = Step-IsServed st (Reach-IsServed v r)

  -- In every history from a new queue of calls, of rounds, of starts whose runtime cannot be built, of
  -- rounds that the panic of a handler breaks off, and of ends of workers, where each added task has
  -- a number of its own, the task numbers stay distinct; and a queue that is started has a worker,
  -- unless one of these panics took place.
  pub history : {t : Server} → Reach registry init t → IsServed t
  history r = Reach-IsServed (record { distinct = tt; served = λ h. cc }) r

  -- Two workers can run on one queue: whatever the number of workers of a queue that is not started,
  -- a start, a shutdown and a second start before the first worker looks leave two more.
  pub start_twice :
      (s : Server)
      → s.msq.started ≡ false
      → (t : Server) × Reach registry s t × (t.workers ≡ s.workers + 2) × (t.msq.started ≡ true)
  start_twice s e =
      let s₁ = spawned true s in
      let s₂ : Server = record s₁ { msq = shutdown s₁.msq } in
      (
        spawned true s₂,
        next (next (next here (starts true refl)) (shuts refl)) (starts true refl),
        unfold start shutdown in ground arith,
        unfold start shutdown in ground arith,
      )
