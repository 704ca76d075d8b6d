-- ===== src/Queue/Tests.antt =====
-- Tests of the task queue.
use chimes_utils.Base.{
  ℕ, ◌+◌, ◌≤◌, ◌<◌, ◌^◌, ◌⊎◌, ◌↔◌, arith, ◌≡◌, refl, Bool, true, false, none, [], ◌∷◌,
}
use chimes_utils.Base.Text.{Text, codes, text_eq, text_ne}
use chimes_utils.Base.Dict
use chimes_utils.Base.Dict.{Dict}
use chimes_utils.Queue
use chimes_utils.Queue.{ProcessTask, ProcessQueue}
use chimes_utils.Queue.Ids.{IsDistinct}
use chimes_utils.Queue.Round
use chimes_utils.Queue.Removal
use chimes_utils.Queue.Clock.{is_due_iff}
use chimes_utils.Queue.History
use chimes_utils.Queue.History.{Server, Reach, here, next, starts, adds, dies, init}

abbrev task : Text → Bool → ProcessTask
task id cycle = record {
  task_id = id;
  handler_type = codes "h";
  cyclicity = cycle;
  last_time = 0;
  period = 5;
  cookie = none;
}

abbrev waiting : ProcessQueue
waiting = record Queue.new { queue = task (codes "1") true ∷ task (codes "2") false ∷ [] }

abbrev registry : Dict ℕ
registry = (codes "h", 7) ∷ []

waiting-IsDistinct : IsDistinct waiting.queue
unfolding text_eq
waiting-IsDistinct = ((text_ne (codes "1") (codes "2") refl, tt), (tt, tt))

round_lem_example : Queue.round registry 6 waiting ≡ (
  record waiting { queue = Removal.settled 6 waiting.queue },
  Round.due_calls registry 6 waiting.queue,
)
round_lem_example = Round.round_lem registry 6 waiting waiting-IsDistinct

-- Both tasks are run, and the first stays with its time set.
round_result : Queue.round registry 6 waiting ≡ (
  record waiting { queue = record (task (codes "1") true) { last_time = 6 } ∷ [] },
  (7, task (codes "1") true) ∷ (7, task (codes "2") false) ∷ [],
)
unfolding Queue.round Dict.get text_eq
round_result = refl

abbrev busy : Server
busy = record { msq = Queue.queue_add Queue.new (task (codes "1") false); workers = 0; panics = 0 }

abbrev running : Server
running = History.spawned true busy

-- The only task is due, and its handler panics.
abbrev broken : Server
broken = record {
  msq = Queue.broken_round registry 6 [] (task (codes "1") false) running.msq;
  workers = 0;
  panics = 1;
}

history_example : History.IsServed broken
unfolding Queue.queue_add Queue.start Queue.process_task Queue.is_due Dict.get text_eq
history_example = History.history registry (
    next (next (next here (adds (task (codes "1") false) tt refl)) (starts true refl))
      (dies 6 [] (task (codes "1") false) [] (omega arith) refl refl refl (λ e. cc e) refl))

-- The queue of the broken round is started, no worker runs, and a second start spawns none.
stranded : (broken.msq.started ≡ true) × ((History.spawned true broken).workers ≡ 0)
unfolding Queue.broken_round Queue.update_task_lasttime Queue.visit_all Queue.start Queue.queue_add
stranded = (refl, refl)

start_twice_example :
    (t : Server) × Reach registry init t × (t.workers ≡ 0 + 2) × (t.msq.started ≡ true)
start_twice_example = History.start_twice registry init refl

-- A clock that was set back by five seconds.
is_due_iff_example :
    (Queue.is_due 5 (record (task (codes "a") true) { last_time = 10; period = 60 }) ≡ true)
    ↔ (((10 ≤ 5) × (10 + 60 < 5)) ⊎ ((5 < 10) × (10 + 60 < 5 + 2 ^ 64)))
is_due_iff_example =
    is_due_iff 5 (record (task (codes "a") true) { last_time = 10; period = 60 }) (ground arith)
      (ground arith)
