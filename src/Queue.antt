-- ===== src/Queue.antt =====
-- The task queue of src/utils/queue.rs: its state, its methods, and one round of its worker. The
-- read-write lock makes each method one step; what is sent to the `Notify` is kept as a trace.
pub mod Clock
pub mod Ids
pub mod Removal
pub mod Round
pub mod Broken
pub mod History
mod Tests
use chimes_utils.Base.{
  ℕ, ◌+◌, ◌-◌, ◌%◌, ◌^◌, Bool, true, false, not, Option, none, some, List, [], ◌∷◌, ◌++◌, length,
  ltb, leb, wrap64, if◌then◌else◌,
}
use chimes_utils.Base.Text.{Text, text_eq}
use chimes_utils.Base.Dict
use chimes_utils.Base.Dict.{Dict}

pub record ProcessTask : Type 0 where
  pub task_id : Text
  pub handler_type : Text
  pub cyclicity : Bool
  pub last_time : ℕ
  pub period : ℕ
  pub cookie : Option Text

-- `task_id` is the random string that is generated, `now` the clock that is read.
unfoldable pub new_task : Bool → ℕ → Text → Text → Text → ℕ → ProcessTask
new_task h p ck hfn task_id now = record {
  task_id = task_id;
  handler_type = hfn;
  cyclicity = h;
  last_time = now;
  period = p;
  cookie = some ck;
}

unfoldable pub new_with_cookie_fn : Text → Bool → ℕ → Text → Text → ℕ → ProcessTask
new_with_cookie_fn ck cycle p hfn task_id now = record {
  task_id = task_id;
  handler_type = hfn;
  cyclicity = cycle;
  last_time = now;
  period = p;
  cookie = some ck;
}

pub data Signal : Type 0 where
  notify_one notify_waiters : Signal

pub record ProcessQueue : Type 0 where
  pub queue : List ProcessTask
  pub started : Bool
  pub max_tasks : ℕ
  pub waiting_timeout : ℕ
  pub signals : List Signal

abbrev pub new : ProcessQueue
new = record { queue = []; started = false; max_tasks = 1000; waiting_timeout = 30; signals = [] }

unfoldable pub queue_add : ProcessQueue → ProcessTask → ProcessQueue
queue_add q emb = record q { queue = q.queue ++ emb ∷ []; signals = q.signals ++ notify_one ∷ [] }

-- The loop of `queue_remove`: the first task with the number goes, then it breaks.
unfoldable pub remove_first : Text → List ProcessTask → List ProcessTask
remove_first id [] = []
remove_first id (t ∷ ts) = if text_eq id t.task_id then ts else t ∷ remove_first id ts

unfoldable pub queue_remove : ProcessQueue → ProcessTask → ProcessQueue
unfolding remove_first
queue_remove q emb = record q { queue = remove_first emb.task_id q.queue }

-- What a start leads to: a worker is spawned, or its runtime cannot be built and the call panics, or the
-- queue is started already.
pub data Launch : Type 0 where
  launched panicked not_needed : Launch

-- `built` says whether the runtime of the worker can be built; the flag is set before.
unfoldable pub start : Bool → ProcessQueue → ProcessQueue × Launch
start built q =
    if not q.started
    then (record q { started = true }, if built then launched else panicked)
    else (q, not_needed)

unfoldable pub shutdown : ProcessQueue → ProcessQueue
shutdown q =
    if q.started
    then record q { started = false; signals = q.signals ++ notify_waiters ∷ [] }
    else q

unfoldable pub notify : ProcessQueue → ProcessQueue
notify q = if q.started then record q { signals = q.signals ++ notify_waiters ∷ [] } else q

unfoldable pub count : ProcessQueue → ℕ
count q = length q.queue

unfoldable pub is_queue_full : ProcessQueue → Bool
is_queue_full q = leb q.max_tasks (length q.queue)

unfoldable pub config_task_queue_wait_timeout : ProcessQueue → ℕ → ProcessQueue
config_task_queue_wait_timeout q tmt = record q { waiting_timeout = tmt }

unfoldable pub config_task_queue_max_tasks : ProcessQueue → ℕ → ProcessQueue
config_task_queue_max_tasks q max = record q { max_tasks = max }

-- The loop of `update_task_lasttime`, over every task with the number.
unfoldable pub touch : Text → ℕ → List ProcessTask → List ProcessTask
touch id nsec [] = []
touch id nsec (t ∷ ts) =
    (if text_eq id t.task_id then record t { last_time = nsec } else t) ∷ touch id nsec ts

unfoldable pub update_task_lasttime : ProcessQueue → ProcessTask → ℕ → ProcessQueue
unfolding touch
update_task_lasttime q ct nsec = record q { queue = touch ct.task_id nsec q.queue }

-- `current_time - last_time > period` on u64: a clock behind `last_time` wraps around.
unfoldable pub is_due : ℕ → ProcessTask → Bool
is_due current_time t = ltb t.period (wrap64 (current_time + 2 ^ 64 - t.last_time))

unfoldable pub remove_all : List ProcessTask → ProcessQueue → ProcessQueue
unfolding queue_remove
remove_all [] q = q
remove_all (rct ∷ rest) q = remove_all rest (queue_remove q rct)

-- What the loop over the copied tasks has done so far.
pub record Pass (H : Type 0) : Type 0 where
  pub msq : ProcessQueue
  pub calls : List (H × ProcessTask)
  pub should_remove_tasks : List ProcessTask

-- Handlers are named by `H`, and are taken to leave the queue alone. In a `round` each handler that is
-- called comes to its end; `broken_round` is one that a panic of a handler breaks off.
module _ {H : Type 0} where
  unfoldable pub queue_registry_handler : Dict H → Text → H → Dict H
  queue_registry_handler registry handler_type fun = Dict.insert handler_type fun registry

  -- The call that `process_task` makes, if the type of the task has a handler.
  unfoldable pub process_task : Dict H → ProcessTask → List (H × ProcessTask)
  process_task registry task = elim (Dict.get task.handler_type registry) [
    | none ↦ []
    | some func ↦ (func, task) ∷ []
  ]

  unfoldable pub visit : Dict H → ℕ → ProcessTask → Pass H → Pass H
  unfolding is_due update_task_lasttime process_task
  visit registry current_time ct p =
      if is_due current_time ct
      then record {
        msq = update_task_lasttime p.msq ct current_time;
        calls = p.calls ++ process_task registry ct;
        should_remove_tasks =
            if not ct.cyclicity then p.should_remove_tasks ++ ct ∷ [] else p.should_remove_tasks;
      }
      else p

  unfoldable pub visit_all : Dict H → ℕ → List ProcessTask → Pass H → Pass H
  unfolding visit
  visit_all registry current_time [] p = p
  visit_all registry current_time (ct ∷ cts) p =
      visit_all registry current_time cts (visit registry current_time ct p)

  -- One round of the `while` loop of the worker, up to the wait: the queue and the calls made.
  unfoldable pub round : Dict H → ℕ → ProcessQueue → ProcessQueue × List (H × ProcessTask)
  unfolding visit_all remove_all
  round registry current_time q =
      let p =
        visit_all registry current_time q.queue
          (record { msq = q; calls = []; should_remove_tasks = [] }) in
      (remove_all p.should_remove_tasks p.msq, p.calls)

  -- The same up to the call of the handler of `ct`, which panics: the tasks before it have been
  -- visited, its own time is set, nothing is removed, and the worker is gone.
  unfoldable pub broken_round :
      Dict H → ℕ → List ProcessTask → ProcessTask → ProcessQueue → ProcessQueue
  unfolding visit_all update_task_lasttime
  broken_round registry current_time before ct q =
      let p =
        visit_all registry current_time before
          (record { msq = q; calls = []; should_remove_tasks = [] }) in
      update_task_lasttime p.msq ct current_time
