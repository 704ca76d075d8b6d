-- ===== src/Queue/Clock.antt =====
-- When a task of queue.rs is due, also under a clock that was set back.
use chimes_utils.Base.{ℕ, ◌+◌, ◌<◌, ◌≤◌, ◌^◌, ◌≡◌, ◌⊎◌, ◌↔◌, true, arith}
use chimes_utils.Queue.{ProcessTask, is_due}

-- At a clock that is not behind the last time of a task, the task is due exactly if more than its
-- period has gone by since then. At a clock that is behind, it is due exactly if the last time and
-- the period are together less than the clock and 2^64. Both times fit 64 bits.
pub is_due_iff :
    (now : ℕ) (t : ProcessTask)
    → now < 2 ^ 64
    → t.last_time < 2 ^ 64
    → (is_due now t ≡ true) ↔ (
        ((t.last_time ≤ now) × (t.last_time + t.period < now))
        ⊎ ((now < t.last_time) × (t.last_time + t.period < now + 2 ^ 64)))
unfolding is_due
is_due_iff now t fits before = ground arith
