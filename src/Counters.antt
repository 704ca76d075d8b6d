-- ===== src/Counters.antt =====
-- The custom counters of src/utils/performance.rs: ten atomic u64 values behind one mutex, addressed
-- by their number. Every call takes the lock for its one access, so a call is one step.
pub mod Laws
pub mod Refinement
mod Tests
use chimes_utils.Base.{ℕ, ◌+◌, wrap64, ◌==◌, if◌then◌else◌}
use chimes_utils.Base.Int.{ℤ, pos, negsuc}

-- The atomics, and the plain copies that `CustomCounterInfo` holds.
pub record CustomCounter : Type 0 where
  pub task_1_count : ℕ
  pub task_2_count : ℕ
  pub task_3_count : ℕ
  pub task_4_count : ℕ
  pub task_5_count : ℕ
  pub task_6_count : ℕ
  pub task_7_count : ℕ
  pub task_8_count : ℕ
  pub task_9_count : ℕ
  pub task_10_count : ℕ

pub record CustomCounterInfo : Type 0 where
  pub task_1_count : ℕ
  pub task_2_count : ℕ
  pub task_3_count : ℕ
  pub task_4_count : ℕ
  pub task_5_count : ℕ
  pub task_6_count : ℕ
  pub task_7_count : ℕ
  pub task_8_count : ℕ
  pub task_9_count : ℕ
  pub task_10_count : ℕ

abbrev pub default : CustomCounter
default = record {
  task_1_count = 0;
  task_2_count = 0;
  task_3_count = 0;
  task_4_count = 0;
  task_5_count = 0;
  task_6_count = 0;
  task_7_count = 0;
  task_8_count = 0;
  task_9_count = 0;
  task_10_count = 0;
}

unfoldable pub into_counting : CustomCounter → CustomCounterInfo
into_counting c = record {
  task_1_count = c.task_1_count;
  task_2_count = c.task_2_count;
  task_3_count = c.task_3_count;
  task_4_count = c.task_4_count;
  task_5_count = c.task_5_count;
  task_6_count = c.task_6_count;
  task_7_count = c.task_7_count;
  task_8_count = c.task_8_count;
  task_9_count = c.task_9_count;
  task_10_count = c.task_10_count;
}

pub get_task_count : CustomCounter → ℕ → ℕ
get_task_count c t =
    if t == 1
    then c.task_1_count
    else if t == 2
    then c.task_2_count
    else if t == 3
    then c.task_3_count
    else if t == 4
    then c.task_4_count
    else if t == 5
    then c.task_5_count
    else if t == 6
    then c.task_6_count
    else if t == 7
    then c.task_7_count
    else if t == 8
    then c.task_8_count
    else if t == 9
    then c.task_9_count
    else if t == 10
    then c.task_10_count
    else 0

-- `fetch_add` wraps around at 64 bits. A negative number takes the catch-all branch.
pub custom_performance_counter_add : ℤ → ℕ → CustomCounter → CustomCounter
custom_performance_counter_add (negsuc i) val c = c
custom_performance_counter_add (pos i) val c =
    if i == 1
    then record c { task_1_count = wrap64 (c.task_1_count + val) }
    else if i == 2
    then record c { task_2_count = wrap64 (c.task_2_count + val) }
    else if i == 3
    then record c { task_3_count = wrap64 (c.task_3_count + val) }
    else if i == 4
    then record c { task_4_count = wrap64 (c.task_4_count + val) }
    else if i == 5
    then record c { task_5_count = wrap64 (c.task_5_count + val) }
    else if i == 6
    then record c { task_6_count = wrap64 (c.task_6_count + val) }
    else if i == 7
    then record c { task_7_count = wrap64 (c.task_7_count + val) }
    else if i == 8
    then record c { task_8_count = wrap64 (c.task_8_count + val) }
    else if i == 9
    then record c { task_9_count = wrap64 (c.task_9_count + val) }
    else if i == 10
    then record c { task_10_count = wrap64 (c.task_10_count + val) }
    else c

pub custom_performance_counter_increase : ℤ → CustomCounter → CustomCounter
custom_performance_counter_increase (negsuc i) c = c
custom_performance_counter_increase (pos i) c =
    if i == 1
    then record c { task_1_count = wrap64 (c.task_1_count + 1) }
    else if i == 2
    then record c { task_2_count = wrap64 (c.task_2_count + 1) }
    else if i == 3
    then record c { task_3_count = wrap64 (c.task_3_count + 1) }
    else if i == 4
    then record c { task_4_count = wrap64 (c.task_4_count + 1) }
    else if i == 5
    then record c { task_5_count = wrap64 (c.task_5_count + 1) }
    else if i == 6
    then record c { task_6_count = wrap64 (c.task_6_count + 1) }
    else if i == 7
    then record c { task_7_count = wrap64 (c.task_7_count + 1) }
    else if i == 8
    then record c { task_8_count = wrap64 (c.task_8_count + 1) }
    else if i == 9
    then record c { task_9_count = wrap64 (c.task_9_count + 1) }
    else if i == 10
    then record c { task_10_count = wrap64 (c.task_10_count + 1) }
    else c

pub custom_performance_counter_reset : ℤ → CustomCounter → CustomCounter
custom_performance_counter_reset (negsuc i) c = c
custom_performance_counter_reset (pos i) c =
    if i == 1
    then record c { task_1_count = 0 }
    else if i == 2
    then record c { task_2_count = 0 }
    else if i == 3
    then record c { task_3_count = 0 }
    else if i == 4
    then record c { task_4_count = 0 }
    else if i == 5
    then record c { task_5_count = 0 }
    else if i == 6
    then record c { task_6_count = 0 }
    else if i == 7
    then record c { task_7_count = 0 }
    else if i == 8
    then record c { task_8_count = 0 }
    else if i == 9
    then record c { task_9_count = 0 }
    else if i == 10
    then record c { task_10_count = 0 }
    else c
