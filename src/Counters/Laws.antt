-- ===== src/Counters/Laws.antt =====
-- The counters of performance.rs against a function from numbers to counts.
use chimes_utils.Base.{
  ℕ, zero, suc, ◌+◌, ◌<◌, ◌≡◌, refl, Bool, false, wrap64, ◌==◌, ◌&&◌, leb, if◌then◌else◌, arith,
}
use chimes_utils.Base.Int.{ℤ, pos, negsuc}
use chimes_utils.Counters.{
  CustomCounter, get_task_count, custom_performance_counter_add,
  custom_performance_counter_increase, custom_performance_counter_reset,
}

-- A number from 1 to 10 addresses the counter that `get_task_count` reads at `t = it`; any other
-- number addresses none.
abbrev pub hits : ℤ → ℕ → Bool
hits (negsuc i) t = false
hits (pos i) t = (i == t) && (leb 1 i && leb i 10)

module _ (i : ℕ) (beyond : 10 < i) where
  hits_beyond : (t : ℕ) → hits (pos i) t ≡ false
  hits_beyond t = ground arith

  add_beyond : (val : ℕ) (c : CustomCounter) → custom_performance_counter_add (pos i) val c ≡ c
  unfolding custom_performance_counter_add
  add_beyond val c = ground arith

  reset_beyond : (c : CustomCounter) → custom_performance_counter_reset (pos i) c ≡ c
  unfolding custom_performance_counter_reset
  reset_beyond c = ground arith

-- Adding to counter `it` changes what is read at `it` only, by `val` modulo 2^64, and a number
-- outside 1 to 10 changes nothing.
pub get_task_count-add :
    (it : ℤ) (t val : ℕ) (c : CustomCounter)
    → get_task_count (custom_performance_counter_add it val c) t
      ≡ (if hits it t then wrap64 (get_task_count c t + val) else get_task_count c t)
unfolding get_task_count custom_performance_counter_add
get_task_count-add (negsuc i) t val c = refl
get_task_count-add (pos zero) t val c = ground arith
get_task_count-add (pos (suc zero)) t val c = ground arith
get_task_count-add (pos (suc (suc zero))) t val c = ground arith
get_task_count-add (pos (suc (suc (suc zero)))) t val c = ground arith
get_task_count-add (pos (suc (suc (suc (suc zero))))) t val c = ground arith
get_task_count-add (pos (suc (suc (suc (suc (suc zero)))))) t val c = ground arith
get_task_count-add (pos (suc (suc (suc (suc (suc (suc zero))))))) t val c = ground arith
get_task_count-add (pos (suc (suc (suc (suc (suc (suc (suc zero)))))))) t val c = ground arith
get_task_count-add (pos (suc (suc (suc (suc (suc (suc (suc (suc zero))))))))) t val c = ground arith
get_task_count-add (pos (suc (suc (suc (suc (suc (suc (suc (suc (suc zero)))))))))) t val c =
    ground arith
get_task_count-add (pos (suc (suc (suc (suc (suc (suc (suc (suc (suc (suc zero))))))))))) t val c =
    ground arith
get_task_count-add (pos (suc (suc (suc (suc (suc (suc (suc (suc (suc (suc (suc i)))))))))))) t val
      c =
    rw (
      add_beyond (suc (suc (suc (suc (suc (suc (suc (suc (suc (suc (suc i))))))))))) (omega arith)
          val c,
      hits_beyond (suc (suc (suc (suc (suc (suc (suc (suc (suc (suc (suc i))))))))))) (omega arith)
          t,
    )

-- Resetting counter `it` puts 0 there and leaves every other counter as it was.
pub get_task_count-reset :
    (it : ℤ) (t : ℕ) (c : CustomCounter)
    → get_task_count (custom_performance_counter_reset it c) t
      ≡ (if hits it t then 0 else get_task_count c t)
unfolding get_task_count custom_performance_counter_reset
get_task_count-reset (negsuc i) t c = refl
get_task_count-reset (pos zero) t c = ground arith
get_task_count-reset (pos (suc zero)) t c = ground arith
get_task_count-reset (pos (suc (suc zero))) t c = ground arith
get_task_count-reset (pos (suc (suc (suc zero)))) t c = ground arith
get_task_count-reset (pos (suc (suc (suc (suc zero))))) t c = ground arith
get_task_count-reset (pos (suc (suc (suc (suc (suc zero)))))) t c = ground arith
get_task_count-reset (pos (suc (suc (suc (suc (suc (suc zero))))))) t c = ground arith
get_task_count-reset (pos (suc (suc (suc (suc (suc (suc (suc zero)))))))) t c = ground arith
get_task_count-reset (pos (suc (suc (suc (suc (suc (suc (suc (suc zero))))))))) t c = ground arith
get_task_count-reset (pos (suc (suc (suc (suc (suc (suc (suc (suc (suc zero)))))))))) t c =
    ground arith
get_task_count-reset (pos (suc (suc (suc (suc (suc (suc (suc (suc (suc (suc zero))))))))))) t c =
    ground arith
get_task_count-reset (pos (suc (suc (suc (suc (suc (suc (suc (suc (suc (suc (suc i)))))))))))) t c =
    rw (
      reset_beyond (suc (suc (suc (suc (suc (suc (suc (suc (suc (suc (suc i))))))))))) (omega arith)
          c,
      hits_beyond (suc (suc (suc (suc (suc (suc (suc (suc (suc (suc (suc i))))))))))) (omega arith)
          t,
    )

-- `increase` is `add` of one, for every number.
pub increase-eq-add :
    (it : ℤ) (c : CustomCounter)
    → custom_performance_counter_increase it c ≡ custom_performance_counter_add it 1 c
unfolding custom_performance_counter_add custom_performance_counter_increase
increase-eq-add (negsuc i) c = refl
increase-eq-add (pos i) c = ground arith
