-- ===== src/Counters/Refinement.antt =====
-- Any sequence of calls on the counters of performance.rs, against one map from numbers to counts.
use mathlib.Core.Path.{fun_ext}
use chimes_utils.Base.{ℕ, ◌+◌, ◌≡◌, refl, ap, ◌∙◌, wrap64, List, [], ◌∷◌, if◌then◌else◌}
use chimes_utils.Base.Int.{ℤ}
use chimes_utils.Counters.{
  CustomCounter, get_task_count, custom_performance_counter_add,
  custom_performance_counter_increase, custom_performance_counter_reset,
}
use chimes_utils.Counters.Laws.{hits, get_task_count-add, get_task_count-reset, increase-eq-add}

pub data Call : Type 0 where
  increase : ℤ → Call
  add : ℤ → ℕ → Call
  reset : ℤ → Call

abbrev pub call : Call → CustomCounter → CustomCounter
call (increase it) c = custom_performance_counter_increase it c
call (add it val) c = custom_performance_counter_add it val c
call (reset it) c = custom_performance_counter_reset it c

abbrev pub calls : List Call → CustomCounter → CustomCounter
calls [] c = c
calls (k ∷ ks) c = calls ks (call k c)

-- What a call means for the counts.
abbrev pub counted : Call → (ℕ → ℕ) → ℕ → ℕ
counted (increase it) count t = if hits it t then wrap64 (count t + 1) else count t
counted (add it val) count t = if hits it t then wrap64 (count t + val) else count t
counted (reset it) count t = if hits it t then 0 else count t

abbrev pub counted_all : List Call → (ℕ → ℕ) → ℕ → ℕ
counted_all [] count = count
counted_all (k ∷ ks) count = counted_all ks (counted k count)

call-counted :
    (k : Call) (c : CustomCounter) (t : ℕ)
    → get_task_count (call k c) t ≡ counted k (get_task_count c) t
call-counted (increase it) c t =
    ap (λ d. get_task_count d t) (increase-eq-add it c) ∙ get_task_count-add it t 1 c
call-counted (add it val) c t = get_task_count-add it t val c
call-counted (reset it) c t = get_task_count-reset it t c

-- However the counters are increased, added to and reset, what is read of them is what one map from
-- numbers to counts holds, on which an increase adds one and an addition its value, modulo 2^64, and a
-- reset puts 0, each at the counter that is named and only there. A number outside 1 to 10 names
-- no counter.
pub calls-refine :
    (ks : List Call) (c : CustomCounter)
    → get_task_count (calls ks c) ≡ counted_all ks (get_task_count c)
calls-refine [] c = refl
calls-refine (k ∷ ks) c =
    calls-refine ks (call k c) ∙ ap (counted_all ks) (fun_ext (call-counted k c))
