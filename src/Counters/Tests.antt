-- ===== src/Counters/Tests.antt =====
-- Tests of the counters of performance.rs.
use chimes_utils.Base.{◌≡◌, List, [], ◌∷◌, refl}
use chimes_utils.Base.Int.{pos, negsuc}
use chimes_utils.Counters.{default, get_task_count}
use chimes_utils.Counters.Refinement.{Call, increase, add, calls, counted_all, calls-refine}

abbrev some_calls : List Call
some_calls = add (pos 3) 7 ∷ increase (pos 3) ∷ increase (negsuc 0) ∷ add (pos 11) 5 ∷ []

calls-refine_example :
    get_task_count (calls some_calls default) ≡ counted_all some_calls (get_task_count default)
calls-refine_example = calls-refine some_calls default

third_count : counted_all some_calls (get_task_count default) 3 ≡ 8
unfolding get_task_count
third_count = refl
