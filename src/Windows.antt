-- ===== src/Windows.antt =====
-- What src/utils/windows_performance.rs makes of the answers of the Win32 interface, which are arguments.
pub mod Network
pub mod Table
pub mod Info
pub mod Laws
mod Tests
use chimes_utils.Base.{
  ℕ, ◌+◌, ◌-◌, ◌*◌, ◌%◌, ◌^◌, Bool, Option, none, some, List, [], ◌∷◌, ◌==◌, wrap64, if◌then◌else◌,
}
use chimes_utils.Proc.{Float, wrap32}

-- The owners of the threads of the snapshot: the first and the next ones. A snapshot without a first
-- thread has none, as one that cannot be taken.
unfoldable pub count_threads : ℕ → List ℕ → ℕ → ℕ
count_threads dw_process_id [] count = count
count_threads dw_process_id (owner ∷ rest) count =
    count_threads dw_process_id rest (if owner == dw_process_id then wrap32 (count + 1) else count)

unfoldable pub get_thread_count : ℕ → Option (List ℕ) → ℕ
unfolding count_threads
get_thread_count dw_process_id none = 0
get_thread_count dw_process_id (some owners) = count_threads dw_process_id owners 0

-- `FILETIME`.
pub record FileTime : Type 0 where
  pub low : ℕ
  pub high : ℕ

unfoldable pub u64_of : FileTime → ℕ
u64_of t = wrap64 (t.high * 2 ^ 32 + t.low)

-- What `GetProcessTimes` gives of the process.
pub record ProcessTimes : Type 0 where
  pub createtime : FileTime
  pub kernel_time : FileTime
  pub user_time : FileTime

module _ (float : Float) where
  unfoldable pub get_process_times :
      FileTime → Option ProcessTimes → float.F64 × (float.F64 × float.F64)
  unfolding u64_of
  get_process_times now none = (float.of_u64 0, (float.of_u64 0, float.of_u64 0))
  get_process_times now (some t) = (
    float.of_u64 (u64_of t.kernel_time),
    (
      float.of_u64 (u64_of t.user_time),
      float.of_u64 (wrap64 (u64_of now + 2 ^ 64 - u64_of t.createtime)),
    ),
  )

-- The memory in all, and the working set of the process; `none` where it is not given.
unfoldable pub get_memory_usages : ℕ → Option ℕ → ℕ × ℕ
get_memory_usages total_phys none = (total_phys, 0)
get_memory_usages total_phys (some working_set_size) = (total_phys, working_set_size)
