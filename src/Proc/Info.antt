-- ===== src/Proc/Info.antt =====
-- `ChimesPerformanceInfo::get_performance_info` of src/utils/performance.rs for Linux: what it puts together
-- from linux_performance.rs and the counters.
use chimes_utils.Base.{ℕ, Bool, true, Option, some, List}
use chimes_utils.Base.Maybe.{◌>>=◌}
use chimes_utils.Base.Text.{Text}
use chimes_utils.Counters.{CustomCounter, CustomCounterInfo, into_counting}
use chimes_utils.Proc.{
  Float, get_cpu_cores, get_thread_count, get_process_times, get_memory_usages, get_handle_count,
  get_io_counter, get_network_io_counter,
}

module _ (float : Float) where
  pub record ChimesPerformanceInfo : Type 0 where
    pub timestamp : ℕ
    pub cpu_cores : ℕ
    pub kernel_cpu_usages : float.F64
    pub user_cpu_usages : float.F64
    pub idle_cpu_usages : float.F64
    pub now_cpu_time : float.F64
    pub memory_used : ℕ
    pub memory_total : ℕ
    pub disk_read_total : ℕ
    pub disk_write_total : ℕ
    pub network_recv_total : ℕ
    pub network_send_total : ℕ
    pub threads : ℕ
    pub handlers : ℕ
    pub success : Bool
    pub counter : CustomCounterInfo

-- What the system tells at the moment: the files, the directory fdinfo, `sysinfo` and the clock.
pub record System : Type 0 where
  pub fdinfo : Option (List Bool)
  pub stat_of_process : Option Text
  pub stat : Option Text
  pub sysinfo : Option (ℕ × ℕ)
  pub io : Option Text
  pub cpuinfo : Option Text
  pub net_dev : Option Text
  pub now : ℕ

module _ (float : Float) (substring : Text → ℕ → ℕ → Text) where
  unfoldable pub info_of :
      System → CustomCounter → float.F64 × (float.F64 × float.F64) → ChimesPerformanceInfo float
  unfolding get_cpu_cores get_thread_count get_memory_usages get_handle_count get_io_counter
      get_network_io_counter into_counting
  info_of s counters (kcpu, (ucpu, idle)) =
      let memory = get_memory_usages s.sysinfo in
      let disk = get_io_counter substring s.io in
      let network = get_network_io_counter s.net_dev in
      record {
        timestamp = s.now;
        cpu_cores = get_cpu_cores s.cpuinfo;
        kernel_cpu_usages = kcpu;
        user_cpu_usages = ucpu;
        idle_cpu_usages = idle;
        now_cpu_time = float.of_u64 s.now;
        memory_used = memory.1;
        memory_total = memory.0;
        disk_read_total = disk.0;
        disk_write_total = disk.1;
        network_recv_total = network.0;
        network_send_total = network.1;
        threads = get_thread_count s.stat_of_process;
        handlers = get_handle_count s.fdinfo;
        success = true;
        counter = into_counting counters;
      }

  -- `none` is a panic.
  unfoldable pub get_performance_info :
      System → CustomCounter → Option (ChimesPerformanceInfo float)
  unfolding get_process_times info_of
  get_performance_info s counters = do
    times ← get_process_times float s.stat
    some (info_of s counters times)
