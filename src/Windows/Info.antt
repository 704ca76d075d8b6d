-- ===== src/Windows/Info.antt =====
-- `ChimesPerformanceInfo::get_performance_info` of src/utils/performance.rs for Windows: what it puts together
-- from windows_performance.rs and the counters.
use chimes_utils.Base.{ℕ, true, Option, List}
use chimes_utils.Counters.{CustomCounter, into_counting}
use chimes_utils.Proc.{Float}
use chimes_utils.Proc.Info.{ChimesPerformanceInfo}
use chimes_utils.Windows.{
  FileTime, ProcessTimes, get_thread_count, get_process_times, get_memory_usages,
}
use chimes_utils.Windows.Network.{TcpRow, Estats, get_network_io_counter}

-- What the interface tells at the moment: the handles, the process and the owners of the threads, the
-- times, the memory, the bytes read and written, the processors, the two tables and the clock.
pub record WindowsSystem : Type 0 where
  pub handle_count : ℕ
  pub process_id : ℕ
  pub thread_owners : Option (List ℕ)
  pub system_time : FileTime
  pub process_times : Option ProcessTimes
  pub total_phys : ℕ
  pub working_set_size : Option ℕ
  pub read_transfer_count : ℕ
  pub write_transfer_count : ℕ
  pub number_of_processors : ℕ
  pub table_4 : Option (List TcpRow)
  pub table_6 : Option (List TcpRow)
  pub timestamp : ℕ

unfoldable pub get_performance_info :
    (float : Float) → Estats → Estats → WindowsSystem → CustomCounter → ChimesPerformanceInfo float
unfolding get_thread_count get_process_times get_memory_usages get_network_io_counter into_counting
get_performance_info float win_4 win_6 s counters =
    let times = get_process_times float s.system_time s.process_times in
    let memory = get_memory_usages s.total_phys s.working_set_size in
    let network = get_network_io_counter win_4 win_6 s.table_4 s.table_6 in
    record {
      timestamp = s.timestamp;
      cpu_cores = s.number_of_processors;
      kernel_cpu_usages = times.0;
      user_cpu_usages = times.1.0;
      idle_cpu_usages = float.of_u64 0;
      now_cpu_time = times.1.1;
      memory_used = memory.1;
      memory_total = memory.0;
      disk_read_total = s.read_transfer_count;
      disk_write_total = s.write_transfer_count;
      network_recv_total = network.0;
      network_send_total = network.1;
      threads = get_thread_count s.process_id s.thread_owners;
      handlers = s.handle_count;
      success = true;
      counter = into_counting counters;
    }
