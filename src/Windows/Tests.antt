-- ===== src/Windows/Tests.antt =====
-- The theorems on windows_performance.rs at concrete tables.
use chimes_utils.Base.{
  ℕ, ◌≡◌, refl, true, false, none, some, List, [], ◌∷◌, ◌++◌, ◌+◌, map, wrap64, ltb, leb, Bool,
  Option, arith,
}
use chimes_utils.Windows.{get_thread_count, u64_of}
use chimes_utils.Windows.Network.{
  TcpRow, Estats, can_collect, scan_network_performance, get_network_io_counter,
}
use chimes_utils.Windows.Table.{
  TableAnswer, error_insufficient_buffer, error_success, load_table, IsBounded, Ends,
  load_table-ends,
}
use chimes_utils.Windows.Laws.{
  rows_before, rows_of, is_kept_4, measured_4, measured_6, total, scan_network_performance-map,
  get_network_io_counter-total,
}

abbrev row : ℕ → ℕ → ℕ → TcpRow
row pid state remote = record {
  owning_pid = pid;
  state = state;
  local_port = 80;
  remote_port = 4000 + pid;
  local_addr = none;
  remote_addr = remote;
  remote_text = none;
}

-- The collection is refused for process 9, and there is data for all others.
abbrev win : Estats
win = record {
  set_data = λ r. ltb r.owning_pid 9;
  set_bandwidth = λ r. true;
  get_data = λ r. some (record {
    data_bytes_out = 100 + r.owning_pid;
    data_segs_out = 2;
    data_bytes_in = 1000 + r.owning_pid;
    data_segs_in = 3;
  });
  get_bandwidth = λ r. true;
  listen = 2;
  syn_sent = 3;
  syn_rcvd = 4;
  estab = 5;
}

-- Process 1 listens without a remote address, 2 is connected, 3 is closed, and 9 is refused.
abbrev table_4 : List TcpRow
table_4 = row 1 2 0 ∷ row 2 5 7 ∷ row 3 1 7 ∷ row 9 5 7 ∷ row 4 5 7 ∷ []

abbrev table_6 : List TcpRow
table_6 = row 5 5 0 ∷ row 6 2 0 ∷ []

-- The connection after the refused one is not counted.
counted : get_network_io_counter win win (some table_4) (some table_6) ≡ (3013, 313)
unfolding get_network_io_counter
counted = refl

threads_of_one : get_thread_count 7 (some (7 ∷ 8 ∷ 7 ∷ [])) ≡ 2
unfolding get_thread_count
threads_of_one = refl

high_part : u64_of (record { low = 5; high = 1 }) ≡ 4294967301
unfolding u64_of
high_part = refl

scan_network_performance-map_example :
    scan_network_performance win win true (some table_4) (some table_6)
    ≡ map (measured_6 win true) (rows_before (can_collect win) (rows_of (some table_6)))
      ++ map (measured_4 win true) (rows_before (is_kept_4 win) (rows_of (some table_4)))
scan_network_performance-map_example =
    scan_network_performance-map win win true (some table_4) (some table_6)

get_network_io_counter-total_example :
    let rows_6 = rows_before (can_collect win) table_6 in
    let rows_4 = rows_before (is_kept_4 win) table_4 in
    get_network_io_counter win win (some table_4) (some table_6) ≡ (
      wrap64 (
          total (λ r. (measured_6 win false r).bytes_in) rows_6
          + total (λ r. (measured_4 win false r).bytes_in) rows_4),
      wrap64 (
          total (λ r. (measured_6 win false r).bytes_out) rows_6
          + total (λ r. (measured_4 win false r).bytes_out) rows_4),
    )
get_network_io_counter-total_example =
    get_network_io_counter-total win win (some table_4) (some table_6)

-- The table needs 52 bytes.
abbrev answer : Bool → TableAnswer
answer true = error_success table_6
answer false = error_insufficient_buffer 52

abbrev ask : ℕ → ℕ → TableAnswer
ask turn dw_size = answer (leb 52 dw_size)

answer_small : (b : Bool) (n : ℕ) → answer b ≡ error_insufficient_buffer n → (b ≡ false) × (52 ≡ n)
answer_small true n e = cc e
answer_small false n e = (refl, cc e)

ask-IsBounded : IsBounded ask 60
ask-IsBounded = record {
  enlarges = λ turn dw_size needed e.
      let (small, same) = answer_small (leb 52 dw_size) needed e in
      (ground (arith, small, same), omega arith);
}

second_call : load_table ask 2 0 28 ≡ some (some table_6)
unfolding load_table
second_call = refl

load_table-ends_example :
    (at size : ℕ) × (table : Option (List TcpRow)) × Ends (ask at size) table
    × (load_table ask 41 0 28 ≡ some table)
load_table-ends_example = load_table-ends ask 60 ask-IsBounded 40 0 28 (omega arith)
