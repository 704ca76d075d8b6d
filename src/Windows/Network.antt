-- ===== src/Windows/Network.antt =====
-- The TCP connections that src/utils/windows_performance.rs scans. Each table is a list of rows, and the answers
-- of the statistics calls for a row are arguments.
use chimes_utils.Base.{
  ℕ, ◌+◌, ◌/◌, Bool, true, false, not, ◌&&◌, ◌||◌, Option, none, some, List, [], ◌∷◌, ◌++◌, ◌==◌,
  ltb, wrap64, if◌then◌else◌,
}
use chimes_utils.Base.Text.{Text}
use chimes_utils.Base.Int.{ℤ, pos, as_i32}

-- A row of a table. The addresses are texts as `InetNtopW` gives them; `remote_addr` is the number of
-- a remote address of version 4.
pub record TcpRow : Type 0 where
  pub owning_pid : ℕ
  pub state : ℕ
  pub local_port : ℕ
  pub remote_port : ℕ
  pub local_addr : Option Text
  pub remote_addr : ℕ
  pub remote_text : Option Text

pub record NetworkPerformanceItem : Type 0 where
  pub process_id : ℕ
  pub state : ℕ
  pub conn_state : ℕ
  pub local_address : Option Text
  pub remote_address : Option Text
  pub local_port : ℤ
  pub remote_port : ℤ
  pub bytes_out : ℕ
  pub bytes_in : ℕ
  pub outbound_bandwidth : ℕ
  pub inbound_bandwidth : ℕ
  pub pass : ℤ

-- `TCP_ESTATS_DATA_ROD_v0` and `TCP_ESTATS_BANDWIDTH_ROD_v0`, as far as they are read.
pub record DataRod : Type 0 where
  pub data_bytes_out : ℕ
  pub data_segs_out : ℕ
  pub data_bytes_in : ℕ
  pub data_segs_in : ℕ

pub record BandwidthRod : Type 0 where
  pub outbound_instability : ℕ
  pub inbound_instability : ℕ

abbrev pub zero_bandwidth : BandwidthRod
zero_bandwidth = record { outbound_instability = 0; inbound_instability = 0 }

-- The answers for a row: whether the collection of data and of bandwidth can be set, the data, and
-- whether the bandwidth is given. It is given in the buffer of the data, so its numbers are not here.
pub record Estats : Type 0 where
  pub set_data : TcpRow → Bool
  pub set_bandwidth : TcpRow → Bool
  pub get_data : TcpRow → Option DataRod
  pub get_bandwidth : TcpRow → Bool
  -- the states that have data: listen, syn sent, syn received, established
  pub listen : ℕ
  pub syn_sent : ℕ
  pub syn_rcvd : ℕ
  pub estab : ℕ

unfoldable pub item_of : Bool → TcpRow → NetworkPerformanceItem
item_of resv table = record {
  process_id = table.owning_pid;
  state = table.state;
  conn_state = table.state;
  local_address = if resv then table.local_addr else none;
  remote_address = if resv then table.remote_text else none;
  local_port = as_i32 (pos (table.local_port));
  remote_port = as_i32 (pos (table.remote_port));
  bytes_out = 0;
  bytes_in = 0;
  outbound_bandwidth = 0;
  inbound_bandwidth = 0;
  pass = pos 0;
}

-- The data counts if not both bytes are the segments, and neither is 0.
unfoldable pub is_valid_data : DataRod → Bool
is_valid_data data_box =
    not (
      data_box.data_bytes_in == data_box.data_segs_in
      && data_box.data_bytes_out == data_box.data_segs_out)
    && (ltb 0 data_box.data_bytes_in && ltb 0 data_box.data_bytes_out)

unfoldable pub with_data : Option DataRod → NetworkPerformanceItem → NetworkPerformanceItem
unfolding is_valid_data
with_data none item = item
with_data (some data_box) item =
    if is_valid_data data_box
    then record item { bytes_in = data_box.data_bytes_in; bytes_out = data_box.data_bytes_out }
    else item

-- The box is read from the buffer `bandwidth_rod_ptr`, which no call fills: it holds zeros.
unfoldable pub with_bandwidth :
    Bool → BandwidthRod → NetworkPerformanceItem → NetworkPerformanceItem
with_bandwidth false data_box item = item
with_bandwidth true data_box item = record item {
  outbound_bandwidth = data_box.inbound_instability / 8;
  inbound_bandwidth = data_box.outbound_instability / 8;
}

module _ (win : Estats) where
  unfoldable pub has_state : ℕ → Bool
  has_state s = s == win.listen || s == win.syn_sent || s == win.syn_rcvd || s == win.estab

  -- The item with its statistics.
  unfoldable pub measured : TcpRow → NetworkPerformanceItem → NetworkPerformanceItem
  unfolding has_state with_data with_bandwidth
  measured row item =
      with_bandwidth (win.get_bandwidth row) zero_bandwidth
        (with_data (if has_state row.state then win.get_data row else none) item)

  -- Both collections can be set; if not, the scan returns what it has.
  unfoldable pub can_collect : TcpRow → Bool
  can_collect row = win.set_data row && win.set_bandwidth row

  -- The loop over the rows of version 4, from the items so far.
  unfoldable pub scan_rows_4 :
      Bool → List TcpRow → List NetworkPerformanceItem → List NetworkPerformanceItem
  unfolding item_of measured can_collect
  scan_rows_4 resv [] items = items
  scan_rows_4 resv (table ∷ ctt) items =
      let item = item_of resv table in
      let next = scan_rows_4 resv ctt (items ++ measured table item ∷ []) in
      let plain = scan_rows_4 resv ctt (items ++ item ∷ []) in
      if ltb 0 table.remote_addr then (if can_collect table then next else items) else plain

  unfoldable pub scan_rows_6 :
      Bool → List TcpRow → List NetworkPerformanceItem → List NetworkPerformanceItem
  unfolding item_of measured can_collect
  scan_rows_6 resv [] items = items
  scan_rows_6 resv (table ∷ ctt) items =
      let next = scan_rows_6 resv ctt (items ++ measured table (item_of resv table) ∷ []) in
      if can_collect table then next else items

  -- A table, or `none` where it is not given.
  unfoldable pub scan_network_performance_tcp4 :
      Bool → Option (List TcpRow) → List NetworkPerformanceItem
  unfolding scan_rows_4
  scan_network_performance_tcp4 resv none = []
  scan_network_performance_tcp4 resv (some ctt) = scan_rows_4 resv ctt []

  unfoldable pub scan_network_performance_tcp6 :
      Bool → Option (List TcpRow) → List NetworkPerformanceItem
  unfolding scan_rows_6
  scan_network_performance_tcp6 resv none = []
  scan_network_performance_tcp6 resv (some ctt) = scan_rows_6 resv ctt []

unfoldable pub sum_items : List NetworkPerformanceItem → ℕ × ℕ → ℕ × ℕ
sum_items [] sums = sums
sum_items (it ∷ items) (bytes_in, bytes_out) =
    sum_items items (wrap64 (bytes_in + it.bytes_in), wrap64 (bytes_out + it.bytes_out))

-- The interface for version 4 and for version 6, and the two tables.
module _ (win_4 win_6 : Estats) where
  unfoldable pub scan_network_performance :
      Bool → Option (List TcpRow) → Option (List TcpRow) → List NetworkPerformanceItem
  unfolding scan_network_performance_tcp4 scan_network_performance_tcp6
  scan_network_performance resv table_4 table_6 =
      scan_network_performance_tcp6 win_6 resv table_6
      ++ scan_network_performance_tcp4 win_4 resv table_4

  unfoldable pub get_network_io_counter : Option (List TcpRow) → Option (List TcpRow) → ℕ × ℕ
  unfolding scan_network_performance sum_items
  get_network_io_counter table_4 table_6 =
      sum_items (scan_network_performance false table_4 table_6) (0, 0)
