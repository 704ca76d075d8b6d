-- ===== src/Proc.antt =====
-- What src/utils/linux_performance.rs reads of the files under /proc. The text of a file is an argument,
-- `none` where it cannot be opened or read.
pub mod Info
pub mod Network
pub mod Times
mod Tests
use chimes_utils.Base.{
  ℕ, suc, ◌+◌, ◌-◌, ◌%◌, ◌^◌, Bool, true, false, Option, none, some, List, [], ◌∷◌, ◌++◌, length,
  get_elem?, ltb, leb, wrap64, if◌then◌else◌,
}
use chimes_utils.Base.Maybe.{◌>>=◌}
use chimes_utils.Base.Text.{Text, codes, text_eq}
use chimes_utils.Str.{starts_with, lines, split_whitespace}
use chimes_utils.Str.Number.{parse_u64, parse_u32}

-- The floating point numbers that are needed: `as f64` of a u64, and the sum.
pub record Float : Type 1 where
  pub F64 : Type 0
  pub of_u64 : ℕ → F64
  pub add : F64 → F64 → F64

abbrev pub wrap32 : ℕ → ℕ
wrap32 n = n % 2 ^ 32

-- The loop that counts lines, from `count` on.
unfoldable pub count_processors : List Text → ℕ → ℕ
count_processors [] count = count
count_processors (line ∷ rest) count =
    count_processors rest
      (if starts_with line (codes "processor") then wrap32 (count + 1) else count)

unfoldable pub get_cpu_cores : Option Text → ℕ
unfolding count_processors
get_cpu_cores none = 0
get_cpu_cores (some text) = count_processors (lines text) 0

-- `items[i].parse()`, with 0 for an error; an outer `none` is a panic.
unfoldable pub u32_item : Option Text → ℕ
u32_item none = 0
u32_item (some t) = elim (parse_u32 t) [ none ↦ 0 | some n ↦ n ]

-- The first line of more than 20 items with a number of threads that is not 0.
unfoldable pub first_threads : List Text → ℕ
unfolding u32_item
first_threads [] = 0
first_threads (line ∷ rest) =
    let items = split_whitespace line in
    let thc = u32_item (get_elem? items 19) in
    let next = first_threads rest in
    if ltb 20 (length items) then (if ltb 0 thc then thc else next) else next

unfoldable pub get_thread_count : Option Text → ℕ
unfolding first_threads
get_thread_count none = 0
get_thread_count (some text) = first_threads (lines text)

module _ (float : Float) where
  -- `items[i].parse::<u64>()` as f64, with 0 for an error. A result `none` is a panic.
  unfoldable pub f64_item : Option Text → Option float.F64
  f64_item none = none
  f64_item (some t) = some (float.of_u64 (elim (parse_u64 t) [ none ↦ 0 | some n ↦ n ]))

  -- User, system and idle time of the items of a line.
  unfoldable pub times_of : List Text → Option (float.F64 × (float.F64 × float.F64))
  unfolding f64_item
  times_of items = do
    total_user ← f64_item (get_elem? items 1)
    total_user_low ← f64_item (get_elem? items 2)
    total_sys ← f64_item (get_elem? items 3)
    total_idle ← f64_item (get_elem? items 4)
    some (float.add total_user total_user_low, (total_sys, total_idle))

  -- `items[0] == "cpu"`, where no first item is a panic.
  unfoldable pub is_cpu : Option Text → Option Bool
  is_cpu none = none
  is_cpu (some t) = some (text_eq t (codes "cpu"))

  unfoldable pub zero_times : float.F64 × (float.F64 × float.F64)
  zero_times = (float.of_u64 0, (float.of_u64 0, float.of_u64 0))

  -- The first line that starts with the word cpu.
  unfoldable pub first_times : List Text → Option (float.F64 × (float.F64 × float.F64))
  unfolding times_of is_cpu zero_times
  first_times [] = some zero_times
  first_times (line ∷ rest) =
      let items = split_whitespace line in
      let next = first_times rest in
      if starts_with line (codes "cpu ")
      then is_cpu (get_elem? items 0) >>= (λ b. if b then times_of items else next)
      else next

  unfoldable pub get_process_times : Option Text → Option (float.F64 × (float.F64 × float.F64))
  unfolding first_times zero_times
  get_process_times none = some zero_times
  get_process_times (some text) = first_times (lines text)

-- The memory in all and the memory in use, from the total and the free memory that `sysinfo` gives;
-- `none` is its error.
unfoldable pub get_memory_usages : Option (ℕ × ℕ) → ℕ × ℕ
get_memory_usages none = (0, 0)
get_memory_usages (some (ram_total, ram_unused)) =
    (ram_total, wrap64 (ram_total + 2 ^ 64 - ram_unused))

-- The entries of a directory, `false` where one cannot be read.
unfoldable pub count_handles : List Bool → ℕ → ℕ
count_handles [] count = count
count_handles (fl ∷ rs) count = count_handles rs (if fl then wrap32 (count + 1) else count)

unfoldable pub get_handle_count : Option (List Bool) → ℕ
unfolding count_handles
get_handle_count none = 0
get_handle_count (some rs) = count_handles rs 0

-- `fetch_add` of a number that was read, or of nothing.
unfoldable pub fetch_add : ℕ → Option ℕ → ℕ
fetch_add n none = n
fetch_add n (some t) = wrap64 (n + t)

-- `String::substring` of the crate substring is a parameter, and `line.len()` is in bytes.
unfoldable pub char_len : ℕ → ℕ
char_len c = if ltb c 0x80 then 1 else if ltb c 0x800 then 2 else if ltb c 0x10000 then 3 else 4

unfoldable pub byte_len : Text → ℕ
unfolding char_len
byte_len [] = 0
byte_len (c ∷ s) = char_len c + byte_len s

module _ (substring : Text → ℕ → ℕ → Text) where
  unfoldable pub number_behind : Text → Text → Option ℕ
  unfolding byte_len
  number_behind key line = parse_u64 (substring line (byte_len key + 1) (byte_len line))

  unfoldable pub io_line : Text → ℕ × ℕ → ℕ × ℕ
  unfolding number_behind fetch_add
  io_line line (read_bytes, write_bytes) = (
    (if starts_with line (codes "read_bytes:")
        then fetch_add read_bytes (number_behind (codes "read_bytes:") line)
        else read_bytes),
    (if starts_with line (codes "write_bytes:")
        then fetch_add write_bytes (number_behind (codes "write_bytes:") line)
        else write_bytes),
  )

  unfoldable pub io_lines : List Text → ℕ × ℕ → ℕ × ℕ
  unfolding io_line
  io_lines [] counts = counts
  io_lines (line ∷ rest) counts = io_lines rest (io_line line counts)

  unfoldable pub get_io_counter : Option Text → ℕ × ℕ
  unfolding io_lines
  get_io_counter none = (0, 0)
  get_io_counter (some text) = io_lines (lines text) (0, 0)

-- `items[i].parse::<u64>()`; there are more than 10 items.
unfoldable pub u64_item : Option Text → Option ℕ
u64_item none = none
u64_item (some t) = parse_u64 t

-- Two numbers of a line: the second is not looked at where the first is none, and the first is
-- counted where the second is none.
unfoldable pub network_items : Option ℕ → Option ℕ → ℕ × ℕ → ℕ × ℕ
network_items none sent counts = counts
network_items (some t) none (read_bytes, write_bytes) = (wrap64 (read_bytes + t), write_bytes)
network_items (some t) (some u) (read_bytes, write_bytes) =
    (wrap64 (read_bytes + t), wrap64 (write_bytes + u))

unfoldable pub network_line : Text → ℕ × ℕ → ℕ × ℕ
unfolding network_items u64_item
network_line line counts =
    let items = split_whitespace line in
    if ltb 10 (length items)
    then network_items (u64_item (get_elem? items 1)) (u64_item (get_elem? items 9)) counts
    else counts

unfoldable pub network_lines : List Text → ℕ × ℕ → ℕ × ℕ
unfolding network_line
network_lines [] counts = counts
network_lines (line ∷ rest) counts = network_lines rest (network_line line counts)

unfoldable pub get_network_io_counter : Option Text → ℕ × ℕ
unfolding network_lines
get_network_io_counter none = (0, 0)
get_network_io_counter (some text) = network_lines (lines text) (0, 0)
