-- ===== src/Windows/Table.antt =====
-- The loop of windows_performance.rs that asks for a table of connections, with a larger buffer each time,
-- until it fits. The answers of `GetExtendedTcpTable` are an argument.
use chimes_utils.Base.{ℕ, zero, suc, ◌+◌, ◌<◌, ◌≤◌, ◌≡◌, refl, Option, none, some, List, arith}
use chimes_utils.Windows.Network.{TcpRow}

-- The results of the call; the first one writes the size that is needed into `dw_size`.
pub data TableAnswer : Type 0 where
  error_insufficient_buffer : (dw_size : ℕ) → TableAnswer
  error_success : (ctt : List TcpRow) → TableAnswer
  other_error : TableAnswer

-- The loop, from the call number `turn` on. `ask turn dw_size` is the answer to the call with what
-- `HeapAlloc` gave for that size: the code does not test whether this is a buffer or null, and an answer
-- to null is one of these, too (the interface does not give success to null). The result is the table
-- that the code behind the loop reads. The outer `none` is the end of the fuel.
unfoldable pub load_table : (ℕ → ℕ → TableAnswer) → ℕ → ℕ → ℕ → Option (Option (List TcpRow))
load_table ask zero turn dw_size = none
load_table ask (suc fuel) turn dw_size = elim (ask turn dw_size) [
  | error_insufficient_buffer needed ↦ load_table ask fuel (turn + 1) needed
  | error_success ctt ↦ some (some ctt)
  | other_error ↦ some none
]

-- A buffer is refused for being too small only, and no table needs more than `max`.
pub record IsBounded (ask : ℕ → ℕ → TableAnswer) (max : ℕ) : Type 0 where
  pub enlarges :
      (turn dw_size needed : ℕ)
      → ask turn dw_size ≡ error_insufficient_buffer needed
      → (dw_size < needed) × (needed ≤ max)

-- The answers that end the loop, with the table that they give.
pub data Ends : TableAnswer → Option (List TcpRow) → Type 0 where
  given : (ctt : List TcpRow) → Ends (error_success ctt) (some ctt)
  refused : Ends other_error none

module _ (ask : ℕ → ℕ → TableAnswer) (max : ℕ) (h : IsBounded ask max) where
  -- The answer that a turn gets decides it.
  turn_ends :
      (fuel turn dw_size : ℕ) (answer : TableAnswer)
      → ask turn dw_size ≡ answer
      → ((needed : ℕ)
          → answer ≡ error_insufficient_buffer needed
          → (at size : ℕ) × (table : Option (List TcpRow)) × Ends (ask at size) table
            × (load_table ask fuel (turn + 1) needed ≡ some table))
      → (at size : ℕ) × (table : Option (List TcpRow)) × Ends (ask at size) table
        × (load_table ask (suc fuel) turn dw_size ≡ some table)
  unfolding load_table
  turn_ends fuel turn dw_size (error_insufficient_buffer needed) e next =
      let (at, size, table, ends, found) = next needed refl in
      (at, size, table, ends, rw (e, load_table) found)
  turn_ends fuel turn dw_size (error_success ctt) e next =
      (turn, dw_size, some ctt, rw e (given ctt), rw (e, load_table) refl)
  turn_ends fuel turn dw_size other_error e next =
      (turn, dw_size, none, rw e refused, rw (e, load_table) refl)

  -- If a buffer is refused only where more bytes are needed than it has, and never more than `max` are
  -- needed, `fuel + 1` calls are enough for the loop to end, where `max` is at most the first size and
  -- `fuel`. The loop then gives the table of an answer that the system gave, or none where that answer
  -- was another error.
  pub load_table-ends :
      (fuel turn dw_size : ℕ)
      → max ≤ dw_size + fuel
      → (at size : ℕ) × (table : Option (List TcpRow)) × Ends (ask at size) table
        × (load_table ask (suc fuel) turn dw_size ≡ some table)
  load_table-ends zero turn dw_size room =
      turn_ends zero turn dw_size (ask turn dw_size) refl
        (λ needed e. let (more, most) = h.enlarges turn dw_size needed e in absurd (omega arith))
  load_table-ends (suc fuel) turn dw_size room =
      turn_ends (suc fuel) turn dw_size (ask turn dw_size) refl (λ needed e.
        let (more, most) = h.enlarges turn dw_size needed e in
        load_table-ends fuel (turn + 1) needed (omega arith))
