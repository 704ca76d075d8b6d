-- ===== src/Windows/Laws.antt =====
-- What the scan of windows_performance.rs gives, and what the counter of the network sums up.
use chimes_utils.Base.{
  ℕ, ◌+◌, ◌≡◌, refl, sym, ap, ap₂, ◌∙◌, inl, inr, Bool, false, not, ◌||◌, Option, none, some, List,
  [], ◌∷◌, ◌++◌, map, append_assoc, append-nil, ltb, wrap64, if◌then◌else◌, Bool-cases, arith,
}
use chimes_utils.Windows.Network.{
  TcpRow, NetworkPerformanceItem, Estats, item_of, measured, can_collect, scan_rows_4, scan_rows_6,
  scan_network_performance_tcp4, scan_network_performance_tcp6, scan_network_performance, sum_items,
  get_network_io_counter,
}

-- The rows before the first one that the test refuses.
abbrev pub rows_before : (TcpRow → Bool) → List TcpRow → List TcpRow
rows_before test [] = []
rows_before test (row ∷ rows) = if test row then row ∷ rows_before test rows else []

-- A table that is not given has no rows.
abbrev pub rows_of : Option (List TcpRow) → List TcpRow
rows_of none = []
rows_of (some rows) = rows

module _ (win : Estats) where
  -- A connection of version 4 without a remote address is never refused.
  abbrev pub is_kept_4 : TcpRow → Bool
  is_kept_4 row = not (ltb 0 row.remote_addr) || can_collect win row

  abbrev pub measured_4 : Bool → TcpRow → NetworkPerformanceItem
  measured_4 resv row =
      if ltb 0 row.remote_addr then measured win row (item_of resv row) else item_of resv row

  abbrev pub measured_6 : Bool → TcpRow → NetworkPerformanceItem
  measured_6 resv row = measured win row (item_of resv row)

  step :
      (f : TcpRow → NetworkPerformanceItem) (items : List NetworkPerformanceItem) (row : TcpRow)
      (rows : List TcpRow)
      → (items ++ f row ∷ []) ++ map f rows ≡ items ++ map f (row ∷ rows)
  step f items row rows = append_assoc items (f row ∷ []) (map f rows)

  scan_rows_6-map :
      (resv : Bool) (rows : List TcpRow) (items : List NetworkPerformanceItem)
      → scan_rows_6 win resv rows items
        ≡ items ++ map (measured_6 resv) (rows_before (can_collect win) rows)
  unfolding scan_rows_6
  scan_rows_6-map resv [] items = sym (append-nil items)
  scan_rows_6-map resv (row ∷ rows) items = elim (Bool-cases (can_collect win row)) [
    | inl set ↦
        rw
          (
            set,
            scan_rows_6-map resv rows (items ++ measured_6 resv row ∷ []),
            step (measured_6 resv) items row (rows_before (can_collect win) rows),
          )
          refl
    | inr refused ↦ rw (refused, append-nil items) refl
  ]

  scan_rows_4-map :
      (resv : Bool) (rows : List TcpRow) (items : List NetworkPerformanceItem)
      → scan_rows_4 win resv rows items
        ≡ items ++ map (measured_4 resv) (rows_before is_kept_4 rows)
  unfolding scan_rows_4
  scan_rows_4-map resv [] items = sym (append-nil items)
  scan_rows_4-map resv (row ∷ rows) items =
      let rest = map (measured_4 resv) (rows_before is_kept_4 rows) in
      let next : (item : NetworkPerformanceItem)
          → item ≡ measured_4 resv row
          → scan_rows_4 win resv rows (items ++ item ∷ []) ≡ items ++ measured_4 resv row ∷ rest =
        λ item e.
          scan_rows_4-map resv rows (items ++ item ∷ [])
          ∙ append_assoc items (item ∷ []) rest
          ∙ ap (λ it. items ++ it ∷ rest) e in
      elim (Bool-cases (ltb 0 row.remote_addr)) [
        | inl remote ↦ elim (Bool-cases (can_collect win row)) [
          | inl set ↦ rw (remote, set) (next (measured win row (item_of resv row)) (rw remote refl))
          | inr refused ↦ rw (remote, refused, append-nil items) refl
        ]
        | inr near ↦ rw near (next (item_of resv row) (rw near refl))
      ]

tcp4-rows :
    (win : Estats) (resv : Bool) (table : Option (List TcpRow))
    → scan_network_performance_tcp4 win resv table
      ≡ map (measured_4 win resv) (rows_before (is_kept_4 win) (rows_of table))
unfolding scan_network_performance_tcp4
tcp4-rows win resv none = refl
tcp4-rows win resv (some rows) = scan_rows_4-map win resv rows []

tcp6-rows :
    (win : Estats) (resv : Bool) (table : Option (List TcpRow))
    → scan_network_performance_tcp6 win resv table
      ≡ map (measured_6 win resv) (rows_before (can_collect win) (rows_of table))
unfolding scan_network_performance_tcp6
tcp6-rows win resv none = refl
tcp6-rows win resv (some rows) = scan_rows_6-map win resv rows []

-- The scan gives an item for each row of version 6 before the first whose collection cannot be set,
-- and then one for each row of version 4 before the first that has a remote address and whose
-- collection cannot be set, in the order of the tables. Each item is measured, but a row of version 4
-- without a remote address has no statistics. A table that is not given has no rows.
pub scan_network_performance-map :
    (win_4 win_6 : Estats) (resv : Bool) (table_4 table_6 : Option (List TcpRow))
    → scan_network_performance win_4 win_6 resv table_4 table_6
      ≡ map (measured_6 win_6 resv) (rows_before (can_collect win_6) (rows_of table_6))
        ++ map (measured_4 win_4 resv) (rows_before (is_kept_4 win_4) (rows_of table_4))
unfolding scan_network_performance
scan_network_performance-map win_4 win_6 resv table_4 table_6 =
    ap₂ (λ x y. x ++ y) (tcp6-rows win_6 resv table_6) (tcp4-rows win_4 resv table_4)

abbrev pub total : (TcpRow → ℕ) → List TcpRow → ℕ
total f [] = 0
total f (row ∷ rows) = f row + total f rows

sum_items-total :
    (f : TcpRow → NetworkPerformanceItem) (rows : List TcpRow) (rest : List NetworkPerformanceItem)
    (a b : ℕ)
    → sum_items (map f rows ++ rest) (wrap64 a, wrap64 b)
      ≡ sum_items rest (
        wrap64 (a + total (λ row. (f row).bytes_in) rows),
        wrap64 (b + total (λ row. (f row).bytes_out) rows),
      )
unfolding sum_items
sum_items-total f [] rest a b =
    ap (sum_items rest) (ap₂ (λ x y. (x, y)) (omega arith) (omega arith))
sum_items-total f (row ∷ rows) rest a b =
    ap (sum_items (map f rows ++ rest)) (ap₂ (λ x y. (x, y)) (omega arith) (omega arith))
    ∙ sum_items-total f rows rest (a + (f row).bytes_in) (b + (f row).bytes_out)
    ∙ ap (sum_items rest) (ap₂ (λ x y. (x, y)) (omega arith) (omega arith))

sum_items-nil : (sums : ℕ × ℕ) → sum_items [] sums ≡ sums
unfolding sum_items
sum_items-nil sums = refl

-- The counter of the network is, modulo 2^64, the sum of the bytes of the connections that the scan
-- reaches: those of version 6 before the first that is refused, and those of version 4 likewise.
pub get_network_io_counter-total :
    (win_4 win_6 : Estats) (table_4 table_6 : Option (List TcpRow))
    → let rows_6 = rows_before (can_collect win_6) (rows_of table_6) in
      let rows_4 = rows_before (is_kept_4 win_4) (rows_of table_4) in
      get_network_io_counter win_4 win_6 table_4 table_6 ≡ (
        wrap64 (
            total (λ row. (measured_6 win_6 false row).bytes_in) rows_6
            + total (λ row. (measured_4 win_4 false row).bytes_in) rows_4),
        wrap64 (
            total (λ row. (measured_6 win_6 false row).bytes_out) rows_6
            + total (λ row. (measured_4 win_4 false row).bytes_out) rows_4),
      )
unfolding get_network_io_counter
get_network_io_counter-total win_4 win_6 table_4 table_6 =
    let rows_6 = rows_before (can_collect win_6) (rows_of table_6) in
    let rows_4 = rows_before (is_kept_4 win_4) (rows_of table_4) in
    let items_4 = map (measured_4 win_4 false) rows_4 in
    let in_6 = 0 + total (λ row. (measured_6 win_6 false row).bytes_in) rows_6 in
    let out_6 = 0 + total (λ row. (measured_6 win_6 false row).bytes_out) rows_6 in
    ap (λ items. sum_items items (0, 0))
      (scan_network_performance-map win_4 win_6 false table_4 table_6)
    ∙ sum_items-total (measured_6 win_6 false) rows_6 items_4 0 0
    ∙ ap (λ l. sum_items l (wrap64 in_6, wrap64 out_6)) (sym (append-nil items_4))
    ∙ sum_items-total (measured_4 win_4 false) rows_4 [] in_6 out_6
    ∙ sum_items-nil _
    ∙ ap₂ (λ x y. (x, y)) (omega arith) (omega arith)
