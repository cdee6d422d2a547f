-- ===== src/Store/RealtimeMap/View.antt =====
-- What `Get` shows of a table with the invariant: a map from keys to rows.
use kv_index.Prelude.{
  ℕ, ◌<◌, ◌≡◌, ap, true, Option, none, some, arith, eq-cases, inl, inr, Bool-cases, Option-cases,
  get_or-replicate,
}
use kv_index.Prelude.Scan.{scan-StopsAt}
use kv_index.Status.{StatusOr, ok, error}
use kv_index.Store.RealtimeMap.{
  RealtimeRowRef, slot_at, empty_slot, RealtimeAtomicHashMap, init, probe_index, get,
}
use kv_index.Store.RealtimeMap.Scan.{is_occupied, holds, read_at, read_from, get_loop-eq-scan}
use kv_index.Store.RealtimeMap.Invariant.{Inv, init-Inv, found}

abbrev pub found_row : StatusOr (Option RealtimeRowRef) → Option RealtimeRowRef
found_row (ok row) = row
found_row (error s) = none

-- The row that a key has.
unfoldable pub view : RealtimeAtomicHashMap → ℕ → Option RealtimeRowRef
view m key = found_row (get m key)

abbrev pub HoldsRow : RealtimeAtomicHashMap → ℕ → RealtimeRowRef → Type 0
HoldsRow m key row =
    (i : ℕ) × (holds (slot_at m.slots i) key ≡ true) × ((slot_at m.slots i).latest_row ≡ some row)

module _ (m : RealtimeAtomicHashMap) (key : ℕ) where
  pub get-eq-found :
      0 < m.capacity → get m key ≡ read_from (probe_index m key) m.slots (found m key)
  unfolding get
  get-eq-found h = ground (arith, get_loop-eq-scan (probe_index m key) m.slots key m.capacity 0)

  get_zero : m.capacity ≡ 0 → get m key ≡ ok none
  unfolding get
  get_zero h = ground arith

  module _ (v : Inv m) where
    read_total : (i : ℕ) → (o : Option RealtimeRowRef) × (read_at (slot_at m.slots i) ≡ ok o)
    unfolding read_at
    read_total i = elim (Bool-cases (is_occupied (slot_at m.slots i).state)) [
      | inl h ↦ let r = v.rows i h in (some r.0, ground (arith, r.1))
      | inr h ↦ (none, ground arith)
    ]

    -- `Get` of a table with the invariant reports no error.
    pub get-total : get m key ≡ ok (view m key)
    unfolding view
    get-total = elim (eq-cases m.capacity 0) [
      | inl z ↦ ground (arith, get_zero z)
      | inr pos ↦ elim (Option-cases (found m key)) [
        | inl missing ↦ ground (arith, get-eq-found (omega arith))
        | inr (p, stop) ↦
            let r = read_total (probe_index m key p) in
            ground (arith, get-eq-found (omega arith), r.1)
      ]
    ]

    pub view-of-holds :
        (i : ℕ) (row : RealtimeRowRef)
        → holds (slot_at m.slots i) key ≡ true
        → (slot_at m.slots i).latest_row ≡ some row
        → view m key ≡ some row
    unfolding view read_at
    view-of-holds i row h e =
        let f = v.reach i key h in
        let s = scan-StopsAt _ m.capacity 0 f.0 f.1 in
        let at : slot_at m.slots (probe_index m key f.0) ≡ slot_at m.slots i =
          ap (slot_at m.slots) f.2 in
        ground (arith, get-eq-found (omega (arith, s.below)), f.1, at)

    pub holds-of-view : (row : RealtimeRowRef) → view m key ≡ some row → HoldsRow m key row
    unfolding view read_at
    holds-of-view row e = elim (eq-cases m.capacity 0) [
      | inl z ↦ absurd (ground (arith, get_zero z))
      | inr pos ↦ elim (Option-cases (found m key)) [
        | inl missing ↦ absurd (ground (arith, get-eq-found (omega arith)))
        | inr (p, stop) ↦ (
          probe_index m key p,
          ground (arith, get-eq-found (omega arith), (scan-StopsAt _ m.capacity 0 p stop).at),
          ground (arith, get-eq-found (omega arith)),
        )
      ]
    ]

-- A new table shows no row.
pub init-view : (capacity seed version key : ℕ) → view (init capacity seed version) key ≡ none
unfolding init view
init-view capacity seed version key = elim (Option-cases (view (init capacity seed version) key)) [
  | inl missing ↦ missing
  | inr (row, e) ↦
      let h =
        holds-of-view (init capacity seed version) key (init-Inv capacity seed version) row e in
      absurd (ground (arith, h.1, get_or-replicate capacity (h.0) empty_slot))
]
