-- ===== src/Store/RealtimeTable/Visible.antt =====
-- `ScanVisibleRows` against `Get`: after any publications, the rows of the one are those that the
-- other shows.
use kv_index.Prelude.{
  ℕ, ◌==◌, ◌≡◌, refl, sym, subst, true, false, Option, none, some, List, [], ◌∷◌, if◌then◌else◌,
  arith, eq-cases, inl, inr, Bool-cases, Option-cases, All,
}
use kv_index.Prelude.Assoc.{find, emplace, assign}
use kv_index.Status.{StatusOr-cases, ok}
use kv_index.Types.{newer, stale, idempotent, classify_source_position_update}
use kv_index.Model.EncodedRow.{EncodedRow}
use kv_index.Store.RealtimeMap.{RealtimeRowRef}
use kv_index.Store.RealtimeTable.{
  RealtimeVisibleRow, see_row, see_rows, collect_visible, insert_by_key, sort_by_key,
}

-- The row of a key in the result of a scan.
pub find_visible : ℕ → List RealtimeVisibleRow → Option RealtimeVisibleRow
find_visible key [] = none
find_visible key (row ∷ rows) = if row.primary_key == key then some row else find_visible key rows

-- What a scan reports of a row of the hash map.
abbrev pub reported : ℕ → Option RealtimeRowRef → Option RealtimeVisibleRow
reported key none = none
reported key (some row) = elim row.encoded [
  | none ↦ none
  | some encoded ↦ some (record { primary_key = key; position = row.position; encoded = encoded })
]

find_visible-insert :
    (key : ℕ) (row : RealtimeVisibleRow) (rows : List RealtimeVisibleRow)
    → find_visible key (insert_by_key row rows)
      ≡ (if row.primary_key == key then some row else find_visible key rows)
unfolding find_visible insert_by_key
find_visible-insert key row [] = refl
find_visible-insert key row (x ∷ rows) = ground (arith, find_visible-insert key row rows)

pub find_visible-sort :
    (key : ℕ) (rows : List RealtimeVisibleRow)
    → find_visible key (sort_by_key rows) ≡ find_visible key rows
unfolding find_visible sort_by_key
find_visible-sort key [] = refl
find_visible-sort key (row ∷ rows) =
    ground (arith, find_visible-insert key row (sort_by_key rows), find_visible-sort key rows)

-- The row has its encoded row.
abbrev pub HasEncoded : RealtimeRowRef → Type 0
HasEncoded row = (encoded : EncodedRow) × (row.encoded ≡ some encoded)

abbrev pub AllEncoded : List (ℕ × RealtimeRowRef) → Type 0
AllEncoded = All (λ x. HasEncoded (x.1))

pub collect_visible-find :
    (latest : List (ℕ × RealtimeRowRef))
    → AllEncoded latest
    → (rows : List RealtimeVisibleRow) × (collect_visible latest ≡ ok rows)
      × ((key : ℕ) → find_visible key rows ≡ reported key (find key latest))
unfolding collect_visible find_visible find
collect_visible-find [] h = ([], refl, λ key. refl)
collect_visible-find (x ∷ xs) h =
    let rest = collect_visible-find xs (h.1) in
    let encoded = h.0.0 in
    (
      record { primary_key = x.0; position = x.1.position; encoded = encoded } ∷ rest.0,
      ground (arith, h.0.1, rest.1),
      λ key. elim (eq-cases (x.0) key) [
        | inl same ↦ ground (arith, h.0.1)
        | inr other ↦ ground (arith, rest.2 key)
      ],
    )

emplace-AllEncoded :
    (key : ℕ) (row : RealtimeRowRef) (latest : List (ℕ × RealtimeRowRef))
    → HasEncoded row
    → AllEncoded latest
    → AllEncoded (emplace key row latest)
unfolding emplace
emplace-AllEncoded key row [] e h = (e, tt)
emplace-AllEncoded key row (x ∷ xs) e h = elim (Bool-cases (x.0 == key)) [
  | inl same ↦ subst AllEncoded (sym (found same)) h
  | inr other ↦ subst AllEncoded (sym (later other)) (h.0, emplace-AllEncoded key row xs e (h.1))
]
  where
    found : (x.0 == key) ≡ true → emplace key row (x ∷ xs) ≡ x ∷ xs
    found s = ground arith

    later : (x.0 == key) ≡ false → emplace key row (x ∷ xs) ≡ x ∷ emplace key row xs
    later s = ground arith

assign-AllEncoded :
    (key : ℕ) (row : RealtimeRowRef) (latest : List (ℕ × RealtimeRowRef))
    → HasEncoded row
    → AllEncoded latest
    → AllEncoded (assign key row latest)
unfolding assign
assign-AllEncoded key row [] e h = tt
assign-AllEncoded key row (x ∷ xs) e h = elim (Bool-cases (x.0 == key)) [
  | inl same ↦ subst AllEncoded (sym (found same)) (e, h.1)
  | inr other ↦ subst AllEncoded (sym (later other)) (h.0, assign-AllEncoded key row xs e (h.1))
]
  where
    found : (x.0 == key) ≡ true → assign key row (x ∷ xs) ≡ (x.0, row) ∷ xs
    found s = ground arith

    later : (x.0 == key) ≡ false → assign key row (x ∷ xs) ≡ x ∷ assign key row xs
    later s = ground arith

see_row-AllEncoded :
    (latest out : List (ℕ × RealtimeRowRef)) (row : RealtimeRowRef)
    → HasEncoded row
    → AllEncoded latest
    → see_row latest row ≡ ok out
    → AllEncoded out
unfolding see_row
see_row-AllEncoded latest out row e h s = elim (Bool-cases row.sealed_visible) [
  | inr hidden ↦ subst AllEncoded (ground arith) h
  | inl visible ↦ elim (Option-cases (find row.primary_key latest)) [
    | inl missing ↦
        subst AllEncoded (ground arith) (emplace-AllEncoded row.primary_key row latest e h)
    | inr (current, there) ↦
        elim (StatusOr-cases (classify_source_position_update current.position row.position)) [
          | inr (t, c) ↦ absurd (ground arith)
          | inl (newer, c) ↦
              subst AllEncoded (ground arith) (assign-AllEncoded row.primary_key row latest e h)
          | inl (stale, c) ↦ subst AllEncoded (ground arith) h
          | inl (idempotent, c) ↦ subst AllEncoded (ground arith) h
        ]
  ]
]

pub see_rows-AllEncoded :
    (rows : List RealtimeRowRef) (latest out : List (ℕ × RealtimeRowRef))
    → All HasEncoded rows
    → AllEncoded latest
    → see_rows latest rows ≡ ok out
    → AllEncoded out
unfolding see_rows
see_rows-AllEncoded [] latest out e h s = subst AllEncoded (ground arith) h
see_rows-AllEncoded (row ∷ rows) latest out e h s = elim (StatusOr-cases (see_row latest row)) [
  | inl (between, c) ↦
      see_rows-AllEncoded rows between out (e.1) (see_row-AllEncoded latest between row (e.0) h c)
        (ground arith)
  | inr (t, c) ↦ absurd (ground arith)
]
