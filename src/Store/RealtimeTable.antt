-- ===== src/Store/RealtimeTable.antt =====
-- src/store/realtime_delta.{h,cc}: `RealtimeDeltaAtomicTable`, a hash map of rows with the list of
-- all rows that were published. `Publish` and the scans hold `rows_mutex_`, so each is one step. The
-- map keeps a pointer to a row of the list; the flag `sealed_visible`, which is set in the list after
-- the map has the row, is read by the scan of the list alone.
pub mod Agrees
pub mod Boundary
pub mod Consistent
pub mod Reads
pub mod Visible
pub mod Newest
use kv_index.Prelude.{
  ℕ, ◌+◌, u64, ltb, ◌==◌, min, false, not, ◌||◌, if◌then◌else◌, Option, none, some, List, [], ◌∷◌,
  ◌++◌, length, take,
}
use kv_index.Prelude.Assoc.{find, emplace, assign}
use kv_index.Status.{
  Status, StatusOr, ok, error, fail, ok_status, ◌>>=◌, failed_precondition, invalid_argument,
  internal,
}
use kv_index.Types.{
  SourcePosition, newer, stale, idempotent, is_valid_source_position,
  classify_source_position_update,
}
use kv_index.Schema.Layout.{CompiledRowLayout}
use kv_index.Model.EncodedRow.{EncodedRow}
use kv_index.Model.Row.{Row, materialize_row}
use kv_index.Store.RealtimeMap.{
  RealtimeRowRef, RealtimeAtomicHashMap, publish_and_report, reserve_slot_for_testing,
}
use kv_index.Store.RealtimeMap as RealtimeMap

pub record RealtimeDeltaAtomicTable : Type 0 where
  pub layout : Option CompiledRowLayout
  pub rows_by_key : RealtimeAtomicHashMap
  pub rows : List RealtimeRowRef
  pub row_slot_bytes : ℕ
  pub payload_pool_bytes : ℕ

pub record RealtimeVisibleRow : Type 0 where
  pub primary_key : ℕ
  pub position : SourcePosition
  pub encoded : EncodedRow

-- The constructor.
unfoldable pub create :
    Option CompiledRowLayout → (capacity seed version : ℕ) → RealtimeDeltaAtomicTable
unfolding RealtimeMap.init
create layout capacity seed version = record {
  layout = layout;
  rows_by_key = RealtimeMap.init capacity seed version;
  rows = [];
  row_slot_bytes = 0;
  payload_pool_bytes = 0;
}

unfoldable pub string_bytes : List (List ℕ) → ℕ
string_bytes [] = 0
string_bytes (value ∷ values) = u64 (length value + string_bytes values)

unfoldable pub string_list_bytes : List (List (List ℕ)) → ℕ
string_list_bytes [] = 0
string_list_bytes (values ∷ lists) = u64 (string_bytes values + string_list_bytes lists)

unfoldable pub count_payload : EncodedRow → ℕ
unfolding string_bytes string_list_bytes
count_payload encoded = u64 (
    length encoded.arena
    + string_bytes encoded.string_dictionary
    + string_bytes encoded.scalar_list_dictionary
    + string_list_bytes encoded.string_list_dictionary
    + string_bytes encoded.string_element_dictionary)

-- `BuildRowRef`.
unfoldable pub build_row_ref :
    RealtimeDeltaAtomicTable → ℕ → SourcePosition → EncodedRow → StatusOr RealtimeRowRef
build_row_ref table primary_key position encoded = elim table.layout [
  | none ↦ fail (failed_precondition "realtime table has no row layout")
  | some layout ↦
      if not (is_valid_source_position position)
      then fail (invalid_argument "source position is invalid")
      else if not (encoded.schema_version == layout.schema_version)
          || not (encoded.layout_fingerprint == layout.layout_fingerprint)
      then fail (failed_precondition "encoded row metadata does not match realtime layout")
      else if not (length encoded.row_slot == layout.row_slot_size)
      then fail (invalid_argument "encoded row slot size does not match realtime layout")
      else elim (materialize_row layout encoded) [
        | error s ↦ fail s
        | ok row ↦ ok (record {
          primary_key = primary_key;
          position = position;
          encoded = some encoded;
          row_slot_bytes = length encoded.row_slot;
          payload_pool_bytes = count_payload encoded;
          sealed_visible = false;
        })
      ]
]

-- The part of `Publish` under the lock.
unfoldable pub publish_row :
    RealtimeDeltaAtomicTable → RealtimeRowRef → Status × RealtimeDeltaAtomicTable
publish_row table row =
    let (published, rows_by_key') =
      publish_and_report table.rows_by_key row.primary_key (some row) in
    elim published [
      | error s ↦ (s, record table { rows_by_key = rows_by_key'; rows = table.rows ++ row ∷ [] })
      | ok visible ↦ (
        ok_status,
        record table {
          rows_by_key = rows_by_key';
          rows = table.rows ++ record row { sealed_visible = visible } ∷ [];
          row_slot_bytes = u64 (table.row_slot_bytes + row.row_slot_bytes);
          payload_pool_bytes = u64 (table.payload_pool_bytes + row.payload_pool_bytes);
        },
      )
    ]

unfoldable pub publish :
    RealtimeDeltaAtomicTable → ℕ → SourcePosition → EncodedRow → Status × RealtimeDeltaAtomicTable
publish table primary_key position encoded =
    elim (build_row_ref table primary_key position encoded) [
      | error s ↦ (s, table)
      | ok row ↦ publish_row table row
    ]

unfoldable pub get : RealtimeDeltaAtomicTable → ℕ → StatusOr (Option Row)
get table primary_key = elim table.layout [
  | none ↦ fail (failed_precondition "realtime table has no row layout")
  | some layout ↦ elim (RealtimeMap.get table.rows_by_key primary_key) [
    | error s ↦ fail s
    | ok none ↦ ok none
    | ok (some row) ↦ elim row.encoded [
      | none ↦ fail (internal "realtime row ref has no encoded row")
      | some encoded ↦ ok (some (record { layout = layout; encoded = encoded }))
    ]
  ]
]

-- `CaptureCompactionBoundary`.
unfoldable pub capture_compaction_boundary : RealtimeDeltaAtomicTable → ℕ
capture_compaction_boundary table = length table.rows

-- One round of the first loop of `ScanVisibleRows`.
unfoldable pub see_row :
    List (ℕ × RealtimeRowRef) → RealtimeRowRef → StatusOr (List (ℕ × RealtimeRowRef))
see_row latest row =
    if not row.sealed_visible then ok latest else elim (find row.primary_key latest) [
      | none ↦ ok (emplace row.primary_key row latest)
      | some current ↦ elim (classify_source_position_update current.position row.position) [
        | error s ↦ fail s
        | ok newer ↦ ok (assign row.primary_key row latest)
        | ok stale ↦ ok latest
        | ok idempotent ↦ ok latest
      ]
    ]

unfoldable pub see_rows :
    List (ℕ × RealtimeRowRef) → List RealtimeRowRef → StatusOr (List (ℕ × RealtimeRowRef))
see_rows latest [] = ok latest
see_rows latest (row ∷ rows) = see_row latest row >>= λ latest'. see_rows latest' rows

-- The second loop.
unfoldable pub collect_visible : List (ℕ × RealtimeRowRef) → StatusOr (List RealtimeVisibleRow)
collect_visible [] = ok []
collect_visible (x ∷ xs) = elim (x.1.encoded) [
  | none ↦ fail (internal "sealed realtime row has no encoded row")
  | some encoded ↦ do
    more ← collect_visible xs
    ok (record { primary_key = x.0; position = x.1.position; encoded = encoded } ∷ more)
]

-- `std::sort` by primary key.
unfoldable pub insert_by_key :
    RealtimeVisibleRow → List RealtimeVisibleRow → List RealtimeVisibleRow
insert_by_key row [] = row ∷ []
insert_by_key row (x ∷ xs) =
    if ltb x.primary_key row.primary_key then x ∷ insert_by_key row xs else row ∷ x ∷ xs

unfoldable pub sort_by_key : List RealtimeVisibleRow → List RealtimeVisibleRow
sort_by_key [] = []
sort_by_key (row ∷ rows) = insert_by_key row (sort_by_key rows)

unfoldable pub scan_visible_rows : RealtimeDeltaAtomicTable → ℕ → StatusOr (List RealtimeVisibleRow)
scan_visible_rows table row_count = do
  latest ← see_rows [] (take (min row_count (length table.rows)) table.rows)
  visible ← collect_visible latest
  ok (sort_by_key visible)

-- `ReserveSlotForTesting`.
unfoldable pub reserve_slot : RealtimeDeltaAtomicTable → ℕ → Status × RealtimeDeltaAtomicTable
reserve_slot table primary_key =
    let (status, rows_by_key') = reserve_slot_for_testing table.rows_by_key primary_key in
    (status, record table { rows_by_key = rows_by_key' })
