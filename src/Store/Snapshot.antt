-- ===== src/Store/Snapshot.antt =====
-- src/store/snapshot.{h,cc}: rows in a span of slots with their payloads, found through a frozen index.
pub mod Slots
use kv_index.Prelude.{
  ℕ, ◌+◌, ◌-◌, ◌/◌, ◌%◌, ltb, ◌==◌, not, if◌then◌else◌, Option, none, some, List, [], ◌∷◌, length,
  get_elem?, take, drop,
}
use kv_index.Status.{StatusOr, ok, error, fail, ◌>>=◌, failed_precondition, invalid_argument}
use kv_index.Schema.Layout.{CompiledRowLayout}
use kv_index.Model.EncodedRow.{EncodedRow}
use kv_index.Model.Row.{Row, materialize_row}
use kv_index.Runtime.ShardState.{Layer}
use kv_index.Store.FrozenIndex.{FrozenPrimaryKeyIndexEntry, FrozenPrimaryKeyIndexView}
use kv_index.Store.FrozenIndex.Validate.{validate}
use kv_index.Store.FrozenIndex.Lookup.{lookup, entries}

pub record OwnedSnapshotRowPayload : Type 0 where
  pub arena : List ℕ
  pub string_dictionary : List (List ℕ)
  pub scalar_list_dictionary : List (List ℕ)
  pub string_list_dictionary : List (List (List ℕ))
  pub string_element_dictionary : List (List ℕ)

pub record SnapshotRow : Type 0 where
  pub primary_key : ℕ
  pub encoded : EncodedRow

-- `OwnedSnapshotBacking`; a null layout is `none`.
pub record OwnedSnapshotBacking : Type 0 where
  pub layout : Option CompiledRowLayout
  pub frozen_index_bytes : List ℕ
  pub row_slot_bytes : List ℕ
  pub row_payloads : List OwnedSnapshotRowPayload

-- A row from its slot and its payload.
abbrev pub row_of_payload : CompiledRowLayout → List ℕ → OwnedSnapshotRowPayload → EncodedRow
row_of_payload layout row_slot payload = record {
  schema_version = layout.schema_version;
  layout_fingerprint = layout.layout_fingerprint;
  row_slot = row_slot;
  arena = payload.arena;
  string_dictionary = payload.string_dictionary;
  scalar_list_dictionary = payload.scalar_list_dictionary;
  string_list_dictionary = payload.string_list_dictionary;
  string_element_dictionary = payload.string_element_dictionary;
}

-- `EncodedRowAt`.
unfoldable pub encoded_row_at : OwnedSnapshotBacking → ℕ → StatusOr EncodedRow
encoded_row_at backing row_offset = elim backing.layout [
  | none ↦ fail (failed_precondition "snapshot backing has no row layout")
  | some layout ↦
      let size = length backing.row_slot_bytes in
      if layout.row_slot_size == 0
      then fail (invalid_argument "snapshot row slot size is zero")
      else if ltb size row_offset
      then fail (invalid_argument "snapshot row offset is out of bounds")
      else if ltb (size - row_offset) layout.row_slot_size
      then fail (invalid_argument "snapshot row slot is truncated")
      else if not (row_offset % layout.row_slot_size == 0)
      then fail (invalid_argument "snapshot row offset is not slot aligned")
      else elim (get_elem? backing.row_payloads (row_offset / layout.row_slot_size)) [
        | none ↦ fail (invalid_argument "snapshot row payload is missing")
        | some payload ↦ ok (
            row_of_payload layout
              (take layout.row_slot_size (drop row_offset backing.row_slot_bytes)) payload)
      ]
]

-- The loop of `EnumerateSnapshotRows`.
unfoldable pub rows_at :
    OwnedSnapshotBacking → List FrozenPrimaryKeyIndexEntry → StatusOr (List SnapshotRow)
unfolding encoded_row_at
rows_at backing [] = ok []
rows_at backing (entry ∷ more) = do
  encoded ← encoded_row_at backing entry.row_offset
  rows ← rows_at backing more
  ok (record { primary_key = entry.primary_key; encoded = encoded } ∷ rows)

unfoldable pub enumerate_snapshot_rows : OwnedSnapshotBacking → StatusOr (List SnapshotRow)
enumerate_snapshot_rows backing = do
  index ← validate backing.frozen_index_bytes
  found ← entries index
  rows_at backing found

-- `ImmutableRowSnapshotView`: the backing, and its index as it was validated.
pub record ImmutableRowSnapshotView : Type 0 where
  pub backing : Option OwnedSnapshotBacking
  pub index : StatusOr FrozenPrimaryKeyIndexView

-- The constructor, with `ValidateBackingIndex`.
unfoldable pub open_view : Option OwnedSnapshotBacking → ImmutableRowSnapshotView
open_view none = record {
  backing = none;
  index = fail (failed_precondition "snapshot view has no backing");
}
open_view (some backing) = record {
  backing = some backing;
  index = validate backing.frozen_index_bytes;
}

-- The part of `Get` behind the lookup.
unfoldable pub read_row : OwnedSnapshotBacking → ℕ → StatusOr (Option Row)
unfolding encoded_row_at
read_row backing row_offset = encoded_row_at backing row_offset >>= λ encoded. elim backing.layout [
  | none ↦ fail (invalid_argument "compiled row layout must not be null")
  | some layout ↦ materialize_row layout encoded >>= λ row. ok (some row)
]

-- `Get`. A view without a backing has no valid index.
unfoldable pub get : ImmutableRowSnapshotView → ℕ → StatusOr (Option Row)
get view primary_key = view.index >>= λ index. lookup index primary_key >>= λ found. elim found [
  | none ↦ ok none
  | some row_offset ↦ elim view.backing [
    | none ↦ fail (failed_precondition "snapshot view has no backing")
    | some backing ↦ read_row backing row_offset
  ]
]

-- `FullSnapshotView` and `CompactDeltaSnapshot` as layers of a shard.
abbrev pub snapshot_layer : ImmutableRowSnapshotView → Layer Row
snapshot_layer view = record { get = get view }
