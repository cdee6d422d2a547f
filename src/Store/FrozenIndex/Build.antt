-- ===== src/Store/FrozenIndex/Build.antt =====
-- `BuildFrozenPrimaryKeyIndex`.
pub mod Sections
use kv_index.Prelude.{
  ℕ, zero, suc, ◌+◌, ◌-◌, ltb, ◌==◌, bit_and, not, if◌then◌else◌, List, [], ◌∷◌, get_or, set,
  length, replicate,
}
use kv_index.Status.{
  Status, StatusOr, ok, error, fail, ok_status, is_ok, ◌>>=◌, ◌>>◌, require, invalid_argument,
  internal,
}
use kv_index.Base.Hash.{stable_hash64}
use kv_index.Base.ByteIo.{write_little_endian}
use kv_index.Store.FrozenIndex.{
  FrozenPrimaryKeyIndexEntry, FrozenPrimaryKeyIndexBuildOptions, FrozenPrimaryKeyIndexMetadata,
  serialized_header_size, empty_control, u64_max, h2, checked_add, checked_mul, slot_offset,
}
use kv_index.Store.FrozenIndex.Capacity.{calculate_capacity}
use kv_index.Store.FrozenIndex.Header.{write_header}
use kv_index.Store.FrozenIndex.Lookup.{next_slot}
use kv_index.Store.FrozenIndex.Validate.{contains}

-- The loop that rejects duplicate keys.
unfoldable pub check_unique : List ℕ → List FrozenPrimaryKeyIndexEntry → Status
check_unique seen_keys [] = ok_status
check_unique seen_keys (entry ∷ entries) =
    let rest = check_unique (entry.primary_key ∷ seen_keys) entries in
    if contains seen_keys entry.primary_key
    then invalid_argument "duplicate primary key in frozen index build"
    else rest

-- The sizes and offsets of the sections.
unfoldable pub build_metadata :
    ℕ → FrozenPrimaryKeyIndexBuildOptions → ℕ → StatusOr FrozenPrimaryKeyIndexMetadata
build_metadata row_count options capacity = do
  control_bytes ← checked_add capacity options.group_width
  key_bytes ← checked_mul capacity 8
  row_offset_bytes ← checked_mul capacity 8
  key_offset ← checked_add serialized_header_size control_bytes
  row_offset_offset ← checked_add key_offset key_bytes
  total_size ← checked_add row_offset_offset row_offset_bytes
  require (not (ltb u64_max total_size)) (invalid_argument "frozen primary-key index is too large")
  ok (record {
    row_count = row_count;
    capacity = capacity;
    hash_seed = options.hash_seed;
    hash_version = options.hash_version;
    group_width = options.group_width;
    control_offset = serialized_header_size;
    key_offset = key_offset;
    row_offset_offset = row_offset_offset;
    total_size = total_size;
  })

-- The loop that marks every control byte empty.
unfoldable pub clear_controls : (control_offset left i : ℕ) → List ℕ → List ℕ
clear_controls control_offset zero i bytes = bytes
clear_controls control_offset (suc left) i bytes =
    clear_controls control_offset left (i + 1) (set bytes (control_offset + i) empty_control)

-- The `while` loop that looks for an empty slot, on fuel. There are more slots than entries, so a
-- fuel of `capacity` is enough.
unfoldable pub free_slot : (bytes : List ℕ) (control_offset mask fuel slot : ℕ) → StatusOr ℕ
free_slot bytes control_offset mask zero slot = fail (internal "out of fuel")
free_slot bytes control_offset mask (suc fuel) slot =
    let rest = free_slot bytes control_offset mask fuel (next_slot mask slot) in
    if not (get_or bytes (control_offset + slot) 0 == empty_control) then rest else ok slot

-- A call that writes in place, as a fallible step.
abbrev pub written : Status × List ℕ → StatusOr (List ℕ)
written (s, bytes) = if is_ok s then ok bytes else fail s

unfoldable pub insert_entry :
    FrozenPrimaryKeyIndexMetadata → List ℕ → FrozenPrimaryKeyIndexEntry → StatusOr (List ℕ)
insert_entry metadata bytes entry = do
  let hash = stable_hash64 entry.primary_key metadata.hash_seed metadata.hash_version
  let mask = metadata.capacity - 1
  slot ← free_slot bytes metadata.control_offset mask metadata.capacity (bit_and hash mask)
  let controls = set bytes (metadata.control_offset + slot) (h2 hash)
  keys ←
      written
        (write_little_endian 8 entry.primary_key controls (slot_offset metadata.key_offset slot))
  written
      (write_little_endian 8 entry.row_offset keys (slot_offset metadata.row_offset_offset slot))

unfoldable pub insert_entries :
    FrozenPrimaryKeyIndexMetadata → List ℕ → List FrozenPrimaryKeyIndexEntry → StatusOr (List ℕ)
insert_entries metadata bytes [] = ok bytes
insert_entries metadata bytes (entry ∷ entries) = elim (insert_entry metadata bytes entry) [
  | ok bytes' ↦ insert_entries metadata bytes' entries
  | error s ↦ fail s
]

-- The loop that mirrors the first control bytes.
unfoldable pub mirror_controls : FrozenPrimaryKeyIndexMetadata → (left i : ℕ) → List ℕ → List ℕ
mirror_controls metadata zero i bytes = bytes
mirror_controls metadata (suc left) i bytes = mirror_controls metadata left (i + 1) (
    set bytes (metadata.control_offset + metadata.capacity + i)
      (get_or bytes (metadata.control_offset + i) 0))

unfoldable pub build_frozen_primary_key_index :
    List FrozenPrimaryKeyIndexEntry → FrozenPrimaryKeyIndexBuildOptions → StatusOr (List ℕ)
build_frozen_primary_key_index entries options = do
  capacity ← calculate_capacity (length entries) options.group_width
  check_unique [] entries
  metadata ← build_metadata (length entries) options capacity
  headed ← written (write_header (replicate metadata.total_size 0) metadata)
  let cleared =
      clear_controls metadata.control_offset (metadata.capacity + metadata.group_width) 0 headed
  filled ← insert_entries metadata cleared entries
  ok (mirror_controls metadata metadata.group_width 0 filled)
