-- ===== src/Store/FrozenIndex/Validate.antt =====
-- `ValidateMetadata` and `FrozenPrimaryKeyIndexView::Validate`.
use kv_index.Prelude.{
  ℕ, zero, suc, ◌+◌, ◌-◌, ◌*◌, ◌/◌, ltb, ◌==◌, bit_and, u64, Bool, true, false, not, ◌&&◌, ◌||◌,
  if◌then◌else◌, List, [], ◌∷◌, length,
}
use kv_index.Status.{
  Status, StatusOr, ok, error, fail, ok_status, status_of, ◌>>=◌, ◌>>◌, require, invalid_argument,
}
use kv_index.Base.Bits.{is_power_of_two}
use kv_index.Base.Hash.{stable_hash64}
use kv_index.Store.FrozenIndex.{
  FrozenPrimaryKeyIndexMetadata, FrozenPrimaryKeyIndexView, default_group_width,
  serialized_header_size, empty_control, h2, has_bytes, checked_add, checked_mul,
}
use kv_index.Store.FrozenIndex.Header.{read_metadata}
use kv_index.Store.FrozenIndex.Lookup.{read_key, control_at, next_slot}

-- The checks of `ValidateMetadata`; `std::has_single_bit` is the test for a power of two.
unfoldable pub check_metadata : FrozenPrimaryKeyIndexMetadata → ℕ → StatusOr (Unit {0})
check_metadata metadata byte_size = do
  require (metadata.group_width == default_group_width)
      (invalid_argument "frozen primary-key index group width is invalid")
  require (not (metadata.capacity == 0 || not (is_power_of_two metadata.capacity)))
      (invalid_argument "frozen primary-key index capacity is invalid")
  require (not (ltb metadata.capacity metadata.group_width))
      (invalid_argument "frozen primary-key index capacity is smaller than group width")
  require (not (ltb (metadata.capacity / 8 * 7) metadata.row_count))
      (invalid_argument "frozen primary-key index capacity is too small for row count")
  control_bytes ← checked_add metadata.capacity metadata.group_width
  key_bytes ← checked_mul metadata.capacity 8
  row_offset_bytes ← checked_mul metadata.capacity 8
  expected_key_offset ← checked_add metadata.control_offset control_bytes
  expected_row_offset ← checked_add metadata.key_offset key_bytes
  expected_total ← checked_add metadata.row_offset_offset row_offset_bytes
  require
      (metadata.control_offset == serialized_header_size
        && metadata.key_offset == expected_key_offset
        && metadata.row_offset_offset == expected_row_offset
        && metadata.total_size == expected_total)
      (invalid_argument "frozen primary-key index section offsets are invalid")
  require (metadata.total_size == byte_size)
      (invalid_argument "frozen primary-key index byte size is invalid")
  require
      (has_bytes byte_size metadata.control_offset control_bytes
        && has_bytes byte_size metadata.key_offset key_bytes
        && has_bytes byte_size metadata.row_offset_offset row_offset_bytes)
      (invalid_argument "frozen primary-key index section is truncated")
  ok tt

unfoldable pub validate_metadata : FrozenPrimaryKeyIndexMetadata → ℕ → Status
unfolding check_metadata
validate_metadata metadata byte_size = status_of (check_metadata metadata byte_size)

-- The loop that compares the mirrored control bytes.
unfoldable pub check_mirror : FrozenPrimaryKeyIndexView → (left i : ℕ) → Status
check_mirror view zero i = ok_status
check_mirror view (suc left) i =
    let rest = check_mirror view left (i + 1) in
    if not (control_at view (view.metadata.capacity + i) == control_at view i)
    then invalid_argument "frozen primary-key index control bytes are not mirrored"
    else rest

-- The inner loop: whether `slot` is reached from the key's bucket with no empty slot on the way.
unfoldable pub check_reachable : FrozenPrimaryKeyIndexView → (mask slot left probe : ℕ) → Status
check_reachable view mask slot zero probe = ok_status
check_reachable view mask slot (suc left) probe =
    let rest = check_reachable view mask slot left (next_slot mask probe) in
    if probe == slot
    then ok_status
    else if control_at view probe == empty_control
    then invalid_argument "frozen primary-key index key is unreachable from its hash bucket"
    else rest

unfoldable pub contains : List ℕ → ℕ → Bool
contains [] key = false
contains (k ∷ ks) key = k == key || contains ks key

-- The checks of one occupied slot; the key is returned, to be added to those seen.
unfoldable pub check_slot : FrozenPrimaryKeyIndexView → List ℕ → ℕ → StatusOr ℕ
check_slot view seen_keys slot = do
  require (bit_and (control_at view slot) empty_control == 0)
      (invalid_argument "frozen primary-key index control byte is invalid")
  key ← read_key view slot
  require (not (contains seen_keys key))
      (invalid_argument "frozen primary-key index contains duplicate primary keys")
  let hash = stable_hash64 key view.metadata.hash_seed view.metadata.hash_version
  require (control_at view slot == h2 hash)
      (invalid_argument "frozen primary-key index control byte does not match key hash")
  let mask = view.metadata.capacity - 1
  check_reachable view mask slot view.metadata.capacity (bit_and hash mask)
  ok key

-- The loop over the slots; the result is `occupied_count`.
unfoldable pub check_slots :
    (view : FrozenPrimaryKeyIndexView) (seen_keys : List ℕ) (occupied_count left slot : ℕ)
    → StatusOr ℕ
check_slots view seen_keys occupied_count zero slot = ok occupied_count
check_slots view seen_keys occupied_count (suc left) slot =
    elim (control_at view slot == empty_control) [
      | true ↦ check_slots view seen_keys occupied_count left (slot + 1)
      | false ↦ elim (check_slot view seen_keys slot) [
        | ok key ↦ check_slots view (key ∷ seen_keys) (u64 (occupied_count + 1)) left (slot + 1)
        | error s ↦ fail s
      ]
    ]

unfoldable pub validate : List ℕ → StatusOr FrozenPrimaryKeyIndexView
unfolding check_mirror check_slots
validate bytes = do
  metadata ← read_metadata bytes
  validate_metadata metadata (length bytes)
  let view : FrozenPrimaryKeyIndexView = record { bytes = bytes; metadata = metadata }
  check_mirror view metadata.group_width 0
  occupied_count ← check_slots view [] 0 metadata.capacity 0
  require (occupied_count == metadata.row_count)
      (invalid_argument "frozen primary-key index row count does not match occupied slots")
  ok view
