-- ===== src/Store/FrozenIndex/Lookup.antt =====
-- `FrozenPrimaryKeyIndexView`: reads of a slot, `Lookup` and `Entries`. A view holds bytes that
-- `Validate` accepted, so the unchecked reads of control bytes are in range.
use kv_index.Prelude.{
  ℕ, zero, suc, ◌+◌, ◌-◌, ltb, ◌==◌, bit_and, u64, not, if◌then◌else◌, Option, none, some, List, [],
  ◌∷◌, get_or,
}
use kv_index.Status.{StatusOr, ok, fail, ◌>>=◌, invalid_argument}
use kv_index.Base.Hash.{stable_hash64}
use kv_index.Store.FrozenIndex.{
  FrozenPrimaryKeyIndexView, FrozenPrimaryKeyIndexEntry, empty_control, h2, slot_offset,
}
use kv_index.Store.FrozenIndex.Header.{read_field}

unfoldable pub read_key : FrozenPrimaryKeyIndexView → ℕ → StatusOr ℕ
read_key view slot =
    if not (ltb slot view.metadata.capacity)
    then fail (invalid_argument "frozen primary-key index key slot is invalid")
    else read_field 8 view.bytes (slot_offset view.metadata.key_offset slot)

unfoldable pub read_row_offset : FrozenPrimaryKeyIndexView → ℕ → StatusOr ℕ
read_row_offset view slot =
    if not (ltb slot view.metadata.capacity)
    then fail (invalid_argument "frozen primary-key index row-offset slot is invalid")
    else read_field 8 view.bytes (slot_offset view.metadata.row_offset_offset slot)

-- The control byte of a slot.
unfoldable pub control_at : FrozenPrimaryKeyIndexView → ℕ → ℕ
control_at view slot = get_or view.bytes (view.metadata.control_offset + slot) 0

-- The next slot of a probe sequence.
abbrev pub next_slot : ℕ → ℕ → ℕ
next_slot mask slot = bit_and (u64 (slot + 1)) mask

-- The loop of `Lookup`: `left` slots remain to be scanned.
unfoldable pub lookup_loop :
    (view : FrozenPrimaryKeyIndexView) (primary_key h2_key mask left slot : ℕ) → StatusOr (Option ℕ)
lookup_loop view primary_key h2_key mask zero slot =
    fail (invalid_argument "frozen primary-key index lookup exhausted every slot")
lookup_loop view primary_key h2_key mask (suc left) slot =
    let rest = lookup_loop view primary_key h2_key mask left (next_slot mask slot) in
    let control = control_at view slot in
    let answer = read_row_offset view slot >>= (λ (row_offset : ℕ). ok (some row_offset)) in
    if control == empty_control
    then ok none
    else if control == h2_key
    then (do key ← read_key view slot; (if key == primary_key then answer else rest))
    else rest

unfoldable pub lookup : FrozenPrimaryKeyIndexView → ℕ → StatusOr (Option ℕ)
unfolding lookup_loop
lookup view primary_key =
    if view.metadata.capacity == 0
    then fail (invalid_argument "frozen primary-key index view is invalid")
    else (let hash = stable_hash64 primary_key view.metadata.hash_seed view.metadata.hash_version in
        let mask = view.metadata.capacity - 1 in
        lookup_loop view primary_key (h2 hash) mask view.metadata.capacity (bit_and hash mask))

-- The loop of `Entries`: `left` slots remain from `slot` on.
unfoldable pub entries_loop :
    (view : FrozenPrimaryKeyIndexView) (left slot : ℕ) → StatusOr (List FrozenPrimaryKeyIndexEntry)
entries_loop view zero slot = ok []
entries_loop view (suc left) slot =
    let rest = entries_loop view left (slot + 1) in
    if control_at view slot == empty_control then rest else (do
      key ← read_key view slot
      row_offset ← read_row_offset view slot
      more ← rest
      ok (record { primary_key = key; row_offset = row_offset } ∷ more))

unfoldable pub entries : FrozenPrimaryKeyIndexView → StatusOr (List FrozenPrimaryKeyIndexEntry)
unfolding entries_loop
entries view =
    if view.metadata.capacity == 0
    then fail (invalid_argument "frozen primary-key index view is invalid")
    else entries_loop view view.metadata.capacity 0
