-- ===== src/Store/RealtimeMap.antt =====
-- src/store/realtime_delta.cc: `RealtimeAtomicHashMap`, an open-addressing table.
-- Its writers are serialised by `RealtimeDeltaAtomicTable::rows_mutex_`, so an operation is one
-- step from state to state here: the compare-and-swaps find what was loaded before them, and the
-- retries after a lost race do not happen. A row reference is immutable but for
-- `sealed_visible`, which the table never reads, so a pointer is the row it points to.
pub mod Scan
pub mod Probe
pub mod Onto
pub mod Update
pub mod Invariant
pub mod View
pub mod Publish
use kv_index.Prelude.{
  ℕ, zero, suc, ◌+◌, ◌-◌, ◌%◌, u64, ◌==◌, bit_and, if◌then◌else◌, Bool, true, false, not, Option,
  none, some, List, [], ◌∷◌, get_or, set, replicate,
}
use kv_index.Status.{
  Status, StatusOr, ok, error, fail, ok_status, status_of, check, require, internal,
  invalid_argument, unavailable, failed_precondition, ◌>>=◌,
}
use kv_index.Types.{
  SourcePosition, SourcePositionUpdateDecision, stale, idempotent, newer, is_valid_source_position,
  classify_source_position_update,
}
use kv_index.Base.Bits.{is_power_of_two}
use kv_index.Base.Hash.{stable_hash64}
use kv_index.Model.EncodedRow.{EncodedRow}

pub record RealtimeRowRef : Type 0 where
  pub primary_key : ℕ
  pub position : SourcePosition
  pub encoded : Option EncodedRow
  pub row_slot_bytes : ℕ
  pub payload_pool_bytes : ℕ
  pub sealed_visible : Bool

pub data SlotState : Type 0 where
  empty reserved occupied : SlotState

pub record Slot : Type 0 where
  pub state : SlotState
  pub primary_key : ℕ
  pub latest_row : Option RealtimeRowRef

abbrev pub empty_slot : Slot
empty_slot = record { state = empty; primary_key = 0; latest_row = none }

pub record RealtimeAtomicHashMap : Type 0 where
  pub slots : List Slot
  pub capacity : ℕ
  pub hash_seed : ℕ
  pub hash_version : ℕ
  pub unique_key_count : ℕ

-- The constructor.
unfoldable pub init : ℕ → ℕ → ℕ → RealtimeAtomicHashMap
init capacity hash_seed hash_version = record {
  slots = replicate capacity empty_slot;
  capacity = capacity;
  hash_seed = hash_seed;
  hash_version = hash_version;
  unique_key_count = 0;
}

-- The slot number that a hash has at a probe, for a capacity.
unfoldable pub reduce_hash : ℕ → ℕ → ℕ → ℕ
reduce_hash capacity hash probe =
    if is_power_of_two capacity
    then bit_and (u64 (hash + probe)) (capacity - 1)
    else u64 (hash + probe) % capacity

-- `ProbeIndex`.
unfoldable pub probe_index : RealtimeAtomicHashMap → ℕ → ℕ → ℕ
unfolding reduce_hash
probe_index m primary_key probe =
    reduce_hash m.capacity (stable_hash64 primary_key m.hash_seed m.hash_version) probe

-- `PublishExisting`: whether the row replaces the one of an occupied slot, and the slot after it.
unfoldable pub publish_existing : Slot → RealtimeRowRef → StatusOr Bool × Slot
publish_existing slot row_ref = elim slot.latest_row [
  | none ↦ (fail (internal "occupied realtime slot has no visible row"), slot)
  | some current ↦ elim (classify_source_position_update current.position row_ref.position) [
    | error s ↦ (fail s, slot)
    | ok newer ↦ (ok true, record slot { latest_row = some row_ref })
    | ok stale ↦ (ok false, slot)
    | ok idempotent ↦ (ok false, slot)
  ]
]

abbrev pub exhausted : Status
exhausted = failed_precondition "realtime hash map capacity exhausted"

abbrev pub slot_at : List Slot → ℕ → Slot
slot_at slots i = get_or slots i empty_slot

-- The loop of `PublishAndReport`: `left` probes remain, and `index` is `ProbeIndex` at the key.
unfoldable pub publish_loop :
    (index : ℕ → ℕ) (m : RealtimeAtomicHashMap) (primary_key : ℕ) (row_ref : RealtimeRowRef)
    (left probe : ℕ)
    → StatusOr Bool × RealtimeAtomicHashMap
publish_loop index m primary_key row_ref zero probe = (fail exhausted, m)
publish_loop index m primary_key row_ref (suc left) probe =
    let rest = publish_loop index m primary_key row_ref left (probe + 1) in
    let slot = slot_at m.slots (index probe) in
    elim slot.state [
      | reserved ↦ (fail (unavailable "realtime hash map slot is reserved"), m)
      | occupied ↦
          if slot.primary_key == primary_key
          then (let (result, slot') = publish_existing slot row_ref in
              (result, record m { slots = set m.slots (index probe) slot' }))
          else rest
      | empty ↦ (
        ok true,
        record m {
          slots =
              set m.slots (index probe)
                (record { state = occupied; primary_key = primary_key; latest_row = some row_ref });
          unique_key_count = u64 (m.unique_key_count + 1);
        },
      )
    ]

-- `PublishAndReport`; `none` is the null pointer.
unfoldable pub publish_and_report :
    RealtimeAtomicHashMap → ℕ → Option RealtimeRowRef → StatusOr Bool × RealtimeAtomicHashMap
publish_and_report m primary_key none =
    (fail (invalid_argument "realtime row ref must not be null"), m)
publish_and_report m primary_key (some row_ref) =
    if not (row_ref.primary_key == primary_key)
    then (fail (invalid_argument "realtime row ref primary key mismatch"), m)
    else if not (is_valid_source_position row_ref.position)
    then (fail (invalid_argument "source position is invalid"), m)
    else if m.capacity == 0
    then (fail exhausted, m)
    else publish_loop (probe_index m primary_key) m primary_key row_ref m.capacity 0

-- `Publish`.
unfoldable pub publish :
    RealtimeAtomicHashMap → ℕ → Option RealtimeRowRef → Status × RealtimeAtomicHashMap
publish m primary_key row_ref =
    let (result, m') = publish_and_report m primary_key row_ref in (status_of result, m')

-- The loop of `Get`.
unfoldable pub get_loop :
    (index : ℕ → ℕ) (slots : List Slot) (primary_key left probe : ℕ)
    → StatusOr (Option RealtimeRowRef)
get_loop index slots primary_key zero probe = ok none
get_loop index slots primary_key (suc left) probe =
    let rest = get_loop index slots primary_key left (probe + 1) in
    let slot = slot_at slots (index probe) in
    elim slot.state [
      | reserved ↦ ok none
      | empty ↦ ok none
      | occupied ↦ if not (slot.primary_key == primary_key) then rest else elim slot.latest_row [
        | none ↦ fail (internal "occupied realtime slot has no visible row")
        | some row ↦ ok (some row)
      ]
    ]

-- `Get`.
unfoldable pub get : RealtimeAtomicHashMap → ℕ → StatusOr (Option RealtimeRowRef)
get m primary_key =
    if m.capacity == 0
    then ok none
    else get_loop (probe_index m primary_key) m.slots primary_key m.capacity 0

-- The loop of `ReserveSlotForTesting`.
unfoldable pub reserve_loop :
    (index : ℕ → ℕ) (m : RealtimeAtomicHashMap) (primary_key left probe : ℕ)
    → Status × RealtimeAtomicHashMap
reserve_loop index m primary_key zero probe = (exhausted, m)
reserve_loop index m primary_key (suc left) probe =
    let rest = reserve_loop index m primary_key left (probe + 1) in
    let slot = slot_at m.slots (index probe) in
    elim slot.state [
      | reserved ↦ (unavailable "realtime hash map slot is reserved", m)
      | occupied ↦
          if slot.primary_key == primary_key
          then (failed_precondition "realtime hash map slot is occupied", m)
          else rest
      | empty ↦ (
        ok_status,
        record m { slots = set m.slots (index probe) (record slot { state = reserved }) },
      )
    ]

-- `ReserveSlotForTesting`.
unfoldable pub reserve_slot_for_testing : RealtimeAtomicHashMap → ℕ → Status × RealtimeAtomicHashMap
reserve_slot_for_testing m primary_key =
    if m.capacity == 0
    then (exhausted, m)
    else reserve_loop (probe_index m primary_key) m primary_key m.capacity 0
