-- ===== src/Store/RealtimeMap/Scan.antt =====
-- The three probe loops of `RealtimeAtomicHashMap` stop at one slot: the first on the key's probe
-- sequence that is not occupied by another key.
use kv_index.Prelude.{
  ℕ, zero, suc, ◌+◌, u64, ◌≡◌, refl, Bool, true, false, not, ◌&&◌, Option, none, some, List, set,
  ◌==◌, arith,
}
use kv_index.Prelude.Scan.{scan}
use kv_index.Status.{
  Status, StatusOr, ok, fail, ok_status, internal, unavailable, failed_precondition,
}
use kv_index.Store.RealtimeMap.{
  RealtimeRowRef, Slot, SlotState, empty, reserved, occupied, RealtimeAtomicHashMap, slot_at,
  exhausted, publish_existing, publish_loop, get_loop, reserve_loop,
}

abbrev pub is_occupied : SlotState → Bool
is_occupied occupied = true
is_occupied _ = false

-- The slot holds the key.
abbrev pub holds : Slot → ℕ → Bool
holds slot key = is_occupied slot.state && slot.primary_key == key

-- The slot is occupied by another key, so a loop goes on.
abbrev pub passes : Slot → ℕ → Bool
passes slot key = is_occupied slot.state && not (slot.primary_key == key)

abbrev pub passes_at : (ℕ → ℕ) → List Slot → ℕ → ℕ → Bool
passes_at index slots key probe = passes (slot_at slots (index probe)) key

-- What each loop does at the slot where it stops.
unfoldable pub read_at : Slot → StatusOr (Option RealtimeRowRef)
read_at slot = elim slot.state [
  | occupied ↦ elim slot.latest_row [
    | none ↦ fail (internal "occupied realtime slot has no visible row")
    | some row ↦ ok (some row)
  ]
  | _ ↦ ok none
]

abbrev pub claimed : ℕ → RealtimeRowRef → Slot
claimed key row = record { state = occupied; primary_key = key; latest_row = some row }

unfoldable pub publish_at :
    ℕ → RealtimeAtomicHashMap → ℕ → RealtimeRowRef → StatusOr Bool × RealtimeAtomicHashMap
publish_at i m key row = elim (slot_at m.slots i).state [
  | reserved ↦ (fail (unavailable "realtime hash map slot is reserved"), m)
  | occupied ↦ (
    (publish_existing (slot_at m.slots i) row).0,
    record m { slots = set m.slots i (publish_existing (slot_at m.slots i) row).1 },
  )
  | empty ↦ (
    ok true,
    record m {
      slots = set m.slots i (claimed key row);
      unique_key_count = u64 (m.unique_key_count + 1);
    },
  )
]

unfoldable pub reserve_at : ℕ → RealtimeAtomicHashMap → Status × RealtimeAtomicHashMap
reserve_at i m = elim (slot_at m.slots i).state [
  | reserved ↦ (unavailable "realtime hash map slot is reserved", m)
  | occupied ↦ (failed_precondition "realtime hash map slot is occupied", m)
  | empty ↦ (
    ok_status,
    record m { slots = set m.slots i (record (slot_at m.slots i) { state = reserved }) },
  )
]

abbrev pub read_from : (ℕ → ℕ) → List Slot → Option ℕ → StatusOr (Option RealtimeRowRef)
read_from index slots none = ok none
read_from index slots (some p) = read_at (slot_at slots (index p))

abbrev pub publish_from :
    (ℕ → ℕ)
    → RealtimeAtomicHashMap
    → ℕ
    → RealtimeRowRef
    → Option ℕ
    → StatusOr Bool × RealtimeAtomicHashMap
publish_from index m key row none = (fail exhausted, m)
publish_from index m key row (some p) = publish_at (index p) m key row

abbrev pub reserve_from :
    (ℕ → ℕ) → RealtimeAtomicHashMap → Option ℕ → Status × RealtimeAtomicHashMap
reserve_from index m none = (exhausted, m)
reserve_from index m (some p) = reserve_at (index p) m

pub get_loop-eq-scan :
    (index : ℕ → ℕ) (slots : List Slot) (key left probe : ℕ)
    → get_loop index slots key left probe
      ≡ read_from index slots (scan (passes_at index slots key) left probe)
unfolding get_loop scan read_at
get_loop-eq-scan index slots key zero probe = refl
get_loop-eq-scan index slots key (suc left) probe =
    ground (arith, get_loop-eq-scan index slots key left (probe + 1))

pub publish_loop-eq-scan :
    (index : ℕ → ℕ) (m : RealtimeAtomicHashMap) (key : ℕ) (row : RealtimeRowRef) (left probe : ℕ)
    → publish_loop index m key row left probe
      ≡ publish_from index m key row (scan (passes_at index m.slots key) left probe)
unfolding publish_loop scan publish_at
publish_loop-eq-scan index m key row zero probe = refl
publish_loop-eq-scan index m key row (suc left) probe =
    ground (arith, publish_loop-eq-scan index m key row left (probe + 1))

pub reserve_loop-eq-scan :
    (index : ℕ → ℕ) (m : RealtimeAtomicHashMap) (key left probe : ℕ)
    → reserve_loop index m key left probe
      ≡ reserve_from index m (scan (passes_at index m.slots key) left probe)
unfolding reserve_loop scan reserve_at
reserve_loop-eq-scan index m key zero probe = refl
reserve_loop-eq-scan index m key (suc left) probe =
    ground (arith, reserve_loop-eq-scan index m key left (probe + 1))
