-- ===== src/Examples/RealtimeMap.antt =====
-- Publications in a table of four slots.
use kv_index.Store.RealtimeMap.Onto.{probe_index-onto}
use kv_index.Prelude.{ℕ, ◌≡◌, refl, pos, false, none, some, Bool, ◌<◌, arith}
use kv_index.Status.{StatusOr, ok, fail}
use kv_index.Types.{is_valid_source_position, classify_source_position_update}
use kv_index.Store.RealtimeMap.{
  RealtimeRowRef, RealtimeAtomicHashMap, init, publish_and_report, publish_loop, get_loop, get,
  probe_index, publish_existing, exhausted, slot_at, empty,
}
use kv_index.Base.Hash.{stable_hash64}
use kv_index.Base.Bits.{is_power_of_two}
use kv_index.Store.RealtimeMap.Invariant.{init-Inv}
use kv_index.Store.RealtimeMap.Publish.Rule.{Published}
use kv_index.Store.RealtimeMap.Publish.{publish_and_report-Published}

abbrev row_at : ℕ → ℕ → RealtimeRowRef
row_at key offset = record {
  primary_key = key;
  position = record { partition = pos 0; offset = pos offset };
  encoded = none;
  row_slot_bytes = 16;
  payload_pool_bytes = 0;
  sealed_visible = false;
}

abbrev one_row : StatusOr Bool × RealtimeAtomicHashMap
one_row = publish_and_report (init 4 0 1) 7 (some (row_at 7 3))

one_row-Published : Published (init 4 0 1) 7 (row_at 7 3) one_row
unfolding is_valid_source_position
one_row-Published =
    publish_and_report-Published (init 4 0 1) 7 (row_at 7 3) (init-Inv 4 0 1) refl refl

-- A newer row of the same key.
publish_and_report-Published_example :
    Published one_row.1 7 (row_at 7 8) (publish_and_report one_row.1 7 (some (row_at 7 8)))
unfolding is_valid_source_position
publish_and_report-Published_example =
    publish_and_report-Published one_row.1 7 (row_at 7 8) one_row-Published.inv refl refl

newer_row_found :
    get (publish_and_report one_row.1 7 (some (row_at 7 8))).1 7 ≡ ok (some (row_at 7 8))
unfolding publish_and_report publish_loop get get_loop init probe_index publish_existing
    classify_source_position_update stable_hash64 is_power_of_two
newer_row_found = refl

probe_index-onto_example : (p : ℕ) × (p < 4) × (probe_index (init 4 0 1) 7 p ≡ 2)
unfolding init
probe_index-onto_example = probe_index-onto (init 4 0 1) 7 2 2 refl (omega arith) (omega arith)

-- Of a table of three slots, which is no power of two, the key whose hash is 2 ^ 64 - 1 probes one slot
-- twice and another never: it is refused although the third slot is empty.
abbrev two_of_three : RealtimeAtomicHashMap
two_of_three =
    (publish_and_report (publish_and_report (init 3 0 0) 3 (some (row_at 3 1))).1 0
      (some (row_at 0 1))).1

free_slot_missed :
    (publish_and_report two_of_three 3558559446808474027 (some (row_at 3558559446808474027 1))).0
    ≡ fail exhausted
unfolding publish_and_report publish_loop init probe_index publish_existing
    classify_source_position_update stable_hash64 is_power_of_two is_valid_source_position
free_slot_missed = refl

third_slot_empty : (slot_at two_of_three.slots 2).state ≡ empty
unfolding publish_and_report publish_loop init probe_index publish_existing
    classify_source_position_update stable_hash64 is_power_of_two is_valid_source_position
third_slot_empty = refl
