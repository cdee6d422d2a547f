-- ===== src/Examples/Snapshot.antt =====
-- A snapshot of two rows of two bytes.
use kv_index.Prelude.{ℕ, ◌≡◌, ◌*◌, refl, arith, some, [], ◌∷◌, take, drop}
use kv_index.Status.{ok}
use kv_index.Schema.Layout.{CompiledRowLayout}
use kv_index.Store.Snapshot.{
  OwnedSnapshotBacking, OwnedSnapshotRowPayload, row_of_payload, encoded_row_at,
}
use kv_index.Store.Snapshot.Slots.{HasSlots, encoded_row_at-slot}

abbrev layout : CompiledRowLayout
layout = record {
  schema_version = 1;
  layout_fingerprint = 77;
  presence_bitmap_bytes = 8;
  fixed_area_offset = 8;
  ref_area_offset = 8;
  row_slot_size = 2;
  fields = [];
}

abbrev payload : ℕ → OwnedSnapshotRowPayload
payload n = record {
  arena = n ∷ [];
  string_dictionary = [];
  scalar_list_dictionary = [];
  string_list_dictionary = [];
  string_element_dictionary = [];
}

abbrev backing : OwnedSnapshotBacking
backing = record {
  layout = some layout;
  frozen_index_bytes = [];
  row_slot_bytes = 1 ∷ 2 ∷ 3 ∷ 4 ∷ [];
  row_payloads = payload 10 ∷ payload 20 ∷ [];
}

backing-HasSlots : HasSlots backing layout
backing-HasSlots = record { has_layout = refl; wide = omega arith; whole = refl }

encoded_row_at-slot_example :
    encoded_row_at backing (2 * 1)
    ≡ ok (row_of_payload layout (take 2 (drop (2 * 1) (1 ∷ 2 ∷ 3 ∷ 4 ∷ []))) (payload 20))
encoded_row_at-slot_example =
    encoded_row_at-slot backing layout 1 (payload 20) backing-HasSlots refl
