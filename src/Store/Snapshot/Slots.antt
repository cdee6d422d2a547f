-- ===== src/Store/Snapshot/Slots.antt =====
-- The slots of a snapshot: each row is read from its own slot, with its own payload.
use native.Mathlib.Nat.{mul-mod_right, mul-div_cancel_left, mul-le-mul_left}
use kv_index.Prelude.{
  ℕ, zero, suc, ◌+◌, ◌*◌, ◌/◌, ◌≤◌, ◌<◌, ◌≡◌, ap, some, List, [], ◌∷◌, arith, length, get_elem?,
  take, drop,
}
use kv_index.Status.{ok}
use kv_index.Schema.Layout.{CompiledRowLayout}
use kv_index.Store.Snapshot.{
  OwnedSnapshotBacking, OwnedSnapshotRowPayload, row_of_payload, encoded_row_at,
}

-- A slot of the layout's size for each payload.
pub record HasSlots (backing : OwnedSnapshotBacking) (layout : CompiledRowLayout) : Type 0 where
  pub has_layout : backing.layout ≡ some layout
  pub wide : 0 < layout.row_slot_size
  pub whole : length backing.row_slot_bytes ≡ layout.row_slot_size * length backing.row_payloads

index-lt :
    (payloads : List OwnedSnapshotRowPayload) (i : ℕ) (payload : OwnedSnapshotRowPayload)
    → get_elem? payloads i ≡ some payload
    → i < length payloads
index-lt [] i payload h = cc
index-lt (p ∷ ps) zero payload h = omega arith
index-lt (p ∷ ps) (suc i) payload h = omega (arith, index-lt ps i payload h)

-- In a snapshot with a slot for each payload, `EncodedRowAt` of the offset of row `i` returns that
-- row: its slot of the span, with payload `i`.
pub encoded_row_at-slot :
    (backing : OwnedSnapshotBacking) (layout : CompiledRowLayout) (i : ℕ)
    (payload : OwnedSnapshotRowPayload)
    → HasSlots backing layout
    → get_elem? backing.row_payloads i ≡ some payload
    → encoded_row_at backing (layout.row_slot_size * i)
      ≡ ok (
          row_of_payload layout
            (take layout.row_slot_size (drop (layout.row_slot_size * i) backing.row_slot_bytes))
            payload)
unfolding encoded_row_at
encoded_row_at-slot backing layout i payload slots h =
    let width : ℕ = layout.row_slot_size in
    let below : i < length backing.row_payloads = index-lt backing.row_payloads i payload h in
    let room : width * i + width ≤ length backing.row_slot_bytes =
      let step : i + 1 ≤ length backing.row_payloads = omega arith in
      let grows : width * (i + 1) ≤ width * length backing.row_payloads =
        mul-le-mul_left width step in
      grind (arith, slots.whole, grows) in
    let row_index : width * i / width ≡ i = mul-div_cancel_left i slots.wide in
    ground (
      arith,
      slots.has_layout,
      slots.wide,
      room,
      mul-mod_right width i,
      ap (get_elem? backing.row_payloads) row_index,
      h,
    )
