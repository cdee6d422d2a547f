-- ===== src/Model/Write/Refs.antt =====
-- `WriteValueRefField` (src/model/row_storage.cc): the field then holds the reference.
use kv_index.Prelude.{ℕ, ◌+◌, ◌≤◌, true, ◌≡◌, sym, ap, ◌∙◌, arith, List, length, subst}
use kv_index.Status.{ok, ok_status, is_ok}
use kv_index.Base.ByteIo.{ValueRef16, check_span_bounds, write_value_ref16}
use kv_index.Base.ByteIo.Ref.{FitsRef, write_value_ref16-outside, decode-write_value_ref16}
use kv_index.Schema.Layout.{FieldLayout}
use kv_index.Model.EncodedRow.{EncodedRow}
use kv_index.Model.Read.{has_bytes, read_ref}
use kv_index.Model.Write.{finish_write, write_value_ref_field}
use kv_index.Model.Write.Slot.{IsField, Wrote, finish_write-Wrote}
use kv_index.Model.Frame.{decode_value_ref16-eq}

-- The row `r` is `e` with the reference in the field.
pub record HoldsRef (f : FieldLayout) (ref : ValueRef16) (e r : EncodedRow) : Type 0 where
  pub slot : List ℕ
  pub wrote : Wrote f e r slot
  pub reads : read_ref f r ≡ ok ref

module _ (f : FieldLayout) (ref : ValueRef16) (e : EncodedRow) (field : IsField f)
    (small : FitsRef ref) (done : is_ok (write_value_ref_field f ref e).0 ≡ true) where
  refs : f.uses_ref ≡ true
  unfolding write_value_ref_field
  refs = ground arith

  wide : f.value_width ≡ 16
  wide = ground (arith, refs, field.width)

  fits : f.slot_offset + 16 ≤ length e.row_slot
  unfolding write_value_ref_field finish_write write_value_ref16 check_span_bounds
  fits = ground arith

  abbrev written : List ℕ
  written = (write_value_ref16 ref e.row_slot f.slot_offset).1

  as_finish : write_value_ref_field f ref e ≡ finish_write f e (ok_status, written)
  unfolding write_value_ref_field
  as_finish =
      let first : (write_value_ref16 ref e.row_slot f.slot_offset) ≡ (ok_status, written) =
        ground (arith, (decode-write_value_ref16 ref e.row_slot f.slot_offset fits small).0) in
      rw (refs) (ap (finish_write f e) first)

  wrote : Wrote f e (write_value_ref_field f ref e).1 written
  wrote =
      let around = write_value_ref16-outside ref e.row_slot f.slot_offset fits small in
      subst (λ t. Wrote f e (t.1) written) (sym as_finish)
        (finish_write-Wrote f e written field (around.0) (λ j h. around.1 j (omega (arith, wide)))
          (subst (λ t. is_ok (t.0) ≡ true) as_finish done))

  pub write_value_ref_field-HoldsRef : HoldsRef f ref e (write_value_ref_field f ref e).1
  unfolding read_ref has_bytes
  write_value_ref_field-HoldsRef = record {
    slot = written;
    wrote = wrote;
    reads =
        let around = write_value_ref16-outside ref e.row_slot f.slot_offset fits small in
        let same = wrote.same_length ∙ sym (around.0) in
        ground (
          arith,
          wrote.same_length,
          fits,
          decode_value_ref16-eq f.slot_offset (write_value_ref_field f ref e).1.row_slot written
              same (λ j p q. wrote.own_bytes j p (omega (arith, wide))),
          (decode-write_value_ref16 ref e.row_slot f.slot_offset fits small).1,
        );
  }
