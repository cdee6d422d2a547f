-- ===== src/Model/Write/Scalars.antt =====
-- The writers of scalar fields (src/model/row_storage.{h,cc}): the field then reads as the value.
use kv_index.Prelude.{
  ℕ, ◌+◌, ◌-◌, ◌≤◌, ltb, true, false, not, ◌||◌, ◌≡◌, refl, sym, ap, ◌∙◌, arith, List, length,
  subst,
}
use kv_index.Status.{ok, ok_status, is_ok}
use kv_index.Base.ByteIo.{ValueRef16, check_span_bounds, write_little_endian, read_little_endian}
use kv_index.Base.ByteIo.RoundTrip.{write_little_endian-WritesBack}
use kv_index.Base.ByteIo.Ref.{read_little_endian-eq}
use kv_index.Schema.{FieldType, is_string, field_type_size}
use kv_index.Schema.Layout.{FieldLayout}
use kv_index.Model.EncodedRow.{EncodedRow}
use kv_index.Model.Row.{field_present}
use kv_index.Model.Value.{ScalarValue, scalar_type, scalar_bits}
use kv_index.Model.Value.RoundTrip.{FitsScalar, scalar_bits-lt, scalar_of_bits-scalar_bits}
use kv_index.Model.Read.{has_bytes}
use kv_index.Model.Read.Scalar.{read_present_scalar}
use kv_index.Model.Write.{type_eq, finish_write, write_scalar_field}
use kv_index.Model.Write.Slot.{IsField, Wrote, finish_write-Wrote}
use kv_index.Model.Write.Effect.{Frames, Grows-refl, Wrote-Frames}

-- The field is present in the row and reads as the value.
abbrev pub ShowsScalar : FieldLayout → ScalarValue → EncodedRow → Type 0
ShowsScalar f v r = (field_present f r ≡ true) × (read_present_scalar f r ≡ ok v)

pub type_eq-eq : (a b : FieldType) → type_eq a b ≡ true → a ≡ b
type_eq-eq a b h = ground arith

module _ (f : FieldLayout) (v : ScalarValue) (e : EncodedRow) (field : IsField f)
    (fits : FitsScalar v) (done : is_ok (write_scalar_field f v e).0 ≡ true) where
  same_type : f.type ≡ scalar_type v
  unfolding write_scalar_field
  same_type = type_eq-eq f.type (scalar_type v) (ground arith)

  unshared : (f.is_list ≡ false) × (f.uses_ref ≡ false)
  unfolding write_scalar_field
  unshared = (ground arith, ground arith)

  inside : f.slot_offset + f.value_width ≤ length e.row_slot
  unfolding write_scalar_field
  inside = ground arith

  abbrev patterns : List ℕ
  patterns =
      (write_little_endian (field_type_size (scalar_type v)) (scalar_bits v) e.row_slot
        f.slot_offset).1

  fixed : is_string (scalar_type v) ≡ false
  fixed = ground (arith, same_type, unshared, field.by_ref)

  width : f.value_width ≡ field_type_size (scalar_type v)
  width = ground (arith, same_type, unshared, field.width)

  back :
      ((write_little_endian
          (field_type_size (scalar_type v))
          (scalar_bits v)
          e.row_slot
          f.slot_offset).0
        ≡ ok_status)
      × kv_index.Base.ByteIo.RoundTrip.WritesBack
          (field_type_size (scalar_type v))
          (scalar_bits v)
          e.row_slot
          f.slot_offset
          patterns
  back =
      write_little_endian-WritesBack (field_type_size (scalar_type v)) (scalar_bits v) e.row_slot
        f.slot_offset (omega (arith, width, inside))

  as_finish : write_scalar_field f v e ≡ finish_write f e (ok_status, patterns)
  unfolding write_scalar_field
  as_finish =
      let first : write_little_endian (field_type_size (scalar_type v)) (scalar_bits v) e.row_slot
            f.slot_offset
          ≡ (ok_status, patterns) =
        ground (arith, back.0) in
      let matches : (f.is_list || f.uses_ref || not (type_eq f.type (scalar_type v))) ≡ false =
        ground arith in
      let bounded : (ltb (length e.row_slot) f.slot_offset
            || ltb (length e.row_slot - f.slot_offset) f.value_width)
          ≡ false =
        ground (arith, inside) in
      rw (matches, bounded) (ap (finish_write f e) first)

  wrote : Wrote f e (write_scalar_field f v e).1 patterns
  wrote =
      subst (λ t. Wrote f e (t.1) patterns) (sym as_finish)
        (finish_write-Wrote f e patterns field back.1.length_kept
          (λ j h. back.1.outside j (omega (arith, width)))
          (subst (λ t. is_ok (t.0) ≡ true) as_finish done))

  pub write_scalar_field-Shows :
      Frames f e (write_scalar_field f v e).1 × ShowsScalar f v (write_scalar_field f v e).1
  unfolding read_present_scalar has_bytes
  write_scalar_field-Shows = (
    Wrote-Frames f e e (write_scalar_field f v e).1 patterns (Grows-refl e) refl wrote,
    (
      wrote.present,
      ground (
        arith,
        same_type,
        fixed,
        wrote.same_length,
        inside,
        read_little_endian-eq (field_type_size (scalar_type v))
            (write_scalar_field f v e).1.row_slot patterns f.slot_offset
            (wrote.same_length ∙ sym back.1.length_kept)
            (λ j p q. wrote.own_bytes j p (omega (arith, width))),
        back.1.reads,
        scalar_bits-lt v fixed fits,
        scalar_of_bits-scalar_bits v fixed fits,
      ),
    ),
  )
