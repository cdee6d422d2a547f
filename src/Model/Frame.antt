-- ===== src/Model/Frame.antt =====
-- What a writer of src/model/row_storage.cc leaves as it was for the reads of another field: the
-- field's bytes and presence bit, and all that stands in the arena and the dictionaries.
pub mod Items
use kv_index.Prelude.{
  ℕ, ◌+◌, ◌≤◌, ◌<◌, ltb, Bool, true, false, ◌≡◌, refl, ap, sym, ◌∙◌, inl, inr, arith, List, length,
  get_or, take, drop, Bool-cases, none, some, get_elem?, Option-cases,
}
use kv_index.Prelude.Bytes.{Extends, Extends-refl, Extends-trans, KeepsEntries, take-drop-eq}
use kv_index.Status.{
  StatusOr, Status, ok, error, is_ok, >>=-eq-ok, >>-eq-ok, StatusOr-cases, ◌>>=◌, ◌>>◌,
}
use kv_index.Base.ByteIo.{ValueRef16, check_span_bounds, read_little_endian, decode_value_ref16}
use kv_index.Base.ByteIo.Ref.{read_bytes-eq, read_little_endian-eq}
use kv_index.Schema.{
  FieldType, FieldEncoding, fixed, arena, dictionary, list_dictionary, element_dictionary,
  is_string, field_type_size,
}
use kv_index.Schema.Layout.{FieldLayout}
use kv_index.Schema.Layout.Placement.{HasWidth}
use kv_index.Model.EncodedRow.{EncodedRow}
use kv_index.Model.Row.{field_present}
use kv_index.Model.Value.{ScalarValue}
use kv_index.Model.Read.{validate_ref_bounds, read_ref, has_bytes}
use kv_index.Model.Read.Scalar.{read_string, read_present_scalar}

-- The arena and the dictionaries only grow.
pub record Grows (a b : EncodedRow) : Type 0 where
  pub arena_grows : Extends a.arena b.arena
  pub strings : KeepsEntries a.string_dictionary b.string_dictionary
  pub scalar_lists : KeepsEntries a.scalar_list_dictionary b.scalar_list_dictionary
  pub string_lists : KeepsEntries a.string_list_dictionary b.string_list_dictionary
  pub elements : KeepsEntries a.string_element_dictionary b.string_element_dictionary

-- A field's part of the slot is as it was.
pub record KeepsSlot (field : FieldLayout) (a b : EncodedRow) : Type 0 where
  pub same_length : length b.row_slot ≡ length a.row_slot
  pub same_bytes :
      (j : ℕ)
      → field.slot_offset ≤ j
      → j < field.slot_offset + field.value_width
      → get_or b.row_slot j 0 ≡ get_or a.row_slot j 0
  pub same_presence : field_present field b ≡ field_present field a

-- A read that fits in the shorter of two lists reads the same in the longer.
in_span :
    (size offset width : ℕ)
    → is_ok (check_span_bounds size offset width) ≡ true
    → offset + width ≤ size
unfolding check_span_bounds
in_span size offset width h = ground arith

module _ (a b : List ℕ) (longer : length a ≤ length b) where
  span_same :
      (offset width : ℕ)
      → offset + width ≤ length a
      → check_span_bounds (length b) offset width ≡ check_span_bounds (length a) offset width
  unfolding check_span_bounds
  span_same offset width fits = ground (arith, longer)

  module _ (offset : ℕ) where
    read_little_endian-range :
        (width : ℕ)
        → offset + width ≤ length a
        → ((j : ℕ) → offset ≤ j → j < offset + width → get_or b j 0 ≡ get_or a j 0)
        → read_little_endian width b offset ≡ read_little_endian width a offset
    unfolding read_little_endian
    read_little_endian-range width fits same = rw (
      span_same offset width fits,
      read_bytes-eq b a offset width 0 0 (λ j p q. same j (omega arith) (omega arith)),
    )

  pub decode_value_ref16-range :
      (offset : ℕ)
      → offset + 16 ≤ length a
      → ((j : ℕ) → offset ≤ j → j < offset + 16 → get_or b j 0 ≡ get_or a j 0)
      → decode_value_ref16 b offset ≡ decode_value_ref16 a offset
  unfolding decode_value_ref16
  decode_value_ref16-range offset fits same = rw (
    span_same offset 16 fits,
    read_little_endian-range offset 8 (omega arith) (λ j p q. same j (omega arith) (omega arith)),
    read_little_endian-range (offset + 8) 4 (omega arith)
        (λ j p q. same j (omega arith) (omega arith)),
    read_little_endian-range (offset + 12) 4 (omega arith)
        (λ j p q. same j (omega arith) (omega arith)),
  )

module _ (a b : List ℕ) (e : Extends a b) where
  pub read_little_endian-Extends :
      (width offset : ℕ) (v : ℕ)
      → read_little_endian width a offset ≡ ok v
      → read_little_endian width b offset ≡ ok v
  unfolding read_little_endian
  read_little_endian-Extends width offset v h =
      let fits : offset + width ≤ length a = in_span (length a) offset width (>>-eq-ok _ _ h).0 in
      read_little_endian-range a b e.longer offset width fits (λ j p q. e.same j (omega arith)) ∙ h

  pub decode_value_ref16-Extends :
      (offset : ℕ) (ref : ValueRef16)
      → decode_value_ref16 a offset ≡ ok ref
      → decode_value_ref16 b offset ≡ ok ref
  unfolding decode_value_ref16
  decode_value_ref16-Extends offset ref h =
      let fits : offset + 16 ≤ length a = in_span (length a) offset 16 (>>-eq-ok _ _ h).0 in
      decode_value_ref16-range a b e.longer offset fits (λ j p q. e.same j (omega arith)) ∙ h

  -- A reference inside the shorter list shows the same bytes in the longer.
  pub validate_ref_bounds-Extends :
      (ref : ValueRef16)
      → is_ok (validate_ref_bounds ref (length a)) ≡ true
      → (is_ok (validate_ref_bounds ref (length b)) ≡ true)
        × (take ref.byte_length (drop ref.offset b) ≡ take ref.byte_length (drop ref.offset a))
  unfolding validate_ref_bounds
  validate_ref_bounds-Extends ref h =
      let fits : ref.offset + ref.byte_length ≤ length a = ground arith in
      (
        ground (arith, e.longer),
        take-drop-eq ref.offset ref.byte_length a b fits (omega (arith, e.longer))
            (λ j p q. e.same j (omega arith)),
      )

pub decode_value_ref16-eq :
    (offset : ℕ) (a b : List ℕ)
    → length a ≡ length b
    → ((j : ℕ) → offset ≤ j → j < offset + 16 → get_or a j 0 ≡ get_or b j 0)
    → decode_value_ref16 a offset ≡ decode_value_ref16 b offset
unfolding decode_value_ref16
decode_value_ref16-eq offset a b same h = rw (
  same,
  read_little_endian-eq 8 a b offset same (λ j p q. h j (omega arith) (omega arith)),
  read_little_endian-eq 4 a b (offset + 8) same (λ j p q. h j (omega arith) (omega arith)),
  read_little_endian-eq 4 a b (offset + 12) same (λ j p q. h j (omega arith) (omega arith)),
)

module _ (field : FieldLayout) {a b : EncodedRow} (kept : KeepsSlot field a b) where
  pub read_ref-kept : 16 ≤ field.value_width → read_ref field b ≡ read_ref field a
  unfolding read_ref has_bytes
  read_ref-kept wide = ground (
    arith,
    kept.same_length,
    decode_value_ref16-eq field.slot_offset b.row_slot a.row_slot kept.same_length
        (λ j p q. kept.same_bytes j p (omega arith)),
  )

  -- The slot's part of a fixed-width value is read as before.
  fixed-kept :
      (width : ℕ)
      → width ≤ field.value_width
      → read_little_endian width b.row_slot field.slot_offset
        ≡ read_little_endian width a.row_slot field.slot_offset
  fixed-kept width fits =
      read_little_endian-eq width b.row_slot a.row_slot field.slot_offset kept.same_length
        (λ j p q. kept.same_bytes j p (omega arith))

read_string-kept :
    (encoding : FieldEncoding) (ref : ValueRef16) {a b : EncodedRow} (v : ScalarValue)
    → Grows a b
    → read_string encoding ref a ≡ ok v
    → read_string encoding ref b ≡ ok v
unfolding read_string
read_string-kept fixed ref v grows h = cc
read_string-kept arena ref {a} {b} v grows h =
    let old = >>-eq-ok (validate_ref_bounds ref (length a.arena)) _ h in
    let new = validate_ref_bounds-Extends a.arena b.arena grows.arena_grows ref (old.0) in
    rw (new.0, new.1) (old.1)
read_string-kept dictionary ref {a} {b} v grows h =
    elim (Option-cases (get_elem? a.string_dictionary ref.offset)) [
      | inl e ↦ ground (arith, e)
      | inr (s, e) ↦ ground (arith, e, grows.strings ref.offset s e)
    ]
read_string-kept list_dictionary ref v grows h = cc
read_string-kept element_dictionary ref v grows h = cc

-- A present scalar field keeps its value.
pub read_present_scalar-kept :
    (field : FieldLayout) {a b : EncodedRow} (v : ScalarValue)
    → KeepsSlot field a b
    → HasWidth field
    → (field.uses_ref ≡ is_string field.type)
    → Grows a b
    → read_present_scalar field a ≡ ok v
    → read_present_scalar field b ≡ ok v
unfolding read_present_scalar
read_present_scalar-kept field {a} {b} v kept wide refs grows h =
    elim (Bool-cases (is_string field.type)) [
      | inl e ↦
          let in_a : (read_ref field a >>= λ ref. read_string field.encoding ref a) ≡ ok v =
            rw e at h in
          let r = >>=-eq-ok (read_ref field a) _ in_a in
          rw (e, read_ref-kept field kept (ground arith), r.1)
            (read_string-kept field.encoding (r.0) v grows (r.2))
      | inr e ↦
          rw
            (e, kept.same_length, fixed-kept field kept (field_type_size field.type) (ground arith))
            (rw e at h)
    ]
