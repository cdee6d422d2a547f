-- ===== src/Model/Frame/Items.antt =====
-- Reads of list fields under `Grows` and `KeepsSlot`.
use kv_index.Prelude.{
  ◌==◌, u32, ◌*◌, true, ◌≡◌, ℕ, zero, suc, ◌+◌, inl, inr, arith, List, ◌∷◌, length, get_elem?,
  Bool-cases, Option-cases,
}
use kv_index.Prelude.Bytes.{Extends, KeepsEntries}
use kv_index.Status.{◌>>=◌, ◌>>◌, ok, >>=-eq-ok, >>-eq-ok}
use kv_index.Base.ByteIo.{ValueRef16, read_little_endian, decode_value_ref16}
use kv_index.Schema.{
  FieldType, FieldEncoding, fixed, arena, dictionary, list_dictionary, element_dictionary,
  is_string,
}
use kv_index.Schema.Layout.{FieldLayout}
use kv_index.Schema.Layout.Placement.{HasWidth}
use kv_index.Model.EncodedRow.{EncodedRow}
use kv_index.Model.Value.{ListValue, string_items}
use kv_index.Model.Read.{
  read_ref, validate_ref_bounds, decode_string_refs, decode_arena_string_list,
}
use kv_index.Model.Read.Items.{
  read_elements, read_arena_list, read_dictionary_list, read_element_list, read_list,
  read_present_list,
}
use kv_index.Model.Frame.{
  Grows, KeepsSlot, read_little_endian-Extends, decode_value_ref16-Extends,
  validate_ref_bounds-Extends, read_ref-kept,
}

decode_string_refs-Extends :
    (a b : List ℕ)
    → Extends a b
    → (offset left i : ℕ) (vs : List (List ℕ)) → decode_string_refs a offset left i ≡ ok vs
    → decode_string_refs b offset left i ≡ ok vs
unfolding decode_string_refs
decode_string_refs-Extends a b e offset zero i vs h = h
decode_string_refs-Extends a b e offset (suc left) i vs h =
    let r = >>=-eq-ok (decode_value_ref16 a (offset + u32 (i * 16))) _ h in
    let inside = >>-eq-ok (validate_ref_bounds (r.0) (length a)) _ (r.2) in
    let rest = >>=-eq-ok (decode_string_refs a offset left (i + 1)) _ (inside.1) in
    let kept = validate_ref_bounds-Extends a b e (r.0) (inside.0) in
    rw
      (
        decode_value_ref16-Extends a b e (offset + u32 (i * 16)) (r.0) (r.1),
        kept.0,
        kept.1,
        decode_string_refs-Extends a b e offset left (i + 1) (rest.0) (rest.1),
      )
      (rest.2)

read_elements-Extends :
    (xs ys : List (List ℕ)) (a b : List ℕ)
    → Extends a b
    → KeepsEntries xs ys
    → (offset left i : ℕ) (vs : List (List ℕ)) → read_elements xs a offset left i ≡ ok vs
    → read_elements ys b offset left i ≡ ok vs
unfolding read_elements
read_elements-Extends xs ys a b e k offset zero i vs h = h
read_elements-Extends xs ys a b e k offset (suc left) i vs h =
    let id = >>=-eq-ok (read_little_endian 4 a (offset + i * 4)) _ h in
    elim (Option-cases (get_elem? xs (id.0))) [
      | inl no_entry ↦ ground (arith, no_entry, id.2)
      | inr (value, entry) ↦
          let tail : (read_elements xs a offset left (i + 1) >>= λ us. ok (value ∷ us)) ≡ ok vs =
            ground (arith, entry, id.2) in
          let rest =
            >>=-eq-ok (read_elements xs a offset left (i + 1)) (λ us. ok (value ∷ us)) tail in
          ground (
            arith,
            read_little_endian-Extends a b e 4 (offset + i * 4) (id.0) (id.1),
            k (id.0) value entry,
            read_elements-Extends xs ys a b e k offset left (i + 1) (rest.0) (rest.1),
            rest.2,
          )
    ]

decode_arena_string_list-kept :
    {a b : EncodedRow} (ref : ValueRef16) (v : ListValue)
    → Grows a b
    → decode_arena_string_list ref a ≡ ok v
    → decode_arena_string_list ref b ≡ ok v
unfolding decode_arena_string_list
decode_arena_string_list-kept {a} {b} ref v grows h =
    elim (Bool-cases (ref.byte_length == ref.element_count_or_flags * 16)) [
      | inr e ↦ ground (arith, e)
      | inl e ↦
          let sized : (validate_ref_bounds ref (length a.arena)
                >> (decode_string_refs a.arena ref.offset ref.element_count_or_flags 0 >>= λ values.
                    ok (string_items values)))
              ≡ ok v =
            rw e at h in
          let inside = >>-eq-ok (validate_ref_bounds ref (length a.arena)) _ sized in
          let kept = validate_ref_bounds-Extends a.arena b.arena grows.arena_grows ref (inside.0) in
          let strings =
            >>=-eq-ok (decode_string_refs a.arena ref.offset ref.element_count_or_flags 0)
              (λ values. ok (string_items values)) (inside.1) in
          rw
            (
              e,
              kept.0,
              decode_string_refs-Extends a.arena b.arena grows.arena_grows ref.offset
                  ref.element_count_or_flags 0 (strings.0) (strings.1),
            )
            (strings.2)
    ]

module _ {a b : EncodedRow} (grows : Grows a b) (type : FieldType) (ref : ValueRef16)
    (v : ListValue) where
  read_arena_list-kept : read_arena_list type ref a ≡ ok v → read_arena_list type ref b ≡ ok v
  unfolding read_arena_list decode_arena_string_list
  read_arena_list-kept h =
      let inside = >>-eq-ok (validate_ref_bounds ref (length a.arena)) _ h in
      let kept = validate_ref_bounds-Extends a.arena b.arena grows.arena_grows ref (inside.0) in
      elim (Bool-cases (is_string type)) [
        | inr e ↦ rw (e, kept.0, kept.1) (rw e at (inside.1))
        | inl e ↦
            ground
              (arith, e, kept.0, decode_arena_string_list-kept ref v grows (rw e at (inside.1)))
      ]

  read_dictionary_list-kept :
      read_dictionary_list type ref a ≡ ok v → read_dictionary_list type ref b ≡ ok v
  unfolding read_dictionary_list
  read_dictionary_list-kept h =
      elim (Option-cases (get_elem? a.string_list_dictionary ref.offset)) [
        | inl e ↦ elim (Option-cases (get_elem? a.scalar_list_dictionary ref.offset)) [
          | inl f ↦ ground (arith, e, f)
          | inr (y, f) ↦ ground (arith, e, f, grows.scalar_lists ref.offset y f)
        ]
        | inr (x, e) ↦ elim (Option-cases (get_elem? a.scalar_list_dictionary ref.offset)) [
          | inl f ↦ ground (arith, e, f, grows.string_lists ref.offset x e)
          | inr (y, f) ↦
              ground
                (arith, e, f, grows.string_lists ref.offset x e, grows.scalar_lists ref.offset y f)
        ]
      ]

  read_element_list-kept : read_element_list type ref a ≡ ok v → read_element_list type ref b ≡ ok v
  unfolding read_element_list
  read_element_list-kept h =
      elim (Bool-cases (ref.byte_length == u32 (ref.element_count_or_flags * 4))) [
        | inr e ↦ ground (arith, e)
        | inl e ↦
            let sized : (validate_ref_bounds ref (length a.arena)
                  >> (read_elements a.string_element_dictionary a.arena ref.offset
                        ref.element_count_or_flags 0
                      >>= λ values. ok (string_items values)))
                ≡ ok v =
              ground (arith, e) in
            let inside = >>-eq-ok (validate_ref_bounds ref (length a.arena)) _ sized in
            let kept =
              validate_ref_bounds-Extends a.arena b.arena grows.arena_grows ref (inside.0) in
            let strings =
              >>=-eq-ok
                (read_elements a.string_element_dictionary a.arena ref.offset
                  ref.element_count_or_flags 0)
                (λ values. ok (string_items values)) (inside.1) in
            let new =
              read_elements-Extends a.string_element_dictionary b.string_element_dictionary a.arena
                b.arena grows.arena_grows grows.elements ref.offset ref.element_count_or_flags 0
                (strings.0) (strings.1) in
            ground (arith, e, kept.0, new, strings.2)
      ]

  read_list-kept :
      (encoding : FieldEncoding)
      → read_list encoding type ref a ≡ ok v
      → read_list encoding type ref b ≡ ok v
  unfolding read_list
  read_list-kept fixed h = cc
  read_list-kept arena h = read_arena_list-kept h
  read_list-kept dictionary h = cc
  read_list-kept list_dictionary h = read_dictionary_list-kept h
  read_list-kept element_dictionary h = read_element_list-kept h

-- A present list field keeps its value.
pub read_present_list-kept :
    (field : FieldLayout) {a b : EncodedRow} (v : ListValue)
    → KeepsSlot field a b
    → HasWidth field
    → field.uses_ref ≡ true
    → Grows a b
    → read_present_list field a ≡ ok v
    → read_present_list field b ≡ ok v
unfolding read_present_list
read_present_list-kept field {a} {b} v kept wide refs grows h =
    let r = >>=-eq-ok (read_ref field a) _ h in
    rw (read_ref-kept field kept (ground arith), r.1)
      (read_list-kept grows field.type (r.0) v field.encoding (r.2))
