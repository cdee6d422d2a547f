-- ===== src/Ingest/Encode/Grown.antt =====
-- The same for the writers of lists, and for a round of `EncodeForLayout`.
use kv_index.Prelude.{
  ℕ, ◌+◌, ◌*◌, ◌≤◌, u32, ◌≡◌, refl, inl, inr, arith, List, [], ◌∷◌, ◌++◌, length, replicate,
  length-append, Option-cases,
}
use kv_index.Status.{Status, StatusOr-cases}
use kv_index.Base.ByteIo.{write_little_endian}
use kv_index.Base.ByteIo.Ref.{length-write_little_endian}
use kv_index.Schema.{FieldEncoding, fixed, arena, dictionary, list_dictionary, element_dictionary}
use kv_index.Schema.Layout.{FieldLayout, CompiledRowLayout, find_layout}
use kv_index.Model.EncodedRow.{EncodedRow}
use kv_index.Model.Value.{
  ListValue, int8_items, int32_items, int64_items, uint64_items, bool_items, string_items,
  list_bits,
}
use kv_index.Model.Write.{
  write_patterns, write_arena_list_field, write_element_dictionary_string_list_field, write_ids_ref,
  encode_scalar_list,
}
use kv_index.Ingest.ScalarField.{write_scalar_field_value, get_scalar}
use kv_index.Ingest.ListField.{
  get_items, write_refs_ref, write_string_refs, write_arena_string_list_field,
  write_list_dictionary_scalar_list, write_string_items, write_integer_items, write_items,
  write_list_field_value, push_elements,
}
use kv_index.Ingest.ListField.StringRefs.{write_string_refs-longer}
use kv_index.Ingest.Payload.{DecodedField}
use kv_index.Ingest.Encode.{encode_field}
use kv_index.Ingest.Encode.Longer.{
  ref_field-arena, list_dictionary-arena, payload-longer, scalar-longer, bool_items-longer,
}

integer_items-longer :
    (encoding : FieldEncoding) (f : FieldLayout) (v : ListValue) (e : EncodedRow)
    → length e.arena ≤ length (write_integer_items encoding f v e).1.arena
unfolding write_integer_items write_arena_list_field write_list_dictionary_scalar_list
integer_items-longer fixed f v e = omega arith
integer_items-longer arena f v e = elim (StatusOr-cases (encode_scalar_list v)) [
  | inr (s, bad) ↦ ground (arith, bad)
  | inl (payload, good) ↦ ground (arith, good, payload-longer f payload (length (list_bits v)) e)
]
integer_items-longer dictionary f v e = omega arith
integer_items-longer list_dictionary f v e = elim (StatusOr-cases (encode_scalar_list v)) [
  | inr (s, bad) ↦ ground (arith, bad)
  | inl (payload, good) ↦ ground (
    arith,
    good,
    list_dictionary-arena f (u32 (length e.scalar_list_dictionary)) (u32 (length (list_bits v)))
        (record e { scalar_list_dictionary = e.scalar_list_dictionary ++ payload ∷ [] }),
  )
]
integer_items-longer element_dictionary f v e = omega arith

length-write_patterns :
    (width : ℕ) (vs : List ℕ) (i offset : ℕ) (bytes : List ℕ)
    → length (write_patterns width vs i offset bytes).1 ≡ length bytes
unfolding write_patterns
length-write_patterns width [] i offset bytes = refl
length-write_patterns width (v ∷ vs) i offset bytes = ground (
  arith,
  length-write_little_endian width v bytes (offset + i * width),
  length-write_patterns width vs (i + 1) offset
      (write_little_endian width v bytes (offset + i * width)).1,
)

refs_ref-arena :
    (f : FieldLayout) (offset count : ℕ) (e : EncodedRow) (t : Status × List ℕ)
    → (write_refs_ref f offset count e t).1.arena ≡ t.1
unfolding write_refs_ref
refs_ref-arena f offset count e (s, bytes) = ground (
  arith,
  ref_field-arena f
      (record {
        offset = offset;
        byte_length = u32 (count * 16);
        element_count_or_flags = u32 count;
      })
      (record e { arena = bytes }),
)

ids_ref-arena :
    (f : FieldLayout) (offset count : ℕ) (e : EncodedRow) (t : Status × List ℕ)
    → (write_ids_ref f offset count e t).1.arena ≡ t.1
unfolding write_ids_ref
ids_ref-arena f offset count e (s, bytes) = ground (
  arith,
  ref_field-arena f
      (record {
        offset = offset;
        byte_length = u32 (count * 4);
        element_count_or_flags = u32 count;
      })
      (record e { arena = bytes }),
)

arena_strings-longer :
    (f : FieldLayout) (vs : List (List ℕ)) (e : EncodedRow)
    → length e.arena ≤ length (write_arena_string_list_field f vs e).1.arena
unfolding write_arena_string_list_field
arena_strings-longer f vs e =
    let blank : List ℕ = e.arena ++ replicate (length vs * 16) 0 in
    ground (
      arith,
      length-append e.arena (replicate (length vs * 16) 0),
      write_string_refs-longer vs 0 (length e.arena) blank,
      refs_ref-arena f (length e.arena) (length vs) e
          (write_string_refs vs 0 (length e.arena) blank),
    )

elements-longer :
    (f : FieldLayout) (ids : List ℕ) (e : EncodedRow)
    → length e.arena ≤ length (write_element_dictionary_string_list_field f ids e).1.arena
unfolding write_element_dictionary_string_list_field
elements-longer f ids e =
    let blank : List ℕ = e.arena ++ replicate (length ids * 4) 0 in
    ground (
      arith,
      length-append e.arena (replicate (length ids * 4) 0),
      length-write_patterns 4 ids 0 (length e.arena) blank,
      ids_ref-arena f (length e.arena) (length ids) e
          (write_patterns 4 ids 0 (length e.arena) blank),
    )

string_items-longer :
    (encoding : FieldEncoding) (f : FieldLayout) (vs : List (List ℕ)) (e : EncodedRow)
    → length e.arena ≤ length (write_string_items encoding f vs e).1.arena
unfolding write_string_items
string_items-longer fixed f vs e = omega arith
string_items-longer arena f vs e = arena_strings-longer f vs e
string_items-longer dictionary f vs e = omega arith
string_items-longer list_dictionary f vs e = ground (
  arith,
  list_dictionary-arena f (u32 (length e.string_list_dictionary)) (u32 (length vs))
      (record e { string_list_dictionary = e.string_list_dictionary ++ vs ∷ [] }),
)
string_items-longer element_dictionary f vs e =
    elim (StatusOr-cases (push_elements vs e.string_element_dictionary)) [
      | inr (s, bad) ↦ ground (arith, bad)
      | inl (r, good) ↦
          ground
            (arith, good, elements-longer f (r.0) (record e { string_element_dictionary = r.1 }))
    ]

items-longer :
    (f : FieldLayout) (v : ListValue) (e : EncodedRow)
    → length e.arena ≤ length (write_items f v e).1.arena
unfolding write_items
items-longer f (int8_items v) e = integer_items-longer f.encoding f (int8_items v) e
items-longer f (int32_items v) e = integer_items-longer f.encoding f (int32_items v) e
items-longer f (int64_items v) e = integer_items-longer f.encoding f (int64_items v) e
items-longer f (uint64_items v) e = integer_items-longer f.encoding f (uint64_items v) e
items-longer f (bool_items v) e = bool_items-longer f.encoding f v e
items-longer f (string_items v) e = string_items-longer f.encoding f v e

scalar_value-longer :
    (f : FieldLayout) (d : DecodedField) (e : EncodedRow)
    → length e.arena ≤ length (write_scalar_field_value f d e).1.arena
unfolding write_scalar_field_value
scalar_value-longer f d e = elim (Option-cases (get_scalar f.type d.value)) [
  | inl bad ↦ ground (arith, bad)
  | inr (v, good) ↦ ground (arith, good, scalar-longer f v e)
]

list_value-longer :
    (f : FieldLayout) (d : DecodedField) (e : EncodedRow)
    → length e.arena ≤ length (write_list_field_value f d e).1.arena
unfolding write_list_field_value
list_value-longer f d e = elim (Option-cases (get_items f.type d.value)) [
  | inl bad ↦ ground (arith, bad)
  | inr (v, good) ↦ ground (arith, good, items-longer f v e)
]

pub encode_field-longer :
    (layout : CompiledRowLayout) (d : DecodedField) (e : EncodedRow)
    → length e.arena ≤ length (encode_field layout d e).1.arena
unfolding encode_field
encode_field-longer layout d e = elim (Option-cases (find_layout d.field_id layout.fields)) [
  | inl absent ↦ ground (arith, absent)
  | inr (f, found) ↦ ground (arith, found, list_value-longer f d e, scalar_value-longer f d e)
]
