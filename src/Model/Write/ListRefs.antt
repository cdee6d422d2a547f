-- ===== src/Model/Write/ListRefs.antt =====
-- The writers of list fields (src/model/row_storage.{h,cc}) but for the lists of strings in the arena.
use kv_index.Prelude.{
  ℕ, ◌^◌, ◌<◌, u32, true, false, ◌≡◌, refl, sym, ap, ◌∙◌, arith, List, ◌++◌, length, subst,
  length-append,
}
use kv_index.Prelude.Bytes.{Extends-append, take-drop-append}
use kv_index.Status.{ok, is_ok}
use kv_index.Base.ByteIo.{ValueRef16}
use kv_index.Schema.{FieldType, arena, list_dictionary, is_string}
use kv_index.Schema.Layout.{FieldLayout}
use kv_index.Model.EncodedRow.{EncodedRow}
use kv_index.Model.Row.{field_present}
use kv_index.Model.Value.{ListValue, list_type, list_bits}
use kv_index.Model.Value.Lists.{FitsItems, items_size, items_count}
use kv_index.Model.Read.{validate_ref_bounds, decode_scalar_list}
use kv_index.Model.Read.Items.{read_list, read_arena_list, read_present_list}
use kv_index.Model.Write.{
  write_value_ref_field, write_arena_list_field, write_list_dictionary_field,
}
use kv_index.Model.Write.Slot.{IsField}
use kv_index.Model.Write.Refs.{HoldsRef, write_value_ref_field-HoldsRef}
use kv_index.Model.Write.Effect.{Frames, Wrote-Frames}
use kv_index.Model.Write.Scalars.{type_eq-eq}
use kv_index.Model.Write.Strings.{encoding_eq-eq, grow_arena}
use kv_index.Model.Write.ScalarLists as ScalarLists

-- The field is present in the row and reads as the list.
abbrev pub ShowsItems : FieldLayout → ListValue → EncodedRow → Type 0
ShowsItems f v r = (field_present f r ≡ true) × (read_present_list f r ≡ ok v)

abbrev pub payload_ref : List ℕ → ℕ → EncodedRow → ValueRef16
payload_ref payload count e = record {
  offset = length e.arena;
  byte_length = u32 (length payload);
  element_count_or_flags = u32 count;
}

abbrev pub with_payload : List ℕ → EncodedRow → EncodedRow
with_payload payload e = record e { arena = e.arena ++ payload }

-- A payload appended to the arena, with a reference to it in the field.
module _ (f : FieldLayout) (payload : List ℕ) (count : ℕ) (e : EncodedRow) (field : IsField f)
    (small : length e.arena < 2 ^ 64) (sized : length payload < 2 ^ 32) (few : count < 2 ^ 32) where
  abbrev ref : ValueRef16
  ref = payload_ref payload count e

  abbrev grown : EncodedRow
  grown = with_payload payload e

  pub payload-Shows :
      (v : ListValue)
      → is_string f.type ≡ false
      → f.encoding ≡ arena
      → decode_scalar_list f.type payload count ≡ ok v
      → is_ok (write_value_ref_field f ref grown).0 ≡ true
      → Frames f e (write_value_ref_field f ref grown).1
        × ShowsItems f v (write_value_ref_field f ref grown).1
  unfolding read_present_list read_list read_arena_list validate_ref_bounds
  payload-Shows v fixed in_arena decodes done =
      let holds =
        write_value_ref_field-HoldsRef f ref grown field
          (record { offset_fits = small; length_fits = omega arith; count_fits = omega arith })
          done in
      (
        Wrote-Frames f e grown (write_value_ref_field f ref grown).1 holds.slot
            (grow_arena e (e.arena ++ payload) (Extends-append e.arena payload)) refl holds.wrote,
        (
          holds.wrote.present,
          ground (
            arith,
            fixed,
            in_arena,
            holds.reads,
            ap (λ (r : EncodedRow). r.arena) holds.wrote.slot_only,
            length-append e.arena payload,
            take-drop-append e.arena payload,
            decodes,
          ),
        ),
      )

-- A list of integers in the arena.
pub write_arena_list_field-Shows :
    (f : FieldLayout) (v : ListValue) (e : EncodedRow)
    → IsField f
    → FitsItems v
    → length e.arena < 2 ^ 64
    → is_ok (write_arena_list_field f v e).0 ≡ true
    → Frames f e (write_arena_list_field f v e).1 × ShowsItems f v (write_arena_list_field f v e).1
unfolding write_arena_list_field
write_arena_list_field-Shows f v e field fits small done =
    let same : f.type ≡ list_type v = type_eq-eq f.type (list_type v) (ground arith) in
    let in_arena : f.encoding ≡ arena = encoding_eq-eq f.encoding arena (ground arith) in
    let fixed : is_string (list_type v) ≡ false = ground arith in
    let payload : List ℕ = ScalarLists.encoded_bytes v in
    let count : ℕ = length (list_bits v) in
    let size : length payload < 2 ^ 32 =
      omega (arith, ScalarLists.length-encoded_bytes v fixed fits, items_size v fixed fits) in
    let few : count < 2 ^ 32 = omega (arith, items_count v fits) in
    let as_ref : write_arena_list_field f v e
        ≡ write_value_ref_field f (payload_ref payload count e) (with_payload payload e) =
      ground (arith, ScalarLists.encode_scalar_list-out v fixed fits) in
    let decodes : decode_scalar_list f.type payload count ≡ ok v =
      ap (λ (t : FieldType). decode_scalar_list t payload count) same
      ∙ ScalarLists.decode-encode_scalar_list v fixed fits in
    subst (λ t. Frames f e (t.1) × ShowsItems f v (t.1)) (sym as_ref)
      (payload-Shows f payload count e field small size few v (ground (arith, same)) in_arena
        decodes (subst (λ t. is_ok (t.0) ≡ true) as_ref done))

-- A reference to an entry of a dictionary of lists.
pub write_list_dictionary_field-HoldsRef :
    (f : FieldLayout) (id count : ℕ) (e : EncodedRow)
    → IsField f
    → id < 2 ^ 32
    → count < 2 ^ 32
    → is_ok (write_list_dictionary_field f id count e).0 ≡ true
    → (f.encoding ≡ list_dictionary)
      × HoldsRef f
          (record { offset = id; byte_length = 0; element_count_or_flags = count })
          e
          (write_list_dictionary_field f id count e).1
unfolding write_list_dictionary_field
write_list_dictionary_field-HoldsRef f id count e field small few done =
    let ref : ValueRef16 = record {
      offset = id;
      byte_length = 0;
      element_count_or_flags = count;
    } in
    let as_ref : write_list_dictionary_field f id count e ≡ write_value_ref_field f ref e =
      ground arith in
    (
      encoding_eq-eq f.encoding list_dictionary (ground arith),
      subst (λ t. HoldsRef f ref e (t.1)) (sym as_ref)
          (write_value_ref_field-HoldsRef f ref e field
            (record { offset_fits = omega arith; length_fits = omega arith; count_fits = few })
            (subst (λ t. is_ok (t.0) ≡ true) as_ref done)),
    )
