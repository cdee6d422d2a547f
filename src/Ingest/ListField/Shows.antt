-- ===== src/Ingest/ListField/Shows.antt =====
-- A list field shows the list that the update applier wrote to it.
use kv_index.Prelude.{
  ℕ, ◌+◌, ◌*◌, ◌^◌, ◌<◌, u32, true, ◌≡◌, refl, sym, ap, subst, ◌∙◌, inl, inr, arith, List, [], ◌∷◌,
  ◌++◌, length, replicate, length-append, length-replicate,
}
use kv_index.Prelude.Bytes.{
  Extends, Extends-refl, KeepsEntries-append, get_elem?-append_last, get_or-append_left,
}
use kv_index.Status.{StatusOr-cases, error, is_ok, Status}
use kv_index.Base.ByteIo.{ValueRef16}
use kv_index.Schema.{
  FieldEncoding, fixed, arena, dictionary, list_dictionary, element_dictionary, string, is_string,
}
use kv_index.Schema.Layout.{FieldLayout}
use kv_index.Model.EncodedRow.{EncodedRow}
use kv_index.Model.Value.{
  ListValue, int8_items, int32_items, int64_items, uint64_items, bool_items, string_items,
  list_type,
}
use kv_index.Model.Value.Lists.{FitsItems}
use kv_index.Model.Read.{validate_ref_bounds, decode_arena_string_list}
use kv_index.Model.Read.Items.{read_list, read_arena_list, read_dictionary_list, read_present_list}
use kv_index.Model.Write.{
  write_value_ref_field, write_list_dictionary_field, write_element_dictionary_string_list_field,
}
use kv_index.Model.Write.Slot.{IsField}
use kv_index.Model.Write.Refs.{write_value_ref_field-HoldsRef}
use kv_index.Model.Write.Effect.{Frames, Wrote-Frames}
use kv_index.Model.Write.Scalars.{type_eq-eq}
use kv_index.Model.Write.Strings.{encoding_eq-eq, grow_arena}
use kv_index.Model.Write.ListRefs.{ShowsItems, write_list_dictionary_field-HoldsRef}
use kv_index.Model.Frame.{Grows}
use kv_index.Ingest.ListField.{
  write_string_refs, write_arena_string_list_field, push_elements, write_string_items, write_items,
}
use kv_index.Ingest.ListField.Fixed.{bool_items-Shows, integer_items-Shows}
use kv_index.Ingest.ListField.StringRefs.{write_string_refs-WritesRefs}
use kv_index.Ingest.ListField.Elements.{elements-Shows, push_elements-error}

module _ (f : FieldLayout) (values : List (List ℕ)) (e : EncodedRow) (field : IsField f)
    (small : length e.arena < 2 ^ 64) where
  abbrev blank : List ℕ
  blank = e.arena ++ replicate (length values * 16) 0

  abbrev out : List ℕ
  out = (write_string_refs values 0 (length e.arena) blank).1

  abbrev ref : ValueRef16
  ref = record {
    offset = length e.arena;
    byte_length = u32 (length values * 16);
    element_count_or_flags = u32 (length values);
  }

  abbrev grown : EncodedRow
  grown = record e { arena = out }

  length-blank : length blank ≡ length e.arena + length values * 16
  length-blank =
      length-append e.arena (replicate (length values * 16) 0)
      ∙ ap (λ (t : ℕ). length e.arena + t) (length-replicate (length values * 16) 0)

  strings_in_arena :
      length (write_arena_string_list_field f values e).1.arena < 2 ^ 64
      → is_ok (write_arena_string_list_field f values e).0 ≡ true
      → Frames f e (write_arena_string_list_field f values e).1
        × ShowsItems f (string_items values) (write_arena_string_list_field f values e).1
  unfolding write_arena_string_list_field read_present_list read_list read_arena_list
      decode_arena_string_list validate_ref_bounds
  strings_in_arena big done =
      let typed : f.type ≡ string = type_eq-eq f.type string (ground arith) in
      let encoded : f.encoding ≡ arena = encoding_eq-eq f.encoding arena (ground arith) in
      let few : length values * 16 < 2 ^ 32 = ground arith in
      let looped : is_ok (write_string_refs values 0 (length e.arena) blank).0 ≡ true =
        ground arith in
      let as_ref : write_arena_string_list_field f values e ≡ write_value_ref_field f ref grown =
        ground (arith, looped) in
      let holds =
        write_value_ref_field-HoldsRef f ref grown field
          (record { offset_fits = small; length_fits = omega arith; count_fits = omega arith })
          (subst (λ t. is_ok (t.0) ≡ true) as_ref done) in
      let arena_after : (write_value_ref_field f ref grown).1.arena ≡ out =
        ap (λ (r : EncodedRow). r.arena) holds.wrote.slot_only in
      let written =
        write_string_refs-WritesRefs values 0 (length e.arena) (length e.arena) blank (omega arith)
          (omega (arith, length-blank)) (omega arith)
          (subst (λ (t : List ℕ). length t < 2 ^ 64) arena_after
            (subst (λ t. length (t.1.arena) < 2 ^ 64) as_ref big))
          looped in
      let extends : Extends e.arena out = record {
        longer = omega (arith, written.0.longer, length-blank);
        same = λ j h.
            written.0.outside j (omega (arith, length-blank)) (inl h)
            ∙ get_or-append_left e.arena (replicate (length values * 16) 0) j 0 h;
      } in
      let count : u32 (length values) ≡ length values = omega arith in
      let bytes : u32 (length values * 16) ≡ length values * 16 = omega arith in
      subst (λ t. Frames f e (t.1) × ShowsItems f (string_items values) (t.1)) (sym as_ref)
        (
          Wrote-Frames f e grown (write_value_ref_field f ref grown).1 holds.slot
              (grow_arena e out extends) refl holds.wrote,
          (
            holds.wrote.present,
            ground (
              arith, typed, encoded, holds.reads, count, bytes, arena_after, length-blank,
              written.0.longer, written.1,
            ),
          ),
        )

  abbrev pushed : EncodedRow
  pushed = record e { string_list_dictionary = e.string_list_dictionary ++ values ∷ [] }

  pushed-Grows : Grows e pushed
  pushed-Grows = record {
    arena_grows = Extends-refl e.arena;
    strings = λ i v h. h;
    scalar_lists = λ i v h. h;
    string_lists = KeepsEntries-append e.string_list_dictionary (values ∷ []);
    elements = λ i v h. h;
  }

  strings_in_dictionary :
      is_string f.type ≡ true
      → is_ok (write_string_items list_dictionary f values e).0 ≡ true
      → Frames f e (write_string_items list_dictionary f values e).1
        × ShowsItems f (string_items values) (write_string_items list_dictionary f values e).1
  unfolding write_string_items read_present_list read_list read_dictionary_list
  strings_in_dictionary typed done =
      let id : ℕ = u32 (length e.string_list_dictionary) in
      let room : length e.string_list_dictionary < 2 ^ 32 = ground arith in
      let few : length values < 2 ^ 32 = ground arith in
      let as_ref : write_string_items list_dictionary f values e
          ≡ write_list_dictionary_field f id (u32 (length values)) pushed =
        ground arith in
      let holds =
        write_list_dictionary_field-HoldsRef f id (u32 (length values)) pushed field (omega arith)
          (omega arith) (subst (λ t. is_ok (t.0) ≡ true) as_ref done) in
      let exact : id ≡ length e.string_list_dictionary = omega arith in
      let count : u32 (length values) ≡ length values = omega arith in
      subst (λ t. Frames f e (t.1) × ShowsItems f (string_items values) (t.1)) (sym as_ref)
        (
          Wrote-Frames f e pushed (write_list_dictionary_field f id (u32 (length values)) pushed).1
              holds.1.slot pushed-Grows refl holds.1.wrote,
          (
            holds.1.wrote.present,
            ground (
              arith,
              typed,
              holds.0,
              holds.1.reads,
              exact,
              count,
              ap (λ (r : EncodedRow). r.string_list_dictionary) holds.1.wrote.slot_only,
              get_elem?-append_last e.string_list_dictionary values,
            ),
          ),
        )

  failed :
      (s : Status)
      → push_elements values e.string_element_dictionary ≡ error s
      → is_ok (write_string_items element_dictionary f values e).0 ≡ true
      → is_ok s ≡ true
  unfolding write_string_items
  failed s bad done = ground (arith, bad)

  string_items-Shows :
      (encoding : FieldEncoding)
      → is_string f.type ≡ true
      → length values * 4 < 2 ^ 32
      → length (write_string_items encoding f values e).1.arena < 2 ^ 64
      → is_ok (write_string_items encoding f values e).0 ≡ true
      → Frames f e (write_string_items encoding f values e).1
        × ShowsItems f (string_items values) (write_string_items encoding f values e).1
  unfolding write_string_items
  string_items-Shows fixed typed sized big done = cc
  string_items-Shows arena typed sized big done = strings_in_arena big done
  string_items-Shows dictionary typed sized big done = cc
  string_items-Shows list_dictionary typed sized big done = strings_in_dictionary typed done
  string_items-Shows element_dictionary typed sized big done =
      elim (StatusOr-cases (push_elements values e.string_element_dictionary)) [
        | inr (s, bad) ↦
            cc (push_elements-error values e.string_element_dictionary s bad, failed s bad done)
        | inl (r, good) ↦
            let same : write_string_items element_dictionary f values e
                ≡ write_element_dictionary_string_list_field f (r.0)
                    (record e { string_element_dictionary = r.1 }) =
              ground (arith, good) in
            subst (λ t. Frames f e (t.1) × ShowsItems f (string_items values) (t.1)) (sym same)
              (elements-Shows f values e field small sized (r.0) (r.1) good
                (subst (λ t. is_ok (t.0) ≡ true) same done))
      ]

-- A list written to a list field is the one that the field shows, and the rest of the row is kept.
pub write_items-Shows :
    (f : FieldLayout) (v : ListValue) (e : EncodedRow)
    → IsField f
    → f.type ≡ list_type v
    → FitsItems v
    → length e.arena < 2 ^ 64
    → length (write_items f v e).1.arena < 2 ^ 64
    → is_ok (write_items f v e).0 ≡ true
    → Frames f e (write_items f v e).1 × ShowsItems f v (write_items f v e).1
unfolding write_items list_type
write_items-Shows f (int8_items vs) e field same fits small big done =
    integer_items-Shows f e field small f.encoding (int8_items vs) same refl fits done
write_items-Shows f (int32_items vs) e field same fits small big done =
    integer_items-Shows f e field small f.encoding (int32_items vs) same refl fits done
write_items-Shows f (int64_items vs) e field same fits small big done =
    integer_items-Shows f e field small f.encoding (int64_items vs) same refl fits done
write_items-Shows f (uint64_items vs) e field same fits small big done =
    integer_items-Shows f e field small f.encoding (uint64_items vs) same refl fits done
write_items-Shows f (bool_items vs) e field same fits small big done =
    bool_items-Shows f e field small f.encoding vs same fits done
write_items-Shows f (string_items vs) e field same fits small big done =
    string_items-Shows f vs e field small f.encoding (ground (arith, same)) fits big done
