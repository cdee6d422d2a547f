-- ===== src/Ingest/ListField/Fixed.antt =====
-- A list field shows the list of integers or of Boolean values that the update applier wrote to it.
use kv_index.Prelude.{
  ℕ, ◌+◌, ◌*◌, ◌^◌, ◌<◌, u32, bit_or, Bool, true, false, ◌≡◌, refl, sym, ap, ◌∙◌, arith, List, [],
  ◌∷◌, ◌++◌, length, map, subst, get_or, length-map, All-get_or,
}
use kv_index.Prelude.Bytes.{KeepsEntries-append, get_elem?-append_last, Extends-refl}
use kv_index.Status.{ok, is_ok}
use kv_index.Base.ByteIo.{read_bytes, read_little_endian}
use kv_index.Base.ByteIo.RoundTrip.{read_little_endian-fits}
use kv_index.Base.Bits.Step.{zero-bit_or}
use kv_index.Schema.{
  FieldEncoding, fixed, arena, dictionary, list_dictionary, element_dictionary, bool, is_string,
}
use kv_index.Schema.Layout.{FieldLayout}
use kv_index.Model.EncodedRow.{EncodedRow}
use kv_index.Model.Value.{ListValue, bool_items, list_type, list_bits, list_of_bits, bool_bits}
use kv_index.Model.Value.Lists.{
  FitsItems, IsPattern, list_bits-IsPattern, list_of_bits-list_bits, items_count,
}
use kv_index.Model.Read.{read_patterns, decode_scalar_list}
use kv_index.Model.Read.Items.{read_list, read_dictionary_list, read_present_list}
use kv_index.Model.Write.{write_list_dictionary_field, write_value_ref_field}
use kv_index.Model.Write.Slot.{IsField}
use kv_index.Model.Write.Effect.{Frames, Wrote-Frames}
use kv_index.Model.Write.Patterns.{read_patterns-of_reads}
use kv_index.Model.Write.Scalars.{type_eq-eq}
use kv_index.Model.Write.Strings.{encoding_eq-eq}
use kv_index.Model.Write.ScalarLists as ScalarLists
use kv_index.Model.Write.ListRefs.{
  ShowsItems, payload_ref, with_payload, payload-Shows, write_arena_list_field-Shows,
  write_list_dictionary_field-HoldsRef,
}
use kv_index.Model.Frame.{Grows}
use kv_index.Ingest.ListField.{
  write_arena_bool_list_field, write_list_dictionary_scalar_list, write_list_dictionary_bool_list,
  write_bool_items, write_integer_items,
}

-- A single byte is read as it is.
read_one :
    (bytes : List ℕ) (k : ℕ)
    → k < length bytes
    → read_little_endian 1 bytes k ≡ ok (get_or bytes k 0)
unfolding read_bytes
read_one bytes k h =
    let byte : get_or bytes (k + 0) 0 * 2 ^ (0 * 8) ≡ get_or bytes k 0 =
      omega (arith, ap (λ (t : ℕ). get_or bytes t 0) (at k)) in
    read_little_endian-fits 1 0 bytes k (omega arith)
    ∙ ap ok (ap (bit_or 0) byte ∙ zero-bit_or (get_or bytes k 0))
  where
    at : (k : ℕ) → k + 0 ≡ k
    at k = omega arith

decode-encode_bools :
    (vs : List Bool)
    → length vs < 2 ^ 32
    → decode_scalar_list bool (map bool_bits vs) (length vs) ≡ ok (bool_items vs)
unfolding decode_scalar_list list_bits list_type
decode-encode_bools vs few =
    let bytes : List ℕ = map bool_bits vs in
    let in_pattern : (k : ℕ) → k < length bytes → IsPattern bool (get_or bytes k 0) =
      λ k h. All-get_or (IsPattern bool) bytes k 0 (list_bits-IsPattern (bool_items vs) few) h in
    let reads : read_patterns bool bytes (length bytes) 0 ≡ ok bytes =
      read_patterns-of_reads bool bytes bytes 0
        (λ k h. ap (read_little_endian 1 bytes) (omega arith) ∙ read_one bytes k h)
        (λ k h. (in_pattern k h).is_bool) in
    let counted : read_patterns bool bytes (length vs) 0 ≡ ok bytes =
      subst (λ (n : ℕ). read_patterns bool bytes n 0 ≡ ok bytes) (length-map bool_bits vs) reads in
    let back : list_of_bits bool bytes ≡ bool_items vs =
      list_of_bits-list_bits (bool_items vs) refl few in
    ground (arith, length-map bool_bits vs, counted, back)

-- A payload pushed to the dictionary of lists.
module _ (f : FieldLayout) (payload : List ℕ) (count : ℕ) (e : EncodedRow) (field : IsField f)
    (few : length e.scalar_list_dictionary < 2 ^ 32) (counted : count < 2 ^ 32) where
  abbrev pushed : EncodedRow
  pushed = record e { scalar_list_dictionary = e.scalar_list_dictionary ++ payload ∷ [] }

  abbrev id : ℕ
  id = u32 (length e.scalar_list_dictionary)

  pushed-Grows : Grows e pushed
  pushed-Grows = record {
    arena_grows = Extends-refl e.arena;
    strings = λ i v h. h;
    scalar_lists = KeepsEntries-append e.scalar_list_dictionary (payload ∷ []);
    string_lists = λ i v h. h;
    elements = λ i v h. h;
  }

  entry-Shows :
      (v : ListValue)
      → is_string f.type ≡ false
      → decode_scalar_list f.type payload count ≡ ok v
      → is_ok (write_list_dictionary_field f id (u32 count) pushed).0 ≡ true
      → Frames f e (write_list_dictionary_field f id (u32 count) pushed).1
        × ShowsItems f v (write_list_dictionary_field f id (u32 count) pushed).1
  unfolding read_present_list read_list read_dictionary_list
  entry-Shows v plain decodes done =
      let holds =
        write_list_dictionary_field-HoldsRef f id (u32 count) pushed field (omega arith)
          (omega arith) done in
      let exact : id ≡ length e.scalar_list_dictionary = omega arith in
      let same_count : u32 count ≡ count = omega arith in
      (
        Wrote-Frames f e pushed (write_list_dictionary_field f id (u32 count) pushed).1 holds.1.slot
            pushed-Grows refl holds.1.wrote,
        (
          holds.1.wrote.present,
          ground (
            arith,
            fixed,
            holds.0,
            holds.1.reads,
            exact,
            same_count,
            ap (λ (r : EncodedRow). r.scalar_list_dictionary) holds.1.wrote.slot_only,
            get_elem?-append_last e.scalar_list_dictionary payload,
            decodes,
          ),
        ),
      )

module _ (f : FieldLayout) (e : EncodedRow) (field : IsField f)
    (small : length e.arena < 2 ^ 64) where
  bools_in_arena :
      (vs : List Bool)
      → length vs < 2 ^ 32
      → is_ok (write_arena_bool_list_field f vs e).0 ≡ true
      → Frames f e (write_arena_bool_list_field f vs e).1
        × ShowsItems f (bool_items vs) (write_arena_bool_list_field f vs e).1
  unfolding write_arena_bool_list_field
  bools_in_arena vs few done =
      let same : f.type ≡ bool = type_eq-eq f.type bool (ground arith) in
      let in_arena : f.encoding ≡ arena = encoding_eq-eq f.encoding arena (ground arith) in
      let payload : List ℕ = map bool_bits vs in
      let size : length payload ≡ length vs = length-map bool_bits vs in
      let as_ref : write_arena_bool_list_field f vs e
          ≡ write_value_ref_field f (payload_ref payload (length vs) e) (with_payload payload e) =
        ground arith in
      subst (λ t. Frames f e (t.1) × ShowsItems f (bool_items vs) (t.1)) (sym as_ref)
        (payload-Shows f payload (length vs) e field small (omega (arith, size)) few (bool_items vs)
          (ground (arith, same)) in_arena (rw same (decode-encode_bools vs few))
          (subst (λ t. is_ok (t.0) ≡ true) as_ref done))

  bools_in_dictionary :
      (vs : List Bool)
      → f.type ≡ bool
      → length vs < 2 ^ 32
      → is_ok (write_list_dictionary_bool_list f vs e).0 ≡ true
      → Frames f e (write_list_dictionary_bool_list f vs e).1
        × ShowsItems f (bool_items vs) (write_list_dictionary_bool_list f vs e).1
  unfolding write_list_dictionary_bool_list
  bools_in_dictionary vs same few done =
      let payload : List ℕ = map bool_bits vs in
      let room : length e.scalar_list_dictionary < 2 ^ 32 = ground arith in
      let as_ref : write_list_dictionary_bool_list f vs e
          ≡ write_list_dictionary_field f (u32 (length e.scalar_list_dictionary)) (u32 (length vs))
              (record e { scalar_list_dictionary = e.scalar_list_dictionary ++ payload ∷ [] }) =
        ground arith in
      subst (λ t. Frames f e (t.1) × ShowsItems f (bool_items vs) (t.1)) (sym as_ref)
        (entry-Shows f payload (length vs) e field room few (bool_items vs) (ground (arith, same))
          (rw same (decode-encode_bools vs few)) (subst (λ t. is_ok (t.0) ≡ true) as_ref done))

  integers_in_dictionary :
      (v : ListValue)
      → f.type ≡ list_type v
      → is_string (list_type v) ≡ false
      → FitsItems v
      → is_ok (write_list_dictionary_scalar_list f v e).0 ≡ true
      → Frames f e (write_list_dictionary_scalar_list f v e).1
        × ShowsItems f v (write_list_dictionary_scalar_list f v e).1
  unfolding write_list_dictionary_scalar_list
  integers_in_dictionary v same plain fits done =
      let payload : List ℕ = ScalarLists.encoded_bytes v in
      let count : ℕ = length (list_bits v) in
      let room : length e.scalar_list_dictionary < 2 ^ 32 = ground arith in
      let as_ref : write_list_dictionary_scalar_list f v e
          ≡ write_list_dictionary_field f (u32 (length e.scalar_list_dictionary)) (u32 count)
              (record e { scalar_list_dictionary = e.scalar_list_dictionary ++ payload ∷ [] }) =
        ground (arith, ScalarLists.encode_scalar_list-out v plain fits) in
      subst (λ t. Frames f e (t.1) × ShowsItems f v (t.1)) (sym as_ref)
        (entry-Shows f payload count e field room (items_count v fits) v (ground (arith, same))
          (rw same (ScalarLists.decode-encode_scalar_list v plain fits))
          (subst (λ t. is_ok (t.0) ≡ true) as_ref done))

  pub bool_items-Shows :
      (encoding : FieldEncoding) (vs : List Bool)
      → f.type ≡ bool
      → length vs < 2 ^ 32
      → is_ok (write_bool_items encoding f vs e).0 ≡ true
      → Frames f e (write_bool_items encoding f vs e).1
        × ShowsItems f (bool_items vs) (write_bool_items encoding f vs e).1
  unfolding write_bool_items
  bool_items-Shows fixed vs same few done = cc
  bool_items-Shows arena vs same few done = bools_in_arena vs few done
  bool_items-Shows dictionary vs same few done = cc
  bool_items-Shows list_dictionary vs same few done = bools_in_dictionary vs same few done
  bool_items-Shows element_dictionary vs same few done = cc

  pub integer_items-Shows :
      (encoding : FieldEncoding) (v : ListValue)
      → f.type ≡ list_type v
      → is_string (list_type v) ≡ false
      → FitsItems v
      → is_ok (write_integer_items encoding f v e).0 ≡ true
      → Frames f e (write_integer_items encoding f v e).1
        × ShowsItems f v (write_integer_items encoding f v e).1
  unfolding write_integer_items
  integer_items-Shows fixed v same non fits done = cc
  integer_items-Shows arena v same non fits done =
      write_arena_list_field-Shows f v e field fits small done
  integer_items-Shows dictionary v same non fits done = cc
  integer_items-Shows list_dictionary v same non fits done =
      integers_in_dictionary v same non fits done
  integer_items-Shows element_dictionary v same non fits done = cc
