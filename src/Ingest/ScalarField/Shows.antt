-- ===== src/Ingest/ScalarField/Shows.antt =====
-- A scalar field shows the value that the update applier wrote to it.
use kv_index.Prelude.{
  ℕ, ◌^◌, ◌<◌, ltb, u32, true, false, ◌≡◌, refl, ap, arith, List, [], ◌∷◌, ◌++◌, length,
}
use kv_index.Prelude.Bytes.{KeepsEntries-append, get_elem?-append_last, Extends-refl}
use kv_index.Status.{is_ok}
use kv_index.Schema.{FieldEncoding, fixed, arena, dictionary, list_dictionary, element_dictionary}
use kv_index.Schema.Layout.{FieldLayout}
use kv_index.Model.EncodedRow.{EncodedRow}
use kv_index.Model.Value.{
  ScalarValue, int8_scalar, int32_scalar, int64_scalar, uint64_scalar, bool_scalar, string_scalar,
}
use kv_index.Model.Value.RoundTrip.{FitsScalar}
use kv_index.Model.Read.Scalar.{read_string, read_present_scalar}
use kv_index.Model.Write.{uint32_max, write_dictionary_string_field}
use kv_index.Model.Write.Slot.{IsField}
use kv_index.Model.Write.Effect.{Frames, Wrote-Frames}
use kv_index.Model.Write.Scalars.{ShowsScalar, write_scalar_field-Shows}
use kv_index.Model.Write.Strings.{
  write_arena_string_field-Shows, write_dictionary_string_field-HoldsRef,
}
use kv_index.Model.Frame.{Grows}
use kv_index.Ingest.ScalarField.{write_string_value, write_scalar}

module _ (f : FieldLayout) (value : List ℕ) (e : EncodedRow) (field : IsField f) where
  abbrev pushed : EncodedRow
  pushed = record e { string_dictionary = e.string_dictionary ++ value ∷ [] }

  pushed-Grows : Grows e pushed
  pushed-Grows = record {
    arena_grows = Extends-refl e.arena;
    strings = KeepsEntries-append e.string_dictionary (value ∷ []);
    scalar_lists = λ i v h. h;
    string_lists = λ i v h. h;
    elements = λ i v h. h;
  }

  dictionary-Shows :
      is_ok (write_string_value dictionary f value e).0 ≡ true
      → Frames f e (write_string_value dictionary f value e).1
        × ShowsScalar f (string_scalar value) (write_string_value dictionary f value e).1
  unfolding write_string_value read_present_scalar read_string
  dictionary-Shows done =
      let id : ℕ = length e.string_dictionary in
      let few : ltb uint32_max id ≡ false = ground arith in
      let exact : u32 id ≡ id = ground arith in
      let written = write_dictionary_string_field f (u32 id) pushed in
      let holds =
        write_dictionary_string_field-HoldsRef f (u32 id) pushed field (omega arith)
          (rw few at done) in
      rw few (
        Wrote-Frames f e pushed (written.1) holds.2.slot pushed-Grows refl holds.2.wrote,
        (
          holds.2.wrote.present,
          ground (
            arith,
            holds.0,
            holds.1,
            holds.2.reads,
            exact,
            ap (λ (r : EncodedRow). r.string_dictionary) holds.2.wrote.slot_only,
            get_elem?-append_last e.string_dictionary value,
          ),
        ),
      )

  string_value-Shows :
      (encoding : FieldEncoding)
      → length e.arena < 2 ^ 64
      → is_ok (write_string_value encoding f value e).0 ≡ true
      → Frames f e (write_string_value encoding f value e).1
        × ShowsScalar f (string_scalar value) (write_string_value encoding f value e).1
  unfolding write_string_value
  string_value-Shows fixed small done = cc
  string_value-Shows arena small done = write_arena_string_field-Shows f value e field small done
  string_value-Shows dictionary small done = dictionary-Shows done
  string_value-Shows list_dictionary small done = cc
  string_value-Shows element_dictionary small done = cc

-- A value written to a scalar field is the one that the field shows, and the rest of the row is kept.
pub write_scalar-Shows :
    (f : FieldLayout) (v : ScalarValue) (e : EncodedRow)
    → IsField f
    → FitsScalar v
    → length e.arena < 2 ^ 64
    → is_ok (write_scalar f v e).0 ≡ true
    → Frames f e (write_scalar f v e).1 × ShowsScalar f v (write_scalar f v e).1
unfolding write_scalar
write_scalar-Shows f (int8_scalar v) e field fits small done =
    write_scalar_field-Shows f (int8_scalar v) e field fits done
write_scalar-Shows f (int32_scalar v) e field fits small done =
    write_scalar_field-Shows f (int32_scalar v) e field fits done
write_scalar-Shows f (int64_scalar v) e field fits small done =
    write_scalar_field-Shows f (int64_scalar v) e field fits done
write_scalar-Shows f (uint64_scalar v) e field fits small done =
    write_scalar_field-Shows f (uint64_scalar v) e field fits done
write_scalar-Shows f (bool_scalar v) e field fits small done =
    write_scalar_field-Shows f (bool_scalar v) e field fits done
write_scalar-Shows f (string_scalar v) e field fits small done =
    string_value-Shows f v e field f.encoding small done
