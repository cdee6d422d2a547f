-- ===== src/Model/Write/Strings.antt =====
-- The writers of string fields (src/model/row_storage.cc): the field then reads as the string.
use kv_index.Prelude.{
  ℕ, ◌^◌, ◌<◌, u32, true, ◌≡◌, refl, sym, ap, arith, List, ◌++◌, length, subst, length-append,
}
use kv_index.Prelude.Bytes.{Extends, Extends-append, take-drop-append}
use kv_index.Status.{is_ok}
use kv_index.Base.ByteIo.{ValueRef16}
use kv_index.Schema.{string, FieldEncoding, arena, dictionary}
use kv_index.Schema.Layout.{FieldLayout}
use kv_index.Model.EncodedRow.{EncodedRow}
use kv_index.Model.Value.{string_scalar}
use kv_index.Model.Read.{validate_ref_bounds}
use kv_index.Model.Read.Scalar.{read_string, read_present_scalar}
use kv_index.Model.Write.{
  encoding_eq, write_value_ref_field, write_arena_string_field, write_dictionary_string_field,
}
use kv_index.Model.Write.Slot.{IsField}
use kv_index.Model.Write.Refs.{HoldsRef, write_value_ref_field-HoldsRef}
use kv_index.Model.Write.Effect.{Frames, Wrote-Frames}
use kv_index.Model.Write.Scalars.{ShowsScalar, type_eq-eq}
use kv_index.Model.Frame.{Grows}

pub encoding_eq-eq : (a b : FieldEncoding) → encoding_eq a b ≡ true → a ≡ b
encoding_eq-eq a b h = ground arith

-- A row whose arena has the bytes behind its own.
pub grow_arena :
    (e : EncodedRow) (bytes : List ℕ) → Extends e.arena bytes → Grows e (record e { arena = bytes })
grow_arena e bytes h = record {
  arena_grows = h;
  strings = λ i v h. h;
  scalar_lists = λ i v h. h;
  string_lists = λ i v h. h;
  elements = λ i v h. h;
}

module _ (f : FieldLayout) (value : List ℕ) (e : EncodedRow) (field : IsField f)
    (small : length e.arena < 2 ^ 64) where
  module _ (done : is_ok (write_arena_string_field f value e).0 ≡ true) where
    abbrev ref : ValueRef16
    ref = record {
      offset = length e.arena;
      byte_length = u32 (length value);
      element_count_or_flags = 0;
    }

    abbrev grown : EncodedRow
    grown = record e { arena = e.arena ++ value }

    shape : (f.type ≡ string) × (f.encoding ≡ arena) × (length value < 2 ^ 32)
    unfolding write_arena_string_field
    shape = (
      type_eq-eq f.type string (ground arith),
      encoding_eq-eq f.encoding arena (ground arith),
      ground arith,
    )

    as_ref : write_arena_string_field f value e ≡ write_value_ref_field f ref grown
    unfolding write_arena_string_field
    as_ref = ground arith

    holds : HoldsRef f ref grown (write_arena_string_field f value e).1
    holds =
        subst (λ t. HoldsRef f ref grown (t.1)) (sym as_ref)
          (write_value_ref_field-HoldsRef f ref grown field
            (record { offset_fits = small; length_fits = omega arith; count_fits = omega arith })
            (subst (λ t. is_ok (t.0) ≡ true) as_ref done))

    arena_after : (write_arena_string_field f value e).1.arena ≡ e.arena ++ value
    arena_after = ap (λ (r : EncodedRow). r.arena) holds.wrote.slot_only

    pub write_arena_string_field-Shows :
        Frames f e (write_arena_string_field f value e).1
        × ShowsScalar f (string_scalar value) (write_arena_string_field f value e).1
    unfolding read_present_scalar read_string validate_ref_bounds
    write_arena_string_field-Shows = (
      Wrote-Frames f e grown (write_arena_string_field f value e).1 holds.slot
          (grow_arena e (e.arena ++ value) (Extends-append e.arena value)) refl holds.wrote,
      (
        holds.wrote.present,
        ground (
          arith,
          shape,
          holds.reads,
          arena_after,
          length-append e.arena value,
          take-drop-append e.arena value,
        ),
      ),
    )

-- A reference to an entry of the string dictionary.
module _ (f : FieldLayout) (id : ℕ) (e : EncodedRow) (field : IsField f) (small : id < 2 ^ 32)
    (done : is_ok (write_dictionary_string_field f id e).0 ≡ true) where
  pub write_dictionary_string_field-HoldsRef :
      (f.type ≡ string)
      × (f.encoding ≡ dictionary)
      × HoldsRef f
          (record { offset = id; byte_length = 0; element_count_or_flags = 0 })
          e
          (write_dictionary_string_field f id e).1
  unfolding write_dictionary_string_field
  write_dictionary_string_field-HoldsRef =
      let ref : ValueRef16 = record { offset = id; byte_length = 0; element_count_or_flags = 0 } in
      let as_ref : write_dictionary_string_field f id e ≡ write_value_ref_field f ref e =
        ground arith in
      (
        type_eq-eq f.type string (ground arith),
        encoding_eq-eq f.encoding dictionary (ground arith),
        subst (λ t. HoldsRef f ref e (t.1)) (sym as_ref)
            (write_value_ref_field-HoldsRef f ref e field
              (record {
                offset_fits = omega arith;
                length_fits = omega arith;
                count_fits = omega arith;
              })
              (subst (λ t. is_ok (t.0) ≡ true) as_ref done)),
      )
