-- ===== src/Ingest/Encode/Longer.antt =====
-- No writer shortens the arena of a row (src/ingest/update_applier.cc, src/model/row_storage.cc),
-- whether it succeeds or not.
use kv_index.Prelude.{
  ℕ, ◌≤◌, u32, ◌≡◌, ap, arith, List, [], ◌∷◌, ◌++◌, length, map, length-append, Bool,
}
use kv_index.Status.{Status}
use kv_index.Base.ByteIo.{ValueRef16, write_value_ref16, write_little_endian}
use kv_index.Schema.{
  FieldEncoding, fixed, arena, dictionary, list_dictionary, element_dictionary, field_type_size,
}
use kv_index.Schema.Layout.{FieldLayout}
use kv_index.Model.EncodedRow.{EncodedRow}
use kv_index.Model.Value.{
  ScalarValue, int8_scalar, int32_scalar, int64_scalar, uint64_scalar, bool_scalar, string_scalar,
  scalar_type, scalar_bits, bool_bits,
}
use kv_index.Model.Write.{
  finish_write, write_value_ref_field, write_scalar_field, write_arena_string_field,
  write_dictionary_string_field, write_list_dictionary_field,
}
use kv_index.Ingest.ScalarField.{write_string_value, write_scalar}
use kv_index.Ingest.ListField.{
  write_arena_bool_list_field, write_list_dictionary_bool_list, write_bool_items,
}

finish_write-arena :
    (f : FieldLayout) (e : EncodedRow) (t : Status × List ℕ)
    → (finish_write f e t).1.arena ≡ e.arena
unfolding finish_write
finish_write-arena f e (s, slot) = ground arith

pub ref_field-arena :
    (f : FieldLayout) (ref : ValueRef16) (e : EncodedRow)
    → (write_value_ref_field f ref e).1.arena ≡ e.arena
unfolding write_value_ref_field
ref_field-arena f ref e =
    ground (arith, finish_write-arena f e (write_value_ref16 ref e.row_slot f.slot_offset))

scalar_field-arena :
    (f : FieldLayout) (v : ScalarValue) (e : EncodedRow)
    → (write_scalar_field f v e).1.arena ≡ e.arena
unfolding write_scalar_field
scalar_field-arena f v e = ground (
  arith,
  finish_write-arena f e (
      write_little_endian (field_type_size (scalar_type v)) (scalar_bits v) e.row_slot
        f.slot_offset),
)

pub list_dictionary-arena :
    (f : FieldLayout) (id count : ℕ) (e : EncodedRow)
    → (write_list_dictionary_field f id count e).1.arena ≡ e.arena
unfolding write_list_dictionary_field
list_dictionary-arena f id count e = ground (
  arith,
  ref_field-arena f (record { offset = id; byte_length = 0; element_count_or_flags = count }) e,
)

arena_string-longer :
    (f : FieldLayout) (value : List ℕ) (e : EncodedRow)
    → length e.arena ≤ length (write_arena_string_field f value e).1.arena
unfolding write_arena_string_field
arena_string-longer f value e = ground (
  arith,
  length-append e.arena value,
  ref_field-arena f
      (record {
        offset = length e.arena;
        byte_length = u32 (length value);
        element_count_or_flags = 0;
      })
      (record e { arena = e.arena ++ value }),
)

string_value-longer :
    (encoding : FieldEncoding) (f : FieldLayout) (value : List ℕ) (e : EncodedRow)
    → length e.arena ≤ length (write_string_value encoding f value e).1.arena
unfolding write_string_value write_dictionary_string_field
string_value-longer fixed f value e = omega arith
string_value-longer arena f value e = arena_string-longer f value e
string_value-longer dictionary f value e = ground (
  arith,
  ref_field-arena f
      (record {
        offset = u32 (length e.string_dictionary);
        byte_length = 0;
        element_count_or_flags = 0;
      })
      (record e { string_dictionary = e.string_dictionary ++ value ∷ [] }),
)
string_value-longer list_dictionary f value e = omega arith
string_value-longer element_dictionary f value e = omega arith

pub scalar-longer :
    (f : FieldLayout) (v : ScalarValue) (e : EncodedRow)
    → length e.arena ≤ length (write_scalar f v e).1.arena
unfolding write_scalar
scalar-longer f (int8_scalar v) e =
    omega (arith, ap length (scalar_field-arena f (int8_scalar v) e))
scalar-longer f (int32_scalar v) e =
    omega (arith, ap length (scalar_field-arena f (int32_scalar v) e))
scalar-longer f (int64_scalar v) e =
    omega (arith, ap length (scalar_field-arena f (int64_scalar v) e))
scalar-longer f (uint64_scalar v) e =
    omega (arith, ap length (scalar_field-arena f (uint64_scalar v) e))
scalar-longer f (bool_scalar v) e =
    omega (arith, ap length (scalar_field-arena f (bool_scalar v) e))
scalar-longer f (string_scalar v) e = string_value-longer f.encoding f v e

pub payload-longer :
    (f : FieldLayout) (payload : List ℕ) (count : ℕ) (e : EncodedRow)
    → length e.arena
      ≤ length
          (write_value_ref_field f
            (record {
              offset = length e.arena;
              byte_length = u32 (length payload);
              element_count_or_flags = u32 count;
            })
            (record e { arena = e.arena ++ payload })).1.arena
payload-longer f payload count e = omega (
  arith,
  length-append e.arena payload,
  ap length (
      ref_field-arena f
        (record {
          offset = length e.arena;
          byte_length = u32 (length payload);
          element_count_or_flags = u32 count;
        })
        (record e { arena = e.arena ++ payload })),
)

pub bool_items-longer :
    (encoding : FieldEncoding) (f : FieldLayout) (vs : List Bool) (e : EncodedRow)
    → length e.arena ≤ length (write_bool_items encoding f vs e).1.arena
unfolding write_bool_items write_arena_bool_list_field write_list_dictionary_bool_list
bool_items-longer fixed f vs e = omega arith
bool_items-longer arena f vs e = ground (arith, payload-longer f (map bool_bits vs) (length vs) e)
bool_items-longer dictionary f vs e = omega arith
bool_items-longer list_dictionary f vs e = ground (
  arith,
  list_dictionary-arena f (u32 (length e.scalar_list_dictionary)) (u32 (length vs))
      (record e { scalar_list_dictionary = e.scalar_list_dictionary ++ map bool_bits vs ∷ [] }),
)
bool_items-longer element_dictionary f vs e = omega arith
