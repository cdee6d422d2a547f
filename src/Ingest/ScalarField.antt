-- ===== src/Ingest/ScalarField.antt =====
-- src/ingest/update_applier.cc: a decoded value written to a scalar field.
pub mod Shows
use kv_index.Prelude.{
  ℕ, u32, ltb, if◌then◌else◌, String, Option, none, some, List, [], ◌∷◌, ◌++◌, length,
}
use kv_index.Status.{Status, invalid_argument}
use kv_index.Schema.{
  FieldType, int8, int32, int64, uint64, bool, string, FieldEncoding, arena, dictionary, int8_value,
  int32_value, int64_value, uint64_value, bool_value, string_value,
}
use kv_index.Schema.Layout.{FieldLayout}
use kv_index.Model.EncodedRow.{EncodedRow}
use kv_index.Model.Value.{
  ScalarValue, int8_scalar, int32_scalar, int64_scalar, uint64_scalar, bool_scalar, string_scalar,
}
use kv_index.Model.Write.{
  uint32_max, write_scalar_field, write_arena_string_field, write_dictionary_string_field,
}
use kv_index.Ingest.Payload.{DecodedValue, DecodedField}

-- `GetValue<T>` for the type of a scalar field.
unfoldable pub get_scalar : FieldType → DecodedValue → Option ScalarValue
get_scalar int8 (int8_value v) = some (int8_scalar v)
get_scalar int32 (int32_value v) = some (int32_scalar v)
get_scalar int64 (int64_value v) = some (int64_scalar v)
get_scalar uint64 (uint64_value v) = some (uint64_scalar v)
get_scalar bool (bool_value v) = some (bool_scalar v)
get_scalar string (string_value v) = some (string_scalar v)
get_scalar _ _ = none

abbrev pub scalar_mismatch : FieldType → String
scalar_mismatch int8 = "payload int8 field type mismatch"
scalar_mismatch int32 = "payload int32 field type mismatch"
scalar_mismatch int64 = "payload int64 field type mismatch"
scalar_mismatch uint64 = "payload uint64 field type mismatch"
scalar_mismatch bool = "payload bool field type mismatch"
scalar_mismatch string = "payload string field type mismatch"

-- The case of strings in `WriteScalarFieldValue`, by the encoding.
unfoldable pub write_string_value :
    FieldEncoding → FieldLayout → List ℕ → EncodedRow → Status × EncodedRow
write_string_value arena field value encoded = write_arena_string_field field value encoded
write_string_value dictionary field value encoded =
    if ltb uint32_max (length encoded.string_dictionary)
    then (invalid_argument "string dictionary is too large", encoded)
    else write_dictionary_string_field field (u32 (length encoded.string_dictionary))
        (record encoded { string_dictionary = encoded.string_dictionary ++ value ∷ [] })
write_string_value _ field value encoded =
    (invalid_argument "payload string field encoding unsupported", encoded)

unfoldable pub write_scalar : FieldLayout → ScalarValue → EncodedRow → Status × EncodedRow
unfolding write_string_value
write_scalar field (string_scalar value) encoded =
    write_string_value field.encoding field value encoded
write_scalar field value encoded = write_scalar_field field value encoded

unfoldable pub write_scalar_field_value :
    FieldLayout → DecodedField → EncodedRow → Status × EncodedRow
unfolding get_scalar write_scalar
write_scalar_field_value field decoded encoded =
    if field.is_list
    then (invalid_argument "payload field shape does not match layout", encoded)
    else elim (get_scalar field.type decoded.value) [
      | none ↦ (invalid_argument (scalar_mismatch field.type), encoded)
      | some value ↦ write_scalar field value encoded
    ]
