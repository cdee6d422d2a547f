-- ===== src/Model/Read/Scalar.antt =====
-- src/model/row_storage.cc: `Row::Has` and `Row::ReadScalarValue`.
use kv_index.Prelude.{
  ℕ, Bool, false, not, if◌then◌else◌, Option, none, some, length, get_elem?, take, drop,
}
use kv_index.Status.{StatusOr, ok, fail, ◌>>=◌, ◌>>◌, invalid_argument}
use kv_index.Base.ByteIo.{ValueRef16, read_little_endian}
use kv_index.Schema.{FieldType, FieldEncoding, arena, dictionary, is_string, field_type_size}
use kv_index.Schema.Layout.{FieldLayout, find_layout}
use kv_index.Model.EncodedRow.{EncodedRow}
use kv_index.Model.Row.{Row, field_present}
use kv_index.Model.Value.{ScalarValue, string_scalar, scalar_of_bits}
use kv_index.Model.Read.{
  AccessorMetadata, has_bytes, resolve_field, read_ref, validate_ref_bounds, default_scalar_value,
}

unfoldable pub has : Row → ℕ → Bool
unfolding field_present
has row field_id = elim (find_layout field_id row.layout.fields) [
  | none ↦ false
  | some field ↦ field_present field row.encoded
]

-- The string behind a reference, by the field's encoding.
unfoldable pub read_string : FieldEncoding → ValueRef16 → EncodedRow → StatusOr ScalarValue
unfolding validate_ref_bounds
read_string arena ref row =
    validate_ref_bounds ref (length row.arena)
    >> ok (string_scalar (take ref.byte_length (drop ref.offset row.arena)))
read_string dictionary ref row = elim (get_elem? row.string_dictionary ref.offset) [
  | none ↦ fail (invalid_argument "string dictionary id is out of bounds")
  | some value ↦ ok (string_scalar value)
]
read_string _ ref row = fail (invalid_argument "string field has unsupported encoding")

-- The value of a scalar field that is present.
unfoldable pub read_present_scalar : FieldLayout → EncodedRow → StatusOr ScalarValue
unfolding read_ref read_string has_bytes field_type_size scalar_of_bits
read_present_scalar field row =
    if is_string field.type
    then (read_ref field row >>= λ ref. read_string field.encoding ref row)
    else if not (has_bytes (length row.row_slot) field.slot_offset field.value_width)
    then fail (invalid_argument "scalar field is out of row-slot bounds")
    else (read_little_endian (field_type_size field.type) row.row_slot field.slot_offset >>= λ u.
        scalar_of_bits field.type u)

unfoldable pub read_scalar_value :
    Row → ℕ → FieldType → Option AccessorMetadata → StatusOr ScalarValue
unfolding resolve_field field_present default_scalar_value read_present_scalar
read_scalar_value row field_id expected_type accessor =
    resolve_field row field_id expected_type false accessor >>= λ field.
    if field_present field row.encoded
    then read_present_scalar field row.encoded
    else default_scalar_value field
