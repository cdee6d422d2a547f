-- ===== src/Ingest/Encode.antt =====
-- src/ingest/update_applier.cc: the row that a decoded payload makes under a layout.
pub mod Longer
pub mod Grown
pub mod Values
pub mod Round
pub mod Reads
pub mod Shows
pub mod Usable
use kv_index.Prelude.{Bool, true, false, if◌then◌else◌, Option, none, some, List, [], ◌∷◌}
use kv_index.Status.{
  Status, StatusOr, ok, fail, ok_status, ◌>>=◌, ◌>>◌, invalid_argument, failed_precondition,
}
use kv_index.Schema.{monostate}
use kv_index.Schema.Layout.{CompiledRowLayout, find_layout}
use kv_index.Model.EncodedRow.{EncodedRow}
use kv_index.Model.Row.{materialize_row}
use kv_index.Model.Write.{create_encoded_row}
use kv_index.Ingest.ScalarField.{write_scalar_field_value}
use kv_index.Ingest.ListField.{write_list_field_value}
use kv_index.Ingest.Payload.{DecodedValue, DecodedField, DecodedPayload}

abbrev pub is_null : DecodedValue → Bool
is_null monostate = true
is_null _ = false

-- One round of the loop of `EncodeForLayout`.
unfoldable pub encode_field : CompiledRowLayout → DecodedField → EncodedRow → Status × EncodedRow
unfolding write_list_field_value write_scalar_field_value
encode_field layout decoded encoded = elim (find_layout decoded.field_id layout.fields) [
  | none ↦ (ok_status, encoded)
  | some field ↦
      if is_null decoded.value
      then (invalid_argument "payload explicit null field is unsupported", encoded)
      else if field.is_list
      then write_list_field_value field decoded encoded
      else write_scalar_field_value field decoded encoded
]

unfoldable pub encode_fields :
    CompiledRowLayout → List DecodedField → EncodedRow → StatusOr EncodedRow
unfolding encode_field
encode_fields layout [] encoded = ok encoded
encode_fields layout (decoded ∷ fields) encoded =
    let written = encode_field layout decoded encoded in
    written.0 >> encode_fields layout fields (written.1)

-- `EncodeForLayout`.
unfoldable pub encode_for_layout : DecodedPayload → Option CompiledRowLayout → StatusOr EncodedRow
unfolding encode_fields
encode_for_layout payload none = fail (failed_precondition "target layout is null")
encode_for_layout payload (some layout) = do
  encoded ← encode_fields layout payload.fields (create_encoded_row layout)
  row ← materialize_row layout encoded
  ok encoded
