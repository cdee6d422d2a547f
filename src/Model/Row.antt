-- ===== src/Model/Row.antt =====
-- include/kv_index/row.h and src/model/row_storage.cc: a row, which is an encoded row with its layout,
-- and the checks that `MaterializeRow` makes.
use kv_index.Prelude.{
  ◌/◌, ◌%◌, ◌^◌, ltb, ◌==◌, bit_and, Bool, false, not, ◌&&◌, ◌||◌, if◌then◌else◌, List, [], ◌∷◌,
  length, get_or,
}
use kv_index.Status.{
  Status, StatusOr, ok, fail, ◌>>◌, ok_status, invalid_argument, failed_precondition,
}
use kv_index.Schema.{has_default}
use kv_index.Schema.Layout.{FieldLayout, CompiledRowLayout}
use kv_index.Model.EncodedRow.{EncodedRow}

-- The members of `Row`.
pub record Row : Type 0 where
  pub layout : CompiledRowLayout
  pub encoded : EncodedRow

unfoldable pub field_present : FieldLayout → EncodedRow → Bool
field_present field row =
    let byte_index = field.presence_bit_index / 8 in
    let bit_index = field.presence_bit_index % 8 in
    if not (ltb byte_index (length row.row_slot))
    then false
    else not (bit_and (get_or row.row_slot byte_index 0) (2 ^ bit_index) == 0)

-- The loop of `MaterializeRow`.
unfoldable pub check_required : List FieldLayout → EncodedRow → Status
unfolding has_default field_present
check_required [] encoded = ok_status
check_required (field ∷ fields) encoded =
    if not field.nullable
      && not (has_default field.default_value)
      && not (field_present field encoded)
    then failed_precondition "required field is absent in encoded row"
    else check_required fields encoded

-- `MaterializeRow` for a layout that is not null.
unfoldable pub materialize_row : CompiledRowLayout → EncodedRow → StatusOr Row
materialize_row layout encoded =
    if not (encoded.schema_version == layout.schema_version)
      || not (encoded.layout_fingerprint == layout.layout_fingerprint)
    then fail (failed_precondition "encoded row metadata does not match layout")
    else if ltb (length encoded.row_slot) layout.row_slot_size
    then fail (invalid_argument "encoded row slot is shorter than layout")
    else check_required layout.fields encoded >> ok (record { layout = layout; encoded = encoded })
