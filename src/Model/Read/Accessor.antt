-- ===== src/Model/Read/Accessor.antt =====
-- include/kv_index/row.h: `FieldAccessor`, a resolved field of a layout, and the calls `Get` and `GetList`
-- of a row, by field identifier and by accessor.
use kv_index.Prelude.{ℕ, Bool, true, false, not, if◌then◌else◌, Option, none, some, []}
use kv_index.Status.{StatusOr, StatusCode, ok, error, fail, invalid_argument, not_found, unknown}
use kv_index.Schema.{
  FieldType, int8, int32, int64, uint64, bool, string, FieldEncoding, has_default,
}
use kv_index.Schema.Layout.{FieldLayout, CompiledRowLayout, find_layout}
use kv_index.Model.Row.{Row}
use kv_index.Model.Value.{
  ScalarValue, ListValue, int8_items, int32_items, int64_items, uint64_items, bool_items,
  string_items, scalar_type, list_type,
}
use kv_index.Model.Write.{type_eq}
use kv_index.Model.Read.{AccessorMetadata}
use kv_index.Model.Read.Scalar.{read_scalar_value}
use kv_index.Model.Read.Items.{read_list_value}

-- `FieldAccessor<T>`; the type `T` is that of `physical_type`.
pub record FieldAccessor : Type 0 where
  pub schema_version : ℕ
  pub layout_fingerprint : ℕ
  pub field_id : ℕ
  pub is_list : Bool
  pub physical_type : FieldType
  pub nullable : Bool
  pub has_default : Bool
  pub encoding : FieldEncoding
  pub offset : ℕ
  pub presence_bit_index : ℕ

unfoldable pub accessor_of : CompiledRowLayout → Bool → FieldLayout → FieldAccessor
unfolding kv_index.Schema.has_default
accessor_of layout is_list field = record {
  schema_version = layout.schema_version;
  layout_fingerprint = layout.layout_fingerprint;
  field_id = field.field_id;
  is_list = is_list;
  physical_type = field.type;
  nullable = field.nullable;
  has_default = kv_index.Schema.has_default field.default_value;
  encoding = field.encoding;
  offset = field.slot_offset;
  presence_bit_index = field.presence_bit_index;
}

-- `MakeFieldAccessor<T>`.
unfoldable pub make_field_accessor : FieldType → CompiledRowLayout → ℕ → StatusOr FieldAccessor
unfolding accessor_of
make_field_accessor type layout field_id = elim (find_layout field_id layout.fields) [
  | none ↦ fail (not_found "field is not active in layout")
  | some field ↦
      if field.is_list
      then fail (invalid_argument "field is a list, not a scalar")
      else if not (type_eq field.type type)
      then fail (invalid_argument "field scalar type does not match accessor")
      else ok (accessor_of layout false field)
]

-- `MakeListFieldAccessor<T>`.
unfoldable pub make_list_field_accessor : FieldType → CompiledRowLayout → ℕ → StatusOr FieldAccessor
unfolding accessor_of
make_list_field_accessor type layout field_id = elim (find_layout field_id layout.fields) [
  | none ↦ fail (not_found "field is not active in layout")
  | some field ↦
      if not field.is_list
      then fail (invalid_argument "field is a scalar, not a list")
      else if not (type_eq field.type type)
      then fail (invalid_argument "field list element type does not match accessor")
      else ok (accessor_of layout true field)
]

-- The metadata that `Get` and `GetList` make of an accessor.
unfoldable pub metadata_of : FieldAccessor → AccessorMetadata
metadata_of accessor = record {
  schema_version = accessor.schema_version;
  layout_fingerprint = accessor.layout_fingerprint;
  field_id = accessor.field_id;
  is_list = accessor.is_list;
  physical_type = accessor.physical_type;
  encoding = accessor.encoding;
  offset = accessor.offset;
  presence_bit_index = accessor.presence_bit_index;
}

abbrev pub is_not_found : StatusCode → Bool
is_not_found StatusCode.not_found = true
is_not_found _ = false

-- What `Get<T>` makes of the read: a status "not found" is an empty result, another one is thrown.
unfoldable pub typed_scalar : FieldType → StatusOr ScalarValue → StatusOr (Option ScalarValue)
unfolding scalar_type
typed_scalar type (error s) = if is_not_found s.code then ok none else fail s
typed_scalar type (ok value) =
    if type_eq (scalar_type value) type
    then ok (some value)
    else fail (unknown "row decoder returned an unexpected scalar type")

-- `Get<T>` by identifier, and by accessor.
unfoldable pub get : FieldType → Row → ℕ → StatusOr (Option ScalarValue)
unfolding typed_scalar
get type row field_id = typed_scalar type (read_scalar_value row field_id type none)

unfoldable pub get_at : FieldType → Row → FieldAccessor → StatusOr (Option ScalarValue)
unfolding typed_scalar metadata_of
get_at type row accessor =
    typed_scalar type (read_scalar_value row accessor.field_id type (some (metadata_of accessor)))

-- The empty `ListView<T>`.
unfoldable pub empty_list : FieldType → ListValue
empty_list int8 = int8_items []
empty_list int32 = int32_items []
empty_list int64 = int64_items []
empty_list uint64 = uint64_items []
empty_list bool = bool_items []
empty_list string = string_items []

unfoldable pub typed_list : FieldType → StatusOr ListValue → StatusOr ListValue
unfolding list_type empty_list
typed_list type (error s) = if is_not_found s.code then ok (empty_list type) else fail s
typed_list type (ok value) =
    if type_eq (list_type value) type
    then ok value
    else fail (unknown "row decoder returned an unexpected list type")

-- `GetList<T>` by identifier, and by accessor.
unfoldable pub get_list : FieldType → Row → ℕ → StatusOr ListValue
unfolding typed_list
get_list type row field_id = typed_list type (read_list_value row field_id type none)

unfoldable pub get_list_at : FieldType → Row → FieldAccessor → StatusOr ListValue
unfolding typed_list metadata_of
get_list_at type row accessor =
    typed_list type (read_list_value row accessor.field_id type (some (metadata_of accessor)))
