-- ===== src/Model/Read.antt =====
-- include/kv_index/row.h and src/model/row_storage.cc: reads of a materialised row's fields. An exception
-- that a read throws is an error here.
pub mod Scalar
pub mod Items
pub mod Accessor
pub mod Agrees
use kv_index.Prelude.{
  ℕ, zero, suc, ◌+◌, ◌-◌, ◌*◌, u32, ltb, ◌==◌, Bool, true, false, not, ◌&&◌, ◌||◌, if◌then◌else◌,
  Option, none, some, List, [], ◌∷◌, length, get_elem?, take, drop,
}
use kv_index.Status.{
  Status, StatusOr, StatusCode, ok, error, fail, ok_status, ◌>>=◌, ◌>>◌, require, check,
  invalid_argument, failed_precondition, not_found, unknown,
}
use kv_index.Base.ByteIo.{ValueRef16, read_little_endian, decode_value_ref16}
use kv_index.Schema.{
  FieldType, int8, int32, int64, uint64, bool, string, FieldEncoding, arena, dictionary,
  list_dictionary, element_dictionary, FieldDefaultValue, monostate, int8_value, int32_value,
  int64_value, uint64_value, bool_value, string_value, int8_list, int32_list, int64_list,
  uint64_list, bool_list, string_list, has_default, is_string, field_type_size,
}
use kv_index.Schema.Layout.{FieldLayout, CompiledRowLayout, find_layout}
use kv_index.Model.EncodedRow.{EncodedRow}
use kv_index.Model.Row.{Row, field_present}
use kv_index.Model.Value.{
  ScalarValue, ListValue, int8_scalar, int32_scalar, int64_scalar, uint64_scalar, bool_scalar,
  string_scalar, int8_items, int32_items, int64_items, uint64_items, bool_items, string_items,
  scalar_of_bits, list_of_bits,
}
use kv_index.Model.Write.{type_eq, encoding_eq}

-- `Row::AccessorMetadata`.
pub record AccessorMetadata : Type 0 where
  pub schema_version : ℕ
  pub layout_fingerprint : ℕ
  pub field_id : ℕ
  pub is_list : Bool
  pub physical_type : FieldType
  pub encoding : FieldEncoding
  pub offset : ℕ
  pub presence_bit_index : ℕ

abbrev pub bool_eq : Bool → Bool → Bool
bool_eq true b = b
bool_eq false b = not b

unfoldable pub has_bytes : ℕ → ℕ → ℕ → Bool
has_bytes size offset byte_count = not (ltb size offset) && not (ltb (size - offset) byte_count)

-- The accessor's versions are those of the row and of the layout.
unfoldable pub same_versions : AccessorMetadata → EncodedRow → CompiledRowLayout → Bool
same_versions accessor row layout =
    accessor.schema_version == row.schema_version
    && accessor.schema_version == layout.schema_version
    && accessor.layout_fingerprint == row.layout_fingerprint
    && accessor.layout_fingerprint == layout.layout_fingerprint

unfoldable pub validate_accessor :
    Option AccessorMetadata
    → FieldLayout
    → EncodedRow
    → CompiledRowLayout
    → FieldType
    → Bool
    → Status
unfolding same_versions
validate_accessor none field row layout expected_type expected_list = ok_status
validate_accessor (some accessor) field row layout expected_type expected_list =
    if not (same_versions accessor row layout)
      || not (accessor.field_id == field.field_id)
      || not (bool_eq accessor.is_list expected_list)
      || not (type_eq accessor.physical_type expected_type)
      || not (encoding_eq accessor.encoding field.encoding)
      || not (accessor.offset == field.slot_offset)
      || not (accessor.presence_bit_index == field.presence_bit_index)
    then failed_precondition "field accessor does not match this row layout"
    else ok_status

-- The first checks of `ResolveField`, for a row that has a backing.
unfoldable pub check_backing : Row → Option AccessorMetadata → Status
unfolding same_versions
check_backing row accessor =
    if not (row.encoded.schema_version == row.layout.schema_version)
      || not (row.encoded.layout_fingerprint == row.layout.layout_fingerprint)
    then failed_precondition "row backing does not match compiled layout"
    else elim accessor [
      | none ↦ ok_status
      | some a ↦
          require (same_versions a row.encoded row.layout)
            (failed_precondition "field accessor does not match this row layout")
    ]

unfoldable pub resolve_field :
    Row → ℕ → FieldType → Bool → Option AccessorMetadata → StatusOr FieldLayout
unfolding check_backing validate_accessor
resolve_field row field_id expected_type expected_list accessor =
    check_backing row accessor >> (elim (find_layout field_id row.layout.fields) [
      | none ↦ elim accessor [
        | some a ↦ fail (failed_precondition "field accessor does not match this row layout")
        | none ↦ fail (not_found "field is not active in row layout")
      ]
      | some field ↦
          if not (bool_eq field.is_list expected_list)
          then fail (invalid_argument "field scalar/list shape does not match read")
          else if not (type_eq field.type expected_type)
          then fail (invalid_argument "field physical type does not match read")
          else (validate_accessor accessor field row.encoded row.layout expected_type expected_list
              >> ok field)
    ])

unfoldable pub read_ref : FieldLayout → EncodedRow → StatusOr ValueRef16
unfolding has_bytes
read_ref field row =
    if not (has_bytes (length row.row_slot) field.slot_offset 16)
    then fail (invalid_argument "value ref is out of row-slot bounds")
    else decode_value_ref16 row.row_slot field.slot_offset

unfoldable pub validate_ref_bounds : ValueRef16 → ℕ → Status
validate_ref_bounds ref payload_size =
    if ltb payload_size ref.offset
    then invalid_argument "value ref offset is out of bounds"
    else if ltb (payload_size - ref.offset) ref.byte_length
    then invalid_argument "value ref length is out of bounds"
    else ok_status

-- `std::get<T>` for the type of a field; another alternative throws `std::bad_variant_access`.
unfoldable pub scalar_default : FieldType → FieldDefaultValue → StatusOr ScalarValue
scalar_default int8 (int8_value v) = ok (int8_scalar v)
scalar_default int32 (int32_value v) = ok (int32_scalar v)
scalar_default int64 (int64_value v) = ok (int64_scalar v)
scalar_default uint64 (uint64_value v) = ok (uint64_scalar v)
scalar_default bool (bool_value v) = ok (bool_scalar v)
scalar_default string (string_value v) = ok (string_scalar v)
scalar_default _ _ = fail (unknown "std::bad_variant_access")

unfoldable pub list_default : FieldType → FieldDefaultValue → StatusOr ListValue
list_default int8 (int8_list v) = ok (int8_items v)
list_default int32 (int32_list v) = ok (int32_items v)
list_default int64 (int64_list v) = ok (int64_items v)
list_default uint64 (uint64_list v) = ok (uint64_items v)
list_default bool (bool_list v) = ok (bool_items v)
list_default string (string_list v) = ok (string_items v)
list_default _ _ = fail (unknown "std::bad_variant_access")

unfoldable pub default_scalar_value : FieldLayout → StatusOr ScalarValue
unfolding has_default scalar_default
default_scalar_value field =
    if has_default field.default_value
    then scalar_default field.type field.default_value
    else if field.nullable
    then fail (not_found "field is absent and has no default")
    else fail (failed_precondition "required field is missing")

unfoldable pub default_list_value : FieldLayout → StatusOr ListValue
unfolding has_default list_default
default_list_value field =
    if has_default field.default_value
    then list_default field.type field.default_value
    else if field.nullable
    then fail (not_found "list field is absent and has no default")
    else fail (failed_precondition "required list field is missing")

-- The loop of `DecodeScalarListBytes`: the patterns of `left` values from index `i` on, those of
-- Boolean values checked.
unfoldable pub read_patterns : FieldType → (bytes : List ℕ) (left i : ℕ) → StatusOr (List ℕ)
unfolding field_type_size
read_patterns type bytes zero i = ok []
read_patterns type bytes (suc left) i = do
  u ← read_little_endian (field_type_size type) bytes (i * field_type_size type)
  require (not (type_eq type bool && ltb 1 u))
      (invalid_argument "encoded bool list value is invalid")
  us ← read_patterns type bytes left (i + 1)
  ok (u ∷ us)

-- `DecodeScalarListByType`, with `DecodeScalarListBytes` for its cases.
unfoldable pub decode_scalar_list : FieldType → List ℕ → ℕ → StatusOr ListValue
unfolding read_patterns list_of_bits field_type_size
decode_scalar_list type bytes element_count =
    if is_string type
    then fail (invalid_argument "string list is not a scalar byte list")
    else if not (length bytes == element_count * field_type_size type)
    then fail (invalid_argument "list byte length does not match element count")
    else (read_patterns type bytes element_count 0 >>= λ us. ok (list_of_bits type us))

-- The loop of `DecodeArenaStringList`; `i * 16U` is a product of 32 bits.
unfoldable pub decode_string_refs : (bytes : List ℕ) (offset left i : ℕ) → StatusOr (List (List ℕ))
unfolding validate_ref_bounds
decode_string_refs bytes offset zero i = ok []
decode_string_refs bytes offset (suc left) i = do
  ref ← decode_value_ref16 bytes (offset + u32 (i * 16))
  validate_ref_bounds ref (length bytes)
  values ← decode_string_refs bytes offset left (i + 1)
  ok (take ref.byte_length (drop ref.offset bytes) ∷ values)

unfoldable pub decode_arena_string_list : ValueRef16 → EncodedRow → StatusOr ListValue
unfolding validate_ref_bounds decode_string_refs
decode_arena_string_list ref row =
    if not (ref.byte_length == ref.element_count_or_flags * 16)
    then fail (invalid_argument "string list ref payload has invalid length")
    else (validate_ref_bounds ref (length row.arena)
        >> (decode_string_refs row.arena ref.offset ref.element_count_or_flags 0 >>= λ values.
            ok (string_items values)))
