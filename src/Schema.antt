-- ===== src/Schema.antt =====
-- include/kv_index/schema.h and src/model/schema.cc: field definitions and the schema's history. The
-- row layout compiled from them is in Schema/Layout.antt.
pub mod Encoding
pub mod History
pub mod Fingerprint
pub mod Layout
use text.Mathlib.Text.{◌==◌ as str_eq}
use kv_index.Prelude.{
  ℕ, ℤ, String, ◌==◌, Bool, true, false, not, ◌&&◌, ◌||◌, Option, none, some, List, [], ◌∷◌, ◌++◌,
  if◌then◌else◌,
}
use kv_index.Status.{
  Status, StatusOr, ok, fail, ok_status, is_ok, invalid_argument, failed_precondition, not_found,
}

pub data FieldType : Type 0 where
  int8 int32 int64 uint64 bool string : FieldType

pub data FieldEncoding : Type 0 where
  fixed arena dictionary list_dictionary element_dictionary : FieldEncoding

-- The alternatives of `FieldDefaultValue`, in the order of the variant. A string is its bytes.
pub data FieldDefaultValue : Type 0 where
  monostate : FieldDefaultValue
  int8_value int32_value int64_value : ℤ → FieldDefaultValue
  uint64_value : ℕ → FieldDefaultValue
  bool_value : Bool → FieldDefaultValue
  string_value : List ℕ → FieldDefaultValue
  int8_list int32_list int64_list : List ℤ → FieldDefaultValue
  uint64_list : List ℕ → FieldDefaultValue
  bool_list : List Bool → FieldDefaultValue
  string_list : List (List ℕ) → FieldDefaultValue

pub record FieldSpec : Type 0 where
  pub field_id : ℕ
  pub name : List ℕ
  pub type : FieldType
  pub is_list : Bool
  pub nullable : Bool
  pub encoding : FieldEncoding
  pub default_value : FieldDefaultValue
  pub deleted : Bool

-- `HasDefault`.
unfoldable pub has_default : FieldDefaultValue → Bool
has_default monostate = false
has_default _ = true

pub record RuntimeSchema : Type 0 where
  pub version : ℕ
  pub active_fields : List FieldSpec
  pub deleted_fields : List FieldSpec

-- Whether the default is the alternative of a list, or of a scalar, of the type.
unfoldable pub holds_list : FieldType → FieldDefaultValue → Bool
holds_list int8 (int8_list v) = true
holds_list int32 (int32_list v) = true
holds_list int64 (int64_list v) = true
holds_list uint64 (uint64_list v) = true
holds_list bool (bool_list v) = true
holds_list string (string_list v) = true
holds_list _ _ = false

unfoldable pub holds_scalar : FieldType → FieldDefaultValue → Bool
holds_scalar int8 (int8_value v) = true
holds_scalar int32 (int32_value v) = true
holds_scalar int64 (int64_value v) = true
holds_scalar uint64 (uint64_value v) = true
holds_scalar bool (bool_value v) = true
holds_scalar string (string_value v) = true
holds_scalar _ _ = false

unfoldable pub default_matches_field : FieldSpec → Bool
unfolding has_default holds_list holds_scalar
default_matches_field field =
    if not (has_default field.default_value)
    then true
    else if field.is_list
    then holds_list field.type field.default_value
    else holds_scalar field.type field.default_value

abbrev pub is_string : FieldType → Bool
is_string string = true
is_string _ = false

-- The encodings that `ValidateEncodingPolicy` accepts, for a list, a string and another scalar.
unfoldable pub list_encoding_status : FieldType → FieldEncoding → Status
list_encoding_status type arena = ok_status
list_encoding_status type list_dictionary = ok_status
list_encoding_status type element_dictionary =
    if is_string type
    then ok_status
    else invalid_argument "element dictionary lists are only supported for strings"
list_encoding_status type _ = invalid_argument "list field has invalid encoding"

unfoldable pub string_encoding_status : FieldEncoding → Status
string_encoding_status arena = ok_status
string_encoding_status dictionary = ok_status
string_encoding_status _ = invalid_argument "string field has invalid encoding"

unfoldable pub scalar_encoding_status : FieldEncoding → Status
scalar_encoding_status fixed = ok_status
scalar_encoding_status _ = invalid_argument "fixed scalar field has invalid encoding"

abbrev pub is_empty {ℓ} : {A : Type ℓ} → List A → Bool
is_empty [] = true
is_empty (x ∷ xs) = false

unfoldable pub validate_encoding_policy : FieldSpec → Status
unfolding default_matches_field list_encoding_status string_encoding_status scalar_encoding_status
validate_encoding_policy field =
    if is_empty field.name
    then invalid_argument "field name must not be empty"
    else if field.deleted
    then invalid_argument "new fields must not be marked deleted"
    else if not (default_matches_field field)
    then invalid_argument "field default does not match field type"
    else if field.is_list
    then list_encoding_status field.type field.encoding
    else if is_string field.type
    then string_encoding_status field.encoding
    else scalar_encoding_status field.encoding

-- `FindField` and `FindDeletedField`: the first field of the identifier.
unfoldable pub find_field : ℕ → List FieldSpec → Option FieldSpec
find_field field_id [] = none
find_field field_id (f ∷ fs) = if f.field_id == field_id then some f else find_field field_id fs

abbrev pub is_some {ℓ} : {A : Type ℓ} → Option A → Bool
is_some none = false
is_some (some a) = true

unfoldable pub add_field : RuntimeSchema → FieldSpec → Status × RuntimeSchema
add_field schema field =
    if is_some (find_field field.field_id schema.active_fields)
      || is_some (find_field field.field_id schema.deleted_fields)
    then (failed_precondition "field id already exists in schema history", schema)
    else if not (is_ok (validate_encoding_policy field))
    then (validate_encoding_policy field, schema)
    else (ok_status, record schema { active_fields = schema.active_fields ++ field ∷ [] })

-- `active_fields_.erase(it)` for the iterator that `find_if` returned.
unfoldable pub erase_field : ℕ → List FieldSpec → List FieldSpec
erase_field field_id [] = []
erase_field field_id (f ∷ fs) = if f.field_id == field_id then fs else f ∷ erase_field field_id fs

unfoldable pub delete_field : RuntimeSchema → ℕ → Status × RuntimeSchema
delete_field schema field_id = elim (find_field field_id schema.active_fields) [
  | none ↦ (not_found "field id is not active", schema)
  | some field ↦ (
    ok_status,
    record schema {
      deleted_fields = schema.deleted_fields ++ record field { deleted = true } ∷ [];
      active_fields = erase_field field_id schema.active_fields;
    },
  )
]

-- The constant `kValueRef16Size`.
abbrev pub value_ref16_size : ℕ
value_ref16_size = 16

unfoldable pub field_type_size : FieldType → ℕ
field_type_size int8 = 1
field_type_size bool = 1
field_type_size int32 = 4
field_type_size int64 = 8
field_type_size uint64 = 8
field_type_size string = value_ref16_size

unfoldable pub field_type_alignment : FieldType → ℕ
field_type_alignment int8 = 1
field_type_alignment bool = 1
field_type_alignment int32 = 4
field_type_alignment _ = 8
