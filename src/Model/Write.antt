-- ===== src/Model/Write.antt =====
-- src/model/row_storage.{h,cc}: the writers of an encoded row's fields. A writer takes the row by
-- pointer, which no caller passes as null, and returns the row after the call beside its status.
pub mod Slot
pub mod Refs
pub mod Effect
pub mod Scalars
pub mod Strings
pub mod Patterns
pub mod ScalarLists
pub mod ListRefs
use kv_index.Prelude.{
  ℕ, ◌+◌, ◌-◌, ◌*◌, ◌/◌, ◌%◌, ◌^◌, bit_or, u32, ltb, Bool, true, false, not, ◌||◌, if◌then◌else◌,
  List, [], ◌∷◌, ◌++◌, length, get_or, set, replicate,
}
use kv_index.Status.{Status, StatusOr, ok, error, fail, ok_status, is_ok, invalid_argument}
use kv_index.Base.ByteIo.{ValueRef16, then_write, write_little_endian, write_value_ref16}
use kv_index.Schema.{
  FieldType, int8, int32, int64, uint64, bool, string, FieldEncoding, fixed, arena, dictionary,
  list_dictionary, element_dictionary, is_string, field_type_size,
}
use kv_index.Schema.Layout.{FieldLayout, CompiledRowLayout}
use kv_index.Model.EncodedRow.{EncodedRow}
use kv_index.Model.Value.{ScalarValue, ListValue, scalar_type, scalar_bits, list_type, list_bits}

-- `operator==` of the two enumerations.
abbrev pub type_eq : FieldType → FieldType → Bool
type_eq int8 int8 = true
type_eq int32 int32 = true
type_eq int64 int64 = true
type_eq uint64 uint64 = true
type_eq bool bool = true
type_eq string string = true
type_eq _ _ = false

abbrev pub encoding_eq : FieldEncoding → FieldEncoding → Bool
encoding_eq fixed fixed = true
encoding_eq arena arena = true
encoding_eq dictionary dictionary = true
encoding_eq list_dictionary list_dictionary = true
encoding_eq element_dictionary element_dictionary = true
encoding_eq _ _ = false

-- `std::numeric_limits<std::uint32_t>::max()`.
abbrev pub uint32_max : ℕ
uint32_max = 2 ^ 32 - 1

unfoldable pub create_encoded_row : CompiledRowLayout → EncodedRow
create_encoded_row layout = record {
  schema_version = layout.schema_version;
  layout_fingerprint = layout.layout_fingerprint;
  row_slot = replicate layout.row_slot_size 0;
  arena = [];
  string_dictionary = [];
  scalar_list_dictionary = [];
  string_list_dictionary = [];
  string_element_dictionary = [];
}

unfoldable pub set_field_present : FieldLayout → EncodedRow → Status × EncodedRow
set_field_present field encoded =
    let byte_index = field.presence_bit_index / 8 in
    let bit_index = field.presence_bit_index % 8 in
    if not (ltb byte_index (length encoded.row_slot))
    then (invalid_argument "presence bit is out of row-slot bounds", encoded)
    else (
      ok_status,
      record encoded {
        row_slot =
            set encoded.row_slot byte_index
              (bit_or (get_or encoded.row_slot byte_index 0) (2 ^ bit_index));
      },
    )

-- What the two writers of the slot end with: the slot after a write, and the presence bit if it succeeded.
unfoldable pub finish_write : FieldLayout → EncodedRow → Status × List ℕ → Status × EncodedRow
unfolding set_field_present
finish_write field encoded (status, row_slot) =
    if is_ok status
    then set_field_present field (record encoded { row_slot = row_slot })
    else (status, record encoded { row_slot = row_slot })

unfoldable pub write_value_ref_field : FieldLayout → ValueRef16 → EncodedRow → Status × EncodedRow
unfolding finish_write
write_value_ref_field field ref encoded =
    if not field.uses_ref
    then (invalid_argument "field does not use a value ref", encoded)
    else finish_write field encoded (write_value_ref16 ref encoded.row_slot field.slot_offset)

-- `WriteScalarField<T>`, for the types other than strings.
unfoldable pub write_scalar_field : FieldLayout → ScalarValue → EncodedRow → Status × EncodedRow
unfolding finish_write scalar_type
write_scalar_field field value encoded =
    if field.is_list || field.uses_ref || not (type_eq field.type (scalar_type value))
    then (invalid_argument "scalar field writer does not match field", encoded)
    else if ltb (length encoded.row_slot) field.slot_offset
        || ltb (length encoded.row_slot - field.slot_offset) field.value_width
    then (invalid_argument "scalar field offset is out of row-slot bounds", encoded)
    else finish_write field encoded (
        write_little_endian (field_type_size (scalar_type value)) (scalar_bits value)
          encoded.row_slot field.slot_offset)

unfoldable pub write_arena_string_field : FieldLayout → List ℕ → EncodedRow → Status × EncodedRow
write_arena_string_field field value encoded =
    if field.is_list || not (type_eq field.type string) || not (encoding_eq field.encoding arena)
    then (invalid_argument "arena string writer does not match field", encoded)
    else if ltb uint32_max (length value)
    then (invalid_argument "string value is too large", encoded)
    else write_value_ref_field field
        (record {
          offset = length encoded.arena;
          byte_length = u32 (length value);
          element_count_or_flags = 0;
        })
        (record encoded { arena = encoded.arena ++ value })

unfoldable pub write_dictionary_string_field : FieldLayout → ℕ → EncodedRow → Status × EncodedRow
write_dictionary_string_field field dictionary_id encoded =
    if field.is_list
      || not (type_eq field.type string)
      || not (encoding_eq field.encoding dictionary)
    then (invalid_argument "dictionary string writer does not match field", encoded)
    else write_value_ref_field field
        (record { offset = dictionary_id; byte_length = 0; element_count_or_flags = 0 }) encoded

unfoldable pub write_list_dictionary_field : FieldLayout → ℕ → ℕ → EncodedRow → Status × EncodedRow
write_list_dictionary_field field dictionary_id element_count encoded =
    if not field.is_list || not (encoding_eq field.encoding list_dictionary)
    then (invalid_argument "list dictionary writer does not match field", encoded)
    else write_value_ref_field field
        (record { offset = dictionary_id; byte_length = 0; element_count_or_flags = element_count })
        encoded

-- The loops of `EncodeScalarListSpan` and of `WriteElementDictionaryStringListField`, which write
-- patterns of one width one behind the other: from index `i` on, into bytes from `offset` on.
unfoldable pub write_patterns :
    (width : ℕ) (values : List ℕ) (i offset : ℕ) (bytes : List ℕ) → Status × List ℕ
write_patterns width [] i offset bytes = (ok_status, bytes)
write_patterns width (value ∷ values) i offset bytes =
    then_write (write_little_endian width value bytes (offset + i * width))
      (write_patterns width values (i + 1) offset)

unfoldable pub encode_scalar_list : ListValue → StatusOr (List ℕ)
unfolding list_type write_patterns
encode_scalar_list values =
    let width = field_type_size (list_type values) in
    let patterns = list_bits values in
    let written = write_patterns width patterns 0 0 (replicate (length patterns * width) 0) in
    if is_string (list_type values)
    then fail (invalid_argument "string lists require ref-based encoding")
    else if is_ok (written.0)
    then ok (written.1)
    else fail (written.0)

-- `WriteArenaListField<T>`.
unfoldable pub write_arena_list_field : FieldLayout → ListValue → EncodedRow → Status × EncodedRow
write_arena_list_field field values encoded =
    if not field.is_list
      || not (encoding_eq field.encoding arena)
      || not (type_eq field.type (list_type values))
    then (invalid_argument "arena list writer does not match field", encoded)
    else if is_string (list_type values)
    then (invalid_argument "arena list<string> builder is not implemented", encoded)
    else elim (encode_scalar_list values) [
      | error s ↦ (s, encoded)
      | ok payload ↦
          write_value_ref_field field
            (record {
              offset = length encoded.arena;
              byte_length = u32 (length payload);
              element_count_or_flags = u32 (length (list_bits values));
            })
            (record encoded { arena = encoded.arena ++ payload })
    ]

-- The part of `WriteElementDictionaryStringListField` behind its loop.
unfoldable pub write_ids_ref :
    FieldLayout → ℕ → ℕ → EncodedRow → Status × List ℕ → Status × EncodedRow
write_ids_ref field offset count encoded (status, bytes) =
    if is_ok status
    then write_value_ref_field field
        (record {
          offset = offset;
          byte_length = u32 (count * 4);
          element_count_or_flags = u32 count;
        })
        (record encoded { arena = bytes })
    else (status, record encoded { arena = bytes })

unfoldable pub write_element_dictionary_string_list_field :
    FieldLayout → List ℕ → EncodedRow → Status × EncodedRow
unfolding write_patterns write_ids_ref
write_element_dictionary_string_list_field field dictionary_ids encoded =
    if not field.is_list
      || not (type_eq field.type string)
      || not (encoding_eq field.encoding element_dictionary)
    then (invalid_argument "element dictionary string-list writer does not match field", encoded)
    else if ltb uint32_max (length dictionary_ids)
    then (invalid_argument "string-list dictionary id count is too large", encoded)
    else write_ids_ref field (length encoded.arena) (length dictionary_ids) encoded (
        write_patterns 4 dictionary_ids 0 (length encoded.arena)
          (encoded.arena ++ replicate (length dictionary_ids * 4) 0))
