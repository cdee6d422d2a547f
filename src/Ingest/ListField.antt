-- ===== src/Ingest/ListField.antt =====
-- src/ingest/update_applier.cc: a decoded value written to a list field.
pub mod Fixed
pub mod StringRefs
pub mod Elements
pub mod Shows
use kv_index.Prelude.{
  ℕ, ◌+◌, ◌*◌, u32, ltb, Bool, not, ◌||◌, if◌then◌else◌, String, Option, none, some, List, [], ◌∷◌,
  ◌++◌, length, replicate, map,
}
use kv_index.Status.{Status, StatusOr, ok, error, fail, ok_status, is_ok, ◌>>=◌, invalid_argument}
use kv_index.Base.ByteIo.{then_write, write_value_ref16}
use kv_index.Schema.{
  FieldType, int8, int32, int64, uint64, bool, string, FieldEncoding, arena, list_dictionary,
  element_dictionary, int8_list, int32_list, int64_list, uint64_list, bool_list, string_list,
}
use kv_index.Schema.Layout.{FieldLayout}
use kv_index.Model.EncodedRow.{EncodedRow}
use kv_index.Model.Value.{
  ListValue, int8_items, int32_items, int64_items, uint64_items, bool_items, string_items,
  bool_bits, list_bits,
}
use kv_index.Model.Write.{
  type_eq, encoding_eq, uint32_max, write_value_ref_field, write_list_dictionary_field,
  encode_scalar_list, write_arena_list_field, write_element_dictionary_string_list_field,
}
use kv_index.Ingest.Payload.{DecodedValue, DecodedField}

-- `GetValue<T>` for the type of the items of a list field.
unfoldable pub get_items : FieldType → DecodedValue → Option ListValue
get_items int8 (int8_list v) = some (int8_items v)
get_items int32 (int32_list v) = some (int32_items v)
get_items int64 (int64_list v) = some (int64_items v)
get_items uint64 (uint64_list v) = some (uint64_items v)
get_items bool (bool_list v) = some (bool_items v)
get_items string (string_list v) = some (string_items v)
get_items _ _ = none

abbrev pub list_mismatch : FieldType → String
list_mismatch int8 = "payload int8-list field type mismatch"
list_mismatch int32 = "payload int32-list field type mismatch"
list_mismatch int64 = "payload int64-list field type mismatch"
list_mismatch uint64 = "payload uint64-list field type mismatch"
list_mismatch bool = "payload bool-list field type mismatch"
list_mismatch string = "payload string-list field type mismatch"

-- The loop of `WriteArenaStringListField`: each string goes to the end of the arena, its reference to
-- the place that was kept for it.
unfoldable pub write_string_refs :
    (values : List (List ℕ)) (i refs_offset : ℕ) (bytes : List ℕ) → Status × List ℕ
write_string_refs [] i refs_offset bytes = (ok_status, bytes)
write_string_refs (value ∷ values) i refs_offset bytes =
    if ltb uint32_max (length value)
    then (invalid_argument "string-list element is too large", bytes)
    else then_write
        (write_value_ref16
          (record {
            offset = length bytes;
            byte_length = u32 (length value);
            element_count_or_flags = 0;
          })
          (bytes ++ value) (refs_offset + i * 16))
        (write_string_refs values (i + 1) refs_offset)

-- The part of `WriteArenaStringListField` behind the loop.
unfoldable pub write_refs_ref :
    FieldLayout → ℕ → ℕ → EncodedRow → Status × List ℕ → Status × EncodedRow
write_refs_ref field refs_offset count encoded (status, bytes) =
    if is_ok status
    then write_value_ref_field field
        (record {
          offset = refs_offset;
          byte_length = u32 (count * 16);
          element_count_or_flags = u32 count;
        })
        (record encoded { arena = bytes })
    else (status, record encoded { arena = bytes })

unfoldable pub write_arena_string_list_field :
    FieldLayout → List (List ℕ) → EncodedRow → Status × EncodedRow
unfolding write_string_refs write_refs_ref
write_arena_string_list_field field values encoded =
    if not field.is_list
      || not (type_eq field.type string)
      || not (encoding_eq field.encoding arena)
    then (invalid_argument "arena string-list writer does not match field", encoded)
    else if ltb uint32_max (length values)
    then (invalid_argument "string-list value count is too large", encoded)
    else if ltb uint32_max (length values * 16)
    then (invalid_argument "string-list ref bytes are too large", encoded)
    else write_refs_ref field (length encoded.arena) (length values) encoded (
        write_string_refs values 0 (length encoded.arena)
          (encoded.arena ++ replicate (length values * 16) 0))

unfoldable pub encode_bool_list_bytes : List Bool → StatusOr (List ℕ)
encode_bool_list_bytes values =
    if ltb uint32_max (length values)
    then fail (invalid_argument "bool-list value count is too large")
    else ok (map bool_bits values)

unfoldable pub write_arena_bool_list_field :
    FieldLayout → List Bool → EncodedRow → Status × EncodedRow
unfolding encode_bool_list_bytes
write_arena_bool_list_field field values encoded =
    if not field.is_list || not (type_eq field.type bool) || not (encoding_eq field.encoding arena)
    then (invalid_argument "arena bool-list writer does not match field", encoded)
    else elim (encode_bool_list_bytes values) [
      | error s ↦ (s, encoded)
      | ok payload ↦
          write_value_ref_field field
            (record {
              offset = length encoded.arena;
              byte_length = u32 (length payload);
              element_count_or_flags = u32 (length values);
            })
            (record encoded { arena = encoded.arena ++ payload })
    ]

-- `WriteListDictionaryScalarList`.
unfoldable pub write_list_dictionary_scalar_list :
    FieldLayout → ListValue → EncodedRow → Status × EncodedRow
write_list_dictionary_scalar_list field values encoded =
    if ltb uint32_max (length (list_bits values))
      || ltb uint32_max (length encoded.scalar_list_dictionary)
    then (invalid_argument "scalar-list dictionary entry is too large", encoded)
    else elim (encode_scalar_list values) [
      | error s ↦ (s, encoded)
      | ok payload ↦
          write_list_dictionary_field field (u32 (length encoded.scalar_list_dictionary))
            (u32 (length (list_bits values)))
            (record encoded {
              scalar_list_dictionary = encoded.scalar_list_dictionary ++ payload ∷ [];
            })
    ]

-- The same for Boolean values, in `WriteListFieldValue`.
unfoldable pub write_list_dictionary_bool_list :
    FieldLayout → List Bool → EncodedRow → Status × EncodedRow
unfolding encode_bool_list_bytes
write_list_dictionary_bool_list field values encoded = elim (encode_bool_list_bytes values) [
  | error s ↦ (s, encoded)
  | ok payload ↦
      if ltb uint32_max (length encoded.scalar_list_dictionary)
      then (invalid_argument "scalar-list dictionary is too large", encoded)
      else write_list_dictionary_field field (u32 (length encoded.scalar_list_dictionary))
          (u32 (length values))
          (record encoded {
            scalar_list_dictionary = encoded.scalar_list_dictionary ++ payload ∷ [];
          })
]

-- The loop over the strings for the element dictionary: their identifiers, and the dictionary.
unfoldable pub push_elements : List (List ℕ) → List (List ℕ) → StatusOr (List ℕ × List (List ℕ))
push_elements [] entries = ok ([], entries)
push_elements (value ∷ values) entries =
    let rest = push_elements values (entries ++ value ∷ []) in
    if ltb uint32_max (length entries)
    then fail (invalid_argument "string element dictionary is too large")
    else (rest >>= λ r. ok (u32 (length entries) ∷ r.0, r.1))

-- The case of strings in `WriteListFieldValue`, by the encoding. (Where the element dictionary
-- overflows, what was pushed to it is not shown: the row is given up.)
unfoldable pub write_string_items :
    FieldEncoding → FieldLayout → List (List ℕ) → EncodedRow → Status × EncodedRow
unfolding write_arena_string_list_field push_elements
write_string_items arena field values encoded = write_arena_string_list_field field values encoded
write_string_items list_dictionary field values encoded =
    if ltb uint32_max (length values) || ltb uint32_max (length encoded.string_list_dictionary)
    then (invalid_argument "string-list dictionary entry is too large", encoded)
    else write_list_dictionary_field field (u32 (length encoded.string_list_dictionary))
        (u32 (length values))
        (record encoded { string_list_dictionary = encoded.string_list_dictionary ++ values ∷ [] })
write_string_items element_dictionary field values encoded =
    elim (push_elements values encoded.string_element_dictionary) [
      | error s ↦ (s, encoded)
      | ok (ids, entries) ↦
          write_element_dictionary_string_list_field field ids
            (record encoded { string_element_dictionary = entries })
    ]
write_string_items _ field values encoded =
    (invalid_argument "payload list field encoding unsupported", encoded)

unfoldable pub write_bool_items :
    FieldEncoding → FieldLayout → List Bool → EncodedRow → Status × EncodedRow
unfolding write_arena_bool_list_field write_list_dictionary_bool_list
write_bool_items arena field values encoded = write_arena_bool_list_field field values encoded
write_bool_items list_dictionary field values encoded =
    write_list_dictionary_bool_list field values encoded
write_bool_items _ field values encoded =
    (invalid_argument "payload list field encoding unsupported", encoded)

unfoldable pub write_integer_items :
    FieldEncoding → FieldLayout → ListValue → EncodedRow → Status × EncodedRow
unfolding write_list_dictionary_scalar_list
write_integer_items arena field values encoded = write_arena_list_field field values encoded
write_integer_items list_dictionary field values encoded =
    write_list_dictionary_scalar_list field values encoded
write_integer_items _ field values encoded =
    (invalid_argument "payload list field encoding unsupported", encoded)

unfoldable pub write_items : FieldLayout → ListValue → EncodedRow → Status × EncodedRow
unfolding write_string_items write_bool_items write_integer_items
write_items field (string_items values) encoded =
    write_string_items field.encoding field values encoded
write_items field (bool_items values) encoded = write_bool_items field.encoding field values encoded
write_items field values encoded = write_integer_items field.encoding field values encoded

unfoldable pub write_list_field_value :
    FieldLayout → DecodedField → EncodedRow → Status × EncodedRow
unfolding get_items write_items
write_list_field_value field decoded encoded =
    if not field.is_list
    then (invalid_argument "payload field shape does not match layout", encoded)
    else elim (get_items field.type decoded.value) [
      | none ↦ (invalid_argument (list_mismatch field.type), encoded)
      | some values ↦ write_items field values encoded
    ]
