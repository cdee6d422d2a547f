-- ===== src/Model/Read/Items.antt =====
-- src/model/row_storage.cc: `Row::ReadListValue`.
use kv_index.Prelude.{
  ℕ, zero, suc, ◌+◌, ◌*◌, u32, ◌==◌, true, not, if◌then◌else◌, Option, none, some, List, [], ◌∷◌,
  length, get_elem?, take, drop,
}
use kv_index.Status.{StatusOr, ok, fail, ◌>>=◌, ◌>>◌, invalid_argument}
use kv_index.Base.ByteIo.{ValueRef16, read_little_endian}
use kv_index.Schema.{
  FieldType, FieldEncoding, arena, list_dictionary, element_dictionary, is_string,
}
use kv_index.Schema.Layout.{FieldLayout}
use kv_index.Model.EncodedRow.{EncodedRow}
use kv_index.Model.Row.{Row, field_present}
use kv_index.Model.Value.{ListValue, string_items}
use kv_index.Model.Read.{
  AccessorMetadata, resolve_field, read_ref, validate_ref_bounds, default_list_value,
  decode_scalar_list, decode_arena_string_list,
}

-- The loop over the identifiers in the element dictionary.
unfoldable pub read_elements :
    (entries : List (List ℕ)) (bytes : List ℕ) (offset left i : ℕ) → StatusOr (List (List ℕ))
read_elements entries bytes offset zero i = ok []
read_elements entries bytes offset (suc left) i = do
  dictionary_id ← read_little_endian 4 bytes (offset + i * 4)
  value ← elim (get_elem? entries dictionary_id) [
    | none ↦ fail (invalid_argument "element dictionary string id is out of bounds")
    | some value ↦ ok value
  ]
  values ← read_elements entries bytes offset left (i + 1)
  ok (value ∷ values)

unfoldable pub read_arena_list : FieldType → ValueRef16 → EncodedRow → StatusOr ListValue
unfolding validate_ref_bounds decode_arena_string_list decode_scalar_list
read_arena_list type ref row =
    validate_ref_bounds ref (length row.arena)
    >> (if is_string type
        then decode_arena_string_list ref row
        else decode_scalar_list type (take ref.byte_length (drop ref.offset row.arena))
            ref.element_count_or_flags)

unfoldable pub read_dictionary_list : FieldType → ValueRef16 → EncodedRow → StatusOr ListValue
unfolding decode_scalar_list
read_dictionary_list type ref row =
    if is_string type
    then elim (get_elem? row.string_list_dictionary ref.offset) [
      | none ↦ fail (invalid_argument "string-list dictionary id is out of bounds")
      | some values ↦
          if length values == ref.element_count_or_flags
          then ok (string_items values)
          else fail (invalid_argument "string-list dictionary count does not match ref")
    ]
    else elim (get_elem? row.scalar_list_dictionary ref.offset) [
      | none ↦ fail (invalid_argument "scalar-list dictionary id is out of bounds")
      | some payload ↦ decode_scalar_list type payload ref.element_count_or_flags
    ]

unfoldable pub read_element_list : FieldType → ValueRef16 → EncodedRow → StatusOr ListValue
unfolding validate_ref_bounds read_elements
read_element_list type ref row =
    if not (is_string type)
    then fail (invalid_argument "element dictionary lists are only supported for strings")
    else (validate_ref_bounds ref (length row.arena)
        >> (if not (ref.byte_length == u32 (ref.element_count_or_flags * 4))
            then fail
                (invalid_argument "element dictionary ref length does not match element count")
            else (read_elements row.string_element_dictionary row.arena ref.offset
                  ref.element_count_or_flags 0
                >>= λ values. ok (string_items values))))

-- The list behind a reference, by the field's encoding.
unfoldable pub read_list : FieldEncoding → FieldType → ValueRef16 → EncodedRow → StatusOr ListValue
unfolding read_arena_list read_dictionary_list read_element_list
read_list arena type ref row = read_arena_list type ref row
read_list list_dictionary type ref row = read_dictionary_list type ref row
read_list element_dictionary type ref row = read_element_list type ref row
read_list _ type ref row = fail (invalid_argument "list field has unsupported encoding")

-- The value of a list field that is present.
unfoldable pub read_present_list : FieldLayout → EncodedRow → StatusOr ListValue
unfolding read_ref read_list
read_present_list field row =
    read_ref field row >>= λ ref. read_list field.encoding field.type ref row

unfoldable pub read_list_value : Row → ℕ → FieldType → Option AccessorMetadata → StatusOr ListValue
unfolding resolve_field field_present default_list_value read_present_list
read_list_value row field_id expected_type accessor =
    resolve_field row field_id expected_type true accessor >>= λ field.
    if field_present field row.encoded
    then read_present_list field row.encoded
    else default_list_value field
