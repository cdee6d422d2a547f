-- ===== src/Schema/Encoding.antt =====
-- src/model/schema.cc: the names of the encodings in a configuration.
use text.Mathlib.Text.{◌==◌ as str_eq}
use kv_index.Prelude.{String, Bool, true, not, ◌&&◌, ◌||◌, if◌then◌else◌, ◌≡◌, arith}
use kv_index.Status.{StatusOr, ok, fail, is_ok, invalid_argument}
use kv_index.Schema.{
  FieldType, FieldEncoding, fixed, arena, dictionary, list_dictionary, element_dictionary,
  is_string, list_encoding_status, string_encoding_status, scalar_encoding_status,
}

unfoldable pub field_encoding_config_name : FieldEncoding → String
field_encoding_config_name fixed = "fixed"
field_encoding_config_name arena = "arena"
field_encoding_config_name dictionary = "dictionary"
field_encoding_config_name list_dictionary = "dictionary"
field_encoding_config_name element_dictionary = "element_dictionary"

unfoldable pub parse_field_encoding : String → Bool → FieldType → StatusOr FieldEncoding
parse_field_encoding name is_list type =
    if str_eq name "fixed"
    then (if not is_list && not (is_string type)
        then ok fixed
        else fail
            (invalid_argument "fixed encoding is only valid for scalar numeric and bool fields"))
    else if str_eq name "arena"
    then (if is_list || is_string type
        then ok arena
        else fail (invalid_argument "arena encoding is only valid for strings and lists"))
    else if str_eq name "dictionary"
    then (if is_list
        then ok list_dictionary
        else if is_string type
        then ok dictionary
        else fail
            (invalid_argument "dictionary encoding is only valid for scalar strings and lists"))
    else if str_eq name "element_dictionary"
    then (if is_list && is_string type
        then ok element_dictionary
        else fail
            (invalid_argument "element_dictionary encoding is only valid for list<string> fields"))
    else fail (invalid_argument "unknown field encoding")

-- The encoding policy of a field's shape, as `ValidateEncodingPolicy` applies it.
unfoldable pub policy_accepts : Bool → FieldType → FieldEncoding → Bool
policy_accepts is_list type encoding =
    if is_list
    then is_ok (list_encoding_status type encoding)
    else if is_string type
    then is_ok (string_encoding_status encoding)
    else is_ok (scalar_encoding_status encoding)

-- An encoding that the policy accepts is parsed back from its name, for the same shape of field.
pub parse-config_name :
    (is_list : Bool) (type : FieldType) (encoding : FieldEncoding)
    → policy_accepts is_list type encoding ≡ true
    → parse_field_encoding (field_encoding_config_name encoding) is_list type ≡ ok encoding
unfolding policy_accepts parse_field_encoding field_encoding_config_name list_encoding_status
    string_encoding_status scalar_encoding_status
parse-config_name is_list type fixed h = ground arith
parse-config_name is_list type _ h = ground arith

-- Conversely, an encoding that a name is parsed to is one that the policy accepts for that shape.
pub parse-policy :
    (name : String) (is_list : Bool) (type : FieldType) (encoding : FieldEncoding)
    → parse_field_encoding name is_list type ≡ ok encoding
    → policy_accepts is_list type encoding ≡ true
unfolding policy_accepts parse_field_encoding list_encoding_status string_encoding_status
    scalar_encoding_status
parse-policy name is_list type encoding h = ground arith
