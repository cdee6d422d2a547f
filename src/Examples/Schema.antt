-- ===== src/Examples/Schema.antt =====
-- A schema with a scalar, a string and a deleted field.
use kv_index.Prelude.{ℕ, ◌≡◌, refl, arith, true, false, [], ◌∷◌}
use kv_index.Status.{ok}
use kv_index.Schema.{
  FieldSpec, FieldType, FieldEncoding, RuntimeSchema, int32, string, fixed, arena,
  element_dictionary, dictionary, monostate, list_encoding_status, delete_field,
}
use kv_index.Schema.Encoding.{
  field_encoding_config_name, parse_field_encoding, parse-config_name, policy_accepts, parse-policy,
}
use kv_index.Schema.{
  add_field, find_field, validate_encoding_policy, default_matches_field, has_default,
  scalar_encoding_status,
}
use kv_index.Status.{is_ok}
use kv_index.Schema.History.{
  after_calls-never_reuses, delete, after_calls, uses_of, delete_field-uses,
}
use kv_index.Schema.Layout.{compile}
use kv_index.Schema.Layout.Fields.{HasFieldsOf}
use kv_index.Schema.Layout.Compile.{IsLaidOut, compile-IsLaidOut}

abbrev field_of : ℕ → FieldType → FieldEncoding → FieldSpec
field_of field_id type encoding = record {
  field_id = field_id;
  name = 110 ∷ [];
  type = type;
  is_list = false;
  nullable = true;
  encoding = encoding;
  default_value = monostate;
  deleted = false;
}

abbrev pub two_fields : RuntimeSchema
two_fields = record {
  version = 3;
  active_fields = field_of 9 string arena ∷ field_of 4 int32 fixed ∷ [];
  deleted_fields = [];
}

abbrev no_fields : RuntimeSchema
no_fields = record { version = 3; active_fields = []; deleted_fields = [] }

first_added : is_ok (add_field no_fields (field_of 4 int32 fixed)).0 ≡ true
unfolding add_field find_field validate_encoding_policy default_matches_field has_default
    scalar_encoding_status
first_added = refl

-- A field that is deleted and then added with another type.
after_calls-never_reuses_example :
    (is_ok
        (add_field
          (after_calls (add_field no_fields (field_of 4 int32 fixed)).1 (delete 4 ∷ []))
          (field_of 4 string arena)).0
      ≡ false)
    × ((add_field
          (after_calls (add_field no_fields (field_of 4 int32 fixed)).1 (delete 4 ∷ []))
          (field_of 4 string arena)).1
        ≡ after_calls (add_field no_fields (field_of 4 int32 fixed)).1 (delete 4 ∷ []))
after_calls-never_reuses_example =
    after_calls-never_reuses no_fields (field_of 4 int32 fixed) (delete 4 ∷ [])
      (field_of 4 string arena) first_added refl

delete_field-uses_example : uses_of 4 (delete_field two_fields 4).1 ≡ uses_of 4 two_fields
delete_field-uses_example = delete_field-uses two_fields 4 4

compile-IsLaidOut_example :
    HasFieldsOf two_fields (compile two_fields) × IsLaidOut (compile two_fields)
compile-IsLaidOut_example = compile-IsLaidOut two_fields (omega arith)

accepted : policy_accepts true string element_dictionary ≡ true
unfolding policy_accepts list_encoding_status
accepted = refl

parse-config_name_example :
    parse_field_encoding (field_encoding_config_name element_dictionary) true string
    ≡ ok element_dictionary
parse-config_name_example = parse-config_name true string element_dictionary accepted

parsed : parse_field_encoding "dictionary" false string ≡ ok dictionary
unfolding parse_field_encoding
parsed = refl

parse-policy_example : policy_accepts false string dictionary ≡ true
parse-policy_example = parse-policy "dictionary" false string dictionary parsed
