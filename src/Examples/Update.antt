-- ===== src/Examples/Update.antt =====
-- An update of a row with an integer and a string, from its bytes to the row.
use kv_index.Prelude.{
  ℕ, negsuc, ltb, Bool, true, false, ◌&&◌, ◌≡◌, refl, some, List, [], ◌∷◌, zero, suc, arith,
}
use kv_index.Status.{ok}
use kv_index.Schema.{string, arena, int32_value, string_value}
use kv_index.Schema.Layout.{
  compile, layout_of, sort_by_id, insert_by_id, place_fixed, place_refs, field_layouts,
  field_layout, is_ref_field, build_fingerprint, fingerprint_fields, fingerprint_field, find_layout,
}
use kv_index.Schema.Fingerprint.{
  fingerprint_byte, fingerprint_bytes, fingerprint_uint64, fingerprint_chars, fingerprint_string,
  fingerprint_alternative, fingerprint_default, index,
}
use kv_index.Model.EncodedRow.{EncodedRow}
use kv_index.Ingest.Payload.{
  DecodedPayload, decode_payload, decode_fields, read_field, contains, wire_kind, decode_value,
  read_exact_integer, read_integer, int32_kind, string_kind,
}
use kv_index.Ingest.Payload as Payload
use kv_index.Base.ByteIo.{
  read_little_endian, write_little_endian, write_value_ref16, check_span_bounds,
}
use kv_index.Base.ByteIo as ByteIo
use kv_index.Model.Value.{signed_of, scalar_type, scalar_bits, unsigned_of}
use kv_index.Ingest.Encode.{encode_for_layout, encode_fields, encode_field}
use kv_index.Ingest.ScalarField.{
  write_scalar_field_value, get_scalar, write_scalar, write_string_value,
}
use kv_index.Ingest.ListField.{write_list_field_value}
use kv_index.Model.Write.{
  create_encoded_row, write_scalar_field, write_arena_string_field, write_value_ref_field,
  finish_write, set_field_present,
}
use kv_index.Model.Row.{materialize_row, check_required, field_present}
use kv_index.Schema.{field_type_alignment, field_type_size, has_default}
use kv_index.Schema.Layout.{FieldLayout}
use kv_index.Schema.{monostate}
use kv_index.Model.Row.{Row}
use kv_index.Ingest.Payload.{find_decoded}
use kv_index.Ingest.Payload.Bounds.{IsBytes}
use kv_index.Ingest.Payload.Sound.{decode_payload-Sound}
use kv_index.Ingest.Payload.Pipeline.{encode-decode_payload-Shown}
use kv_index.Ingest.Encode.Round.{HasUniqueFields}
use kv_index.Ingest.Encode.Reads.{AllFit}
use kv_index.Ingest.Encode.Shows.{Shown}
use kv_index.Prelude.{◌≢◌, inl}
use kv_index.Status.{Status, error, is_ok}
use kv_index.Model.Read.Accessor.{FieldAccessor, accessor_of, make_field_accessor, get, get_at}
use kv_index.Model.Read.Agrees.{get_at-eq-get, stale_accessor-refused}
use kv_index.Examples.Schema.{two_fields}

abbrev pub payload_bytes : List ℕ
payload_bytes =
    0x4b ∷ 0x56 ∷ 0x49 ∷ 0x55 ∷ 1 ∷ 0 ∷ 0 ∷ 0 ∷ 2 ∷ 0 ∷ 0 ∷ 0 ∷ 4 ∷ 0 ∷ 0 ∷ 0 ∷ 2 ∷ 4 ∷ 0 ∷ 0 ∷ 0
    ∷ 0xfe ∷ 0xff ∷ 0xff ∷ 0xff ∷ 9 ∷ 0 ∷ 0 ∷ 0 ∷ 6 ∷ 2 ∷ 0 ∷ 0 ∷ 0 ∷ 0x68 ∷ 0x69 ∷ []

abbrev pub payload : DecodedPayload
payload = record {
  fields =
      record { field_id = 4; kind = int32_kind; value = int32_value (negsuc 1) }
      ∷ record { field_id = 9; kind = string_kind; value = string_value (0x68 ∷ 0x69 ∷ []) }
      ∷ [];
}

pub decoded : decode_payload payload_bytes ≡ ok payload
unfolding decode_payload decode_fields read_field contains wire_kind decode_value read_exact_integer
    read_integer Payload.read_bytes read_little_endian ByteIo.read_bytes check_span_bounds signed_of
decoded = refl

abbrev pub encoded : EncodedRow
encoded = record {
  schema_version = 3;
  layout_fingerprint = 7202097355388023974;
  row_slot =
      3 ∷ 0 ∷ 0 ∷ 0 ∷ 0 ∷ 0 ∷ 0 ∷ 0 ∷ 0xfe ∷ 0xff ∷ 0xff ∷ 0xff ∷ 0 ∷ 0 ∷ 0 ∷ 0 ∷ 0 ∷ 0 ∷ 0 ∷ 0 ∷ 0
      ∷ 0 ∷ 0 ∷ 0 ∷ 2 ∷ 0 ∷ 0 ∷ 0 ∷ 0 ∷ 0 ∷ 0 ∷ 0 ∷ [];
  arena = 0x68 ∷ 0x69 ∷ [];
  string_dictionary = [];
  scalar_list_dictionary = [];
  string_list_dictionary = [];
  string_element_dictionary = [];
}

pub encodes : encode_for_layout payload (some (compile two_fields)) ≡ ok encoded
unfolding build_fingerprint fingerprint_fields fingerprint_field fingerprint_byte fingerprint_bytes
    fingerprint_uint64 fingerprint_chars fingerprint_string fingerprint_alternative
    fingerprint_default index compile layout_of sort_by_id insert_by_id ByteIo.align_up place_fixed
    place_refs field_layouts field_layout is_ref_field field_type_alignment field_type_size
    encode_for_layout encode_fields encode_field create_encoded_row find_layout
    write_scalar_field_value get_scalar write_scalar write_string_value write_scalar_field
    write_arena_string_field write_value_ref_field finish_write set_field_present write_value_ref16
    write_little_endian ByteIo.write_bytes check_span_bounds scalar_type scalar_bits unsigned_of
    materialize_row check_required field_present has_default write_list_field_value
encodes = refl

all_bytes : List ℕ → Bool
all_bytes [] = true
all_bytes (b ∷ bs) = ltb b 256 && all_bytes bs

all_bytes-IsBytes : (bs : List ℕ) → all_bytes bs ≡ true → IsBytes bs
unfolding all_bytes
all_bytes-IsBytes [] h j = omega arith
all_bytes-IsBytes (b ∷ bs) h zero = ground (arith, h)
all_bytes-IsBytes (b ∷ bs) h (suc j) = all_bytes-IsBytes bs (ground (arith, h)) j

payload_bytes-IsBytes : IsBytes payload_bytes
unfolding all_bytes
payload_bytes-IsBytes = all_bytes-IsBytes payload_bytes refl

abbrev text_field : FieldLayout
text_field = record {
  field_id = 9;
  name = 110 ∷ [];
  type = string;
  is_list = false;
  nullable = true;
  encoding = arena;
  default_value = monostate;
  presence_bit_index = 1;
  slot_offset = 16;
  value_width = 16;
  uses_ref = true;
}

abbrev row : Row
row = record { layout = compile two_fields; encoded = encoded }

has_text_field : find_layout 9 (compile two_fields).fields ≡ some text_field
unfolding find_layout compile layout_of sort_by_id insert_by_id ByteIo.align_up place_fixed
    place_refs field_layouts field_layout is_ref_field field_type_alignment field_type_size
has_text_field = refl

encode-decode_payload-Shown_example : Shown false row 9 text_field (find_decoded 9 payload.fields)
encode-decode_payload-Shown_example =
    encode-decode_payload-Shown payload_bytes payload two_fields encoded payload_bytes-IsBytes
      (omega arith) (omega arith) decoded encodes 9 text_field has_text_field

decode_payload-Sound_example : HasUniqueFields payload.fields × AllFit payload.fields
decode_payload-Sound_example =
    decode_payload-Sound payload_bytes payload payload_bytes-IsBytes decoded

abbrev text_accessor : FieldAccessor
text_accessor = accessor_of (compile two_fields) false text_field

made : make_field_accessor string (compile two_fields) 9 ≡ ok text_accessor
unfolding make_field_accessor find_layout compile layout_of sort_by_id insert_by_id ByteIo.align_up
    place_fixed place_refs field_layouts field_layout is_ref_field field_type_alignment
    field_type_size
made = refl

get_at-eq-get_example : get_at string row text_accessor ≡ get string row 9
get_at-eq-get_example = get_at-eq-get string row 9 text_accessor made

-- A row of the next version of the schema.
abbrev next_row : Row
next_row = record { layout = compile (record two_fields { version = 4 }); encoded = encoded }

other_version : (compile two_fields).schema_version ≢ next_row.layout.schema_version
unfolding compile layout_of
other_version = omega arith

stale_accessor-refused_example :
    (s : Status) × (get_at string next_row text_accessor ≡ error s) × (is_ok s ≡ false)
stale_accessor-refused_example =
    stale_accessor-refused string (compile two_fields) next_row 9 text_accessor made
      (inl other_version)
