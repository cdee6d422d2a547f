-- ===== src/Ingest/Payload.antt =====
-- src/ingest/update_applier.cc: the payload of an update, a frame of typed fields, and its decoder.
-- `DecodedValue` and `FieldDefaultValue` are one variant type of the C++ code, and one type here.
pub mod Bounds
pub mod Lists
pub mod Values
pub mod Sound
pub mod Pipeline
use kv_index.Prelude.{
  ℕ, zero, suc, ◌+◌, ◌-◌, ◌*◌, ltb, ◌==◌, Bool, false, not, ◌&&◌, ◌||◌, if◌then◌else◌, Option, none,
  some, List, [], ◌∷◌, length, get_or, take, drop, map,
}
use kv_index.Status.{StatusOr, ok, fail, ◌>>=◌, ◌>>◌, require, invalid_argument}
use kv_index.Base.ByteIo.{read_little_endian}
use kv_index.Schema.{
  FieldDefaultValue, monostate, int8_value, int32_value, int64_value, uint64_value, bool_value,
  string_value, int8_list, int32_list, int64_list, uint64_list, bool_list, string_list, is_empty,
}
use kv_index.Model.Value.{signed_of}

pub data WireKind : Type 0 where
  null_kind int8_kind int32_kind int64_kind uint64_kind bool_kind string_kind : WireKind
  int8_list_kind int32_list_kind int64_list_kind uint64_list_kind : WireKind
  bool_list_kind string_list_kind : WireKind

abbrev pub DecodedValue : Type 0
DecodedValue = FieldDefaultValue

pub record DecodedField : Type 0 where
  pub field_id : ℕ
  pub kind : WireKind
  pub value : DecodedValue

pub record DecodedPayload : Type 0 where
  pub fields : List DecodedField

-- `DecodedPayload::Find`.
unfoldable pub find_decoded : ℕ → List DecodedField → Option DecodedField
find_decoded field_id [] = none
find_decoded field_id (f ∷ fs) = if f.field_id == field_id then some f else find_decoded field_id fs

pub record ByteReader : Type 0 where
  pub bytes : List ℕ
  pub offset : ℕ

abbrev pub remaining : ByteReader → ℕ
remaining reader = length reader.bytes - reader.offset

-- `ReadInteger<T>` for a `T` of `width` bytes, which is `ReadUInt8` for one byte: the pattern, and the
-- reader behind it.
unfoldable pub read_integer : ℕ → ByteReader → StatusOr (ℕ × ByteReader)
read_integer width reader = do
  require (not (ltb (remaining reader) width)) (invalid_argument "payload is truncated")
  value ← read_little_endian width reader.bytes reader.offset
  ok (value, record reader { offset = reader.offset + width })

unfoldable pub read_bytes : ℕ → ByteReader → StatusOr (List ℕ × ByteReader)
read_bytes size reader = do
  require (not (ltb (remaining reader) size)) (invalid_argument "payload field is truncated")
  ok (take size (drop reader.offset reader.bytes), record reader { offset = reader.offset + size })

unfoldable pub read_exact_integer : ℕ → List ℕ → StatusOr ℕ
read_exact_integer width bytes = do
  require (length bytes == width) (invalid_argument "payload scalar byte length is invalid")
  read_little_endian width bytes 0

unfoldable pub read_bool : List ℕ → StatusOr Bool
unfolding read_exact_integer
read_bool bytes = do
  value ← read_exact_integer 1 bytes
  require (not (ltb 1 value)) (invalid_argument "payload bool value is invalid")
  ok (not (value == 0))

-- The loops of `ReadScalarList` and `ReadBoolList`.
unfoldable pub read_integers : (width left : ℕ) → ByteReader → StatusOr (List ℕ)
unfolding read_integer
read_integers width zero reader = ok []
read_integers width (suc left) reader = do
  value ← read_integer width reader
  values ← read_integers width left (value.1)
  ok (value.0 ∷ values)

unfoldable pub read_bools : ℕ → ByteReader → StatusOr (List Bool)
unfolding read_integer
read_bools zero reader = ok []
read_bools (suc left) reader = do
  raw ← read_integer 1 reader
  require (not (ltb 1 (raw.0))) (invalid_argument "payload bool-list value is invalid")
  values ← read_bools left (raw.1)
  ok (not (raw.0 == 0) ∷ values)

-- `ReadScalarList<T>`, the patterns of its values.
unfoldable pub read_scalar_list : ℕ → List ℕ → StatusOr (List ℕ)
unfolding read_integer read_integers
read_scalar_list width bytes = do
  count ← read_integer 4 (record { bytes = bytes; offset = 0 })
  require (remaining (count.1) == count.0 * width)
      (invalid_argument "payload list byte length is invalid")
  read_integers width (count.0) (count.1)

unfoldable pub read_bool_list : List ℕ → StatusOr (List Bool)
unfolding read_integer read_bools
read_bool_list bytes = do
  count ← read_integer 4 (record { bytes = bytes; offset = 0 })
  require (remaining (count.1) == count.0)
      (invalid_argument "payload bool-list byte length is invalid")
  read_bools (count.0) (count.1)

-- The loop of `ReadStringList`, with the reader behind it.
unfoldable pub read_strings : ℕ → ByteReader → StatusOr (List (List ℕ) × ByteReader)
unfolding read_integer read_bytes
read_strings zero reader = ok ([], reader)
read_strings (suc left) reader = do
  size ← read_integer 4 reader
  raw ← read_bytes (size.0) (size.1)
  rest ← read_strings left (raw.1)
  ok (raw.0 ∷ rest.0, rest.1)

unfoldable pub read_string_list : List ℕ → StatusOr (List (List ℕ))
unfolding read_integer read_strings
read_string_list bytes = do
  count ← read_integer 4 (record { bytes = bytes; offset = 0 })
  values ← read_strings (count.0) (count.1)
  require (remaining (values.1) == 0) (invalid_argument "payload string-list has trailing bytes")
  ok (values.0)

unfoldable pub decode_value : WireKind → List ℕ → StatusOr DecodedValue
unfolding read_exact_integer read_bool read_scalar_list read_bool_list read_string_list signed_of
decode_value null_kind bytes =
    require (is_empty bytes) (invalid_argument "payload null field must be empty") >> ok monostate
decode_value int8_kind bytes = read_exact_integer 1 bytes >>= λ u. ok (int8_value (signed_of 8 u))
decode_value int32_kind bytes =
    read_exact_integer 4 bytes >>= λ u. ok (int32_value (signed_of 32 u))
decode_value int64_kind bytes =
    read_exact_integer 8 bytes >>= λ u. ok (int64_value (signed_of 64 u))
decode_value uint64_kind bytes = read_exact_integer 8 bytes >>= λ u. ok (uint64_value u)
decode_value bool_kind bytes = read_bool bytes >>= λ b. ok (bool_value b)
decode_value string_kind bytes = ok (string_value bytes)
decode_value int8_list_kind bytes =
    read_scalar_list 1 bytes >>= λ us. ok (int8_list (map (signed_of 8) us))
decode_value int32_list_kind bytes =
    read_scalar_list 4 bytes >>= λ us. ok (int32_list (map (signed_of 32) us))
decode_value int64_list_kind bytes =
    read_scalar_list 8 bytes >>= λ us. ok (int64_list (map (signed_of 64) us))
decode_value uint64_list_kind bytes = read_scalar_list 8 bytes >>= λ us. ok (uint64_list us)
decode_value bool_list_kind bytes = read_bool_list bytes >>= λ bs. ok (bool_list bs)
decode_value string_list_kind bytes = read_string_list bytes >>= λ ss. ok (string_list ss)

-- The enumerators of `WireKind`, in the order of their numbers; another number reaches the end of the
-- switch in `DecodeValue`.
unfoldable pub wire_kind : ℕ → StatusOr WireKind
wire_kind n =
    if n == 0
    then ok null_kind
    else if n == 1
    then ok int8_kind
    else if n == 2
    then ok int32_kind
    else if n == 3
    then ok int64_kind
    else if n == 4
    then ok uint64_kind
    else if n == 5
    then ok bool_kind
    else if n == 6
    then ok string_kind
    else if n == 17
    then ok int8_list_kind
    else if n == 18
    then ok int32_list_kind
    else if n == 19
    then ok int64_list_kind
    else if n == 20
    then ok uint64_list_kind
    else if n == 21
    then ok bool_list_kind
    else if n == 22
    then ok string_list_kind
    else fail (invalid_argument "payload field kind is unsupported")

-- `seen_fields`, a set.
unfoldable pub contains : ℕ → List ℕ → Bool
contains id [] = false
contains id (x ∷ xs) = x == id || contains id xs

-- The bytes of a field, behind its identifier: its kind, its length and as many bytes.
unfoldable pub read_field : ℕ → ByteReader → StatusOr (DecodedField × ByteReader)
unfolding read_integer read_bytes wire_kind decode_value
read_field field_id reader = do
  kind_byte ← read_integer 1 reader
  byte_length ← read_integer 4 (kind_byte.1)
  field_bytes ← read_bytes (byte_length.0) (byte_length.1)
  kind ← wire_kind (kind_byte.0)
  value ← decode_value kind (field_bytes.0)
  ok (record { field_id = field_id; kind = kind; value = value }, field_bytes.1)

-- The loop of `DecodePayload`.
unfoldable pub decode_fields :
    (left : ℕ) → List ℕ → ByteReader → StatusOr (List DecodedField × ByteReader)
unfolding contains read_integer read_field
decode_fields zero seen_fields reader = ok ([], reader)
decode_fields (suc left) seen_fields reader = do
  field_id ← read_integer 4 reader
  require (not (contains (field_id.0) seen_fields))
      (invalid_argument "payload contains duplicate field id")
  field ← read_field (field_id.0) (field_id.1)
  rest ← decode_fields left (field_id.0 ∷ seen_fields) (field.1)
  ok (field.0 ∷ rest.0, rest.1)

-- "KVIU".
abbrev pub has_magic : List ℕ → Bool
has_magic bytes =
    get_or bytes 0 0 == 0x4b
    && get_or bytes 1 0 == 0x56
    && get_or bytes 2 0 == 0x49
    && get_or bytes 3 0 == 0x55

unfoldable pub decode_payload : List ℕ → StatusOr DecodedPayload
unfolding read_integer decode_fields
decode_payload bytes = do
  require (not (ltb (length bytes) 12) && has_magic bytes)
      (invalid_argument "payload magic is invalid")
  version ← read_integer 2 (record { bytes = drop 4 bytes; offset = 0 })
  require (version.0 == 1) (invalid_argument "payload version is unsupported")
  flags ← read_integer 2 (version.1)
  require (flags.0 == 0) (invalid_argument "payload flags are unsupported")
  field_count ← read_integer 4 (flags.1)
  fields ← decode_fields (field_count.0) [] (field_count.1)
  require (remaining (fields.1) == 0) (invalid_argument "payload has trailing bytes")
  ok (record { fields = fields.0 })
