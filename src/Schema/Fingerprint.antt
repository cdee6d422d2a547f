-- ===== src/Schema/Fingerprint.antt =====
-- src/model/schema.cc: the FNV-1a fingerprint that names a row layout.
use kv_index.Prelude.{
  ℕ, zero, suc, ◌+◌, ◌-◌, ◌*◌, ◌/◌, ◌%◌, ◌^◌, u64, bit_and, bit_xor, ℤ, pos, negsuc, Bool, List, [],
  ◌∷◌, length, if◌then◌else◌,
}
use kv_index.Schema.{
  FieldType, int8, int32, int64, uint64, bool, string, FieldEncoding, fixed, arena, dictionary,
  list_dictionary, element_dictionary, FieldDefaultValue, monostate, int8_value, int32_value,
  int64_value, uint64_value, bool_value, string_value, int8_list, int32_list, int64_list,
  uint64_list, bool_list, string_list,
}

abbrev pub fnv_offset_basis : ℕ
fnv_offset_basis = 14695981039346656037

abbrev fnv_prime : ℕ
fnv_prime = 1099511628211

unfoldable pub fingerprint_byte : ℕ → ℕ → ℕ
fingerprint_byte hash byte = u64 (bit_xor hash byte * fnv_prime)

-- The loop of `FingerprintUInt64`: `left` bytes of the value remain, from byte `i` on.
unfoldable pub fingerprint_bytes : (value left i hash : ℕ) → ℕ
unfolding fingerprint_byte
fingerprint_bytes value zero i hash = hash
fingerprint_bytes value (suc left) i hash =
    fingerprint_bytes value left (i + 1)
      (fingerprint_byte hash (bit_and (value / 2 ^ (i * 8)) 0xff))

unfoldable pub fingerprint_uint64 : ℕ → ℕ → ℕ
unfolding fingerprint_bytes
fingerprint_uint64 hash value = fingerprint_bytes value 8 0 hash

unfoldable pub fingerprint_chars : ℕ → List ℕ → ℕ
unfolding fingerprint_byte
fingerprint_chars hash [] = hash
fingerprint_chars hash (c ∷ cs) = fingerprint_chars (fingerprint_byte hash c) cs

unfoldable pub fingerprint_string : ℕ → List ℕ → ℕ
unfolding fingerprint_uint64 fingerprint_chars
fingerprint_string hash value = fingerprint_chars (fingerprint_uint64 hash (length value)) value

abbrev pub to_byte : Bool → ℕ
to_byte b = if b then 1 else 0

-- `static_cast<std::uint64_t>` of a signed integer.
unfoldable pub to_uint64 : ℤ → ℕ
to_uint64 (pos n) = u64 n
to_uint64 (negsuc n) = 2 ^ 64 - 1 - n % 2 ^ 64

module _ {A : Type 0} (step : ℕ → A → ℕ) where
  unfoldable pub fingerprint_each : ℕ → List A → ℕ
  fingerprint_each hash [] = hash
  fingerprint_each hash (v ∷ vs) = fingerprint_each (step hash v) vs

  unfoldable pub fingerprint_vector : ℕ → List A → ℕ
  unfolding fingerprint_uint64 fingerprint_each
  fingerprint_vector hash values = fingerprint_each (fingerprint_uint64 hash (length values)) values

abbrev fingerprint_int64 : ℕ → ℤ → ℕ
fingerprint_int64 hash value = fingerprint_uint64 hash (to_uint64 value)

abbrev fingerprint_bool : ℕ → Bool → ℕ
fingerprint_bool hash value = fingerprint_byte hash (to_byte value)

-- The number of the alternative, `value.index()`.
unfoldable pub index : FieldDefaultValue → ℕ
index monostate = 0
index (int8_value v) = 1
index (int32_value v) = 2
index (int64_value v) = 3
index (uint64_value v) = 4
index (bool_value v) = 5
index (string_value v) = 6
index (int8_list v) = 7
index (int32_list v) = 8
index (int64_list v) = 9
index (uint64_list v) = 10
index (bool_list v) = 11
index (string_list v) = 12

unfoldable pub fingerprint_alternative : ℕ → FieldDefaultValue → ℕ
unfolding to_uint64 fingerprint_uint64 fingerprint_byte fingerprint_string fingerprint_vector
fingerprint_alternative hash monostate = hash
fingerprint_alternative hash (int8_value v) = fingerprint_int64 hash v
fingerprint_alternative hash (int32_value v) = fingerprint_int64 hash v
fingerprint_alternative hash (int64_value v) = fingerprint_int64 hash v
fingerprint_alternative hash (uint64_value v) = fingerprint_uint64 hash v
fingerprint_alternative hash (bool_value v) = fingerprint_bool hash v
fingerprint_alternative hash (string_value v) = fingerprint_string hash v
fingerprint_alternative hash (int8_list v) = fingerprint_vector fingerprint_int64 hash v
fingerprint_alternative hash (int32_list v) = fingerprint_vector fingerprint_int64 hash v
fingerprint_alternative hash (int64_list v) = fingerprint_vector fingerprint_int64 hash v
fingerprint_alternative hash (uint64_list v) = fingerprint_vector fingerprint_uint64 hash v
fingerprint_alternative hash (bool_list v) = fingerprint_vector fingerprint_bool hash v
fingerprint_alternative hash (string_list v) = fingerprint_vector fingerprint_string hash v

unfoldable pub fingerprint_default : ℕ → FieldDefaultValue → ℕ
unfolding index fingerprint_uint64 fingerprint_alternative
fingerprint_default hash value =
    fingerprint_alternative (fingerprint_uint64 hash (index value)) value

-- The numbers of the enumerators.
abbrev pub type_code : FieldType → ℕ
type_code int8 = 1
type_code int32 = 2
type_code int64 = 3
type_code uint64 = 4
type_code bool = 5
type_code string = 6

abbrev pub encoding_code : FieldEncoding → ℕ
encoding_code fixed = 1
encoding_code arena = 2
encoding_code dictionary = 3
encoding_code list_dictionary = 4
encoding_code element_dictionary = 5
