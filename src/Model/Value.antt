-- ===== src/Model/Value.antt =====
-- include/kv_index/row.h: the values of fields, and the bit patterns that fixed-width ones are stored as
-- (`static_cast` between a signed and an unsigned type of one width, in src/base/byte_io.h).
pub mod RoundTrip
pub mod Lists
use kv_index.Prelude.{
  ℕ, ◌-◌, ◌*◌, ◌%◌, ◌^◌, ℤ, pos, negsuc, ltb, ◌==◌, Bool, true, false, not, if◌then◌else◌, List, [],
  map,
}
use kv_index.Status.{StatusOr, ok, fail, invalid_argument}
use kv_index.Schema.{FieldType, int8, int32, int64, uint64, bool, string}

-- `Row::ScalarValue`. A string is its bytes.
pub data ScalarValue : Type 0 where
  int8_scalar int32_scalar int64_scalar : ℤ → ScalarValue
  uint64_scalar : ℕ → ScalarValue
  bool_scalar : Bool → ScalarValue
  string_scalar : List ℕ → ScalarValue

-- `Row::ListValue`.
pub data ListValue : Type 0 where
  int8_items int32_items int64_items : List ℤ → ListValue
  uint64_items : List ℕ → ListValue
  bool_items : List Bool → ListValue
  string_items : List (List ℕ) → ListValue

-- `FieldTypeFor<T>` for the type of a value, or of the values of a list.
unfoldable pub scalar_type : ScalarValue → FieldType
scalar_type (int8_scalar v) = int8
scalar_type (int32_scalar v) = int32
scalar_type (int64_scalar v) = int64
scalar_type (uint64_scalar v) = uint64
scalar_type (bool_scalar v) = bool
scalar_type (string_scalar v) = string

unfoldable pub list_type : ListValue → FieldType
list_type (int8_items v) = int8
list_type (int32_items v) = int32
list_type (int64_items v) = int64
list_type (uint64_items v) = uint64
list_type (bool_items v) = bool
list_type (string_items v) = string

-- The pattern of an integer in a number of bits, and the signed integer of a pattern.
unfoldable pub unsigned_of : ℕ → ℤ → ℕ
unsigned_of bits (pos n) = n % 2 ^ bits
unsigned_of bits (negsuc n) = 2 ^ bits - 1 - n % 2 ^ bits

unfoldable pub signed_of : ℕ → ℕ → ℤ
signed_of bits u = if ltb (2 * u) (2 ^ bits) then pos u else negsuc (2 ^ bits - 1 - u)

abbrev pub bool_bits : Bool → ℕ
bool_bits true = 1
bool_bits false = 0

-- The pattern of a fixed-width value; a string has none.
unfoldable pub scalar_bits : ScalarValue → ℕ
unfolding unsigned_of
scalar_bits (int8_scalar v) = unsigned_of 8 v
scalar_bits (int32_scalar v) = unsigned_of 32 v
scalar_bits (int64_scalar v) = unsigned_of 64 v
scalar_bits (uint64_scalar v) = v
scalar_bits (bool_scalar v) = bool_bits v
scalar_bits (string_scalar v) = 0

-- The value of a pattern that was read: the cases of the switch in `ReadScalarValue`.
unfoldable pub scalar_of_bits : FieldType → ℕ → StatusOr ScalarValue
unfolding signed_of
scalar_of_bits int8 u = ok (int8_scalar (signed_of 8 u))
scalar_of_bits int32 u = ok (int32_scalar (signed_of 32 u))
scalar_of_bits int64 u = ok (int64_scalar (signed_of 64 u))
scalar_of_bits uint64 u = ok (uint64_scalar u)
scalar_of_bits bool u =
    if ltb 1 u
    then fail (invalid_argument "encoded bool value is invalid")
    else ok (bool_scalar (not (u == 0)))
scalar_of_bits string u = fail (invalid_argument "unsupported scalar field type")

-- The patterns of a list of fixed-width values, and the list of patterns that were read and checked.
unfoldable pub list_bits : ListValue → List ℕ
unfolding unsigned_of
list_bits (int8_items v) = map (unsigned_of 8) v
list_bits (int32_items v) = map (unsigned_of 32) v
list_bits (int64_items v) = map (unsigned_of 64) v
list_bits (uint64_items v) = v
list_bits (bool_items v) = map bool_bits v
list_bits (string_items v) = []

unfoldable pub list_of_bits : FieldType → List ℕ → ListValue
unfolding signed_of
list_of_bits int8 us = int8_items (map (signed_of 8) us)
list_of_bits int32 us = int32_items (map (signed_of 32) us)
list_of_bits int64 us = int64_items (map (signed_of 64) us)
list_of_bits uint64 us = uint64_items us
list_of_bits bool us = bool_items (map (λ (u : ℕ). not (u == 0)) us)
list_of_bits string us = string_items []
