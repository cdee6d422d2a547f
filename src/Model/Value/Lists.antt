-- ===== src/Model/Value/Lists.antt =====
-- A list of fixed-width values is read back from its bit patterns.

use kv_index.Prelude.{
  ℕ, ◌*◌, ◌%◌, ◌^◌, ◌<◌, ℤ, ltb, ◌==◌, Bool, true, false, not, ◌&&◌, ◌≡◌, refl, ap, arith, All,
  All-map, All-every, map-All, map-map_self, length, length-map,
}
use kv_index.Schema.{FieldType, bool, is_string, field_type_size}
use kv_index.Model.Value.{
  ListValue, int8_items, int32_items, int64_items, uint64_items, bool_items, string_items,
  list_type, list_bits, list_of_bits, unsigned_of, signed_of, bool_bits,
}
use kv_index.Model.Value.RoundTrip.{
  FitsSigned, signed-unsigned_8, signed-unsigned_32, signed-unsigned_64, unsigned_of-lt_8,
  unsigned_of-lt_32, unsigned_of-lt_64,
}
use kv_index.Model.Write.{type_eq}

-- The values are in the range of their type, and their bytes, or the identifiers of strings, have a
-- size of 32 bits.
abbrev pub FitsItems : ListValue → Type 0
FitsItems (int8_items vs) = All (FitsSigned 8) vs × (length vs < 2 ^ 32)
FitsItems (int32_items vs) = All (FitsSigned 32) vs × (length vs * 4 < 2 ^ 32)
FitsItems (int64_items vs) = All (FitsSigned 64) vs × (length vs * 8 < 2 ^ 32)
FitsItems (uint64_items vs) = All (λ v. v < 2 ^ 64) vs × (length vs * 8 < 2 ^ 32)
FitsItems (bool_items vs) = length vs < 2 ^ 32
FitsItems (string_items vs) = length vs * 4 < 2 ^ 32

-- A pattern of the type's width, which for a Boolean is 0 or 1.
pub record IsPattern (type : FieldType) (u : ℕ) : Type 0 where
  pub in_width : u % 2 ^ (field_type_size type * 8) ≡ u
  pub is_bool : (type_eq type bool && ltb 1 u) ≡ false

unsigned-IsPattern_8 : (z : ℤ) → IsPattern kv_index.Schema.int8 (unsigned_of 8 z)
unfolding field_type_size
unsigned-IsPattern_8 z = record { in_width = omega (arith, unsigned_of-lt_8 z); is_bool = refl }

unsigned-IsPattern_32 : (z : ℤ) → IsPattern kv_index.Schema.int32 (unsigned_of 32 z)
unfolding field_type_size
unsigned-IsPattern_32 z = record { in_width = omega (arith, unsigned_of-lt_32 z); is_bool = refl }

unsigned-IsPattern_64 : (z : ℤ) → IsPattern kv_index.Schema.int64 (unsigned_of 64 z)
unfolding field_type_size
unsigned-IsPattern_64 z = record { in_width = omega (arith, unsigned_of-lt_64 z); is_bool = refl }

bool-IsPattern : (b : Bool) → IsPattern bool (bool_bits b)
unfolding field_type_size
bool-IsPattern true = record { in_width = omega arith; is_bool = refl }
bool-IsPattern false = record { in_width = omega arith; is_bool = refl }

pub list_bits-IsPattern :
    (v : ListValue) → FitsItems v → All (IsPattern (list_type v)) (list_bits v)
unfolding list_type list_bits field_type_size
list_bits-IsPattern (int8_items vs) h =
    map-All (IsPattern kv_index.Schema.int8) (unsigned_of 8) vs (All-every vs unsigned-IsPattern_8)
list_bits-IsPattern (int32_items vs) h =
    map-All (IsPattern kv_index.Schema.int32) (unsigned_of 32) vs
      (All-every vs unsigned-IsPattern_32)
list_bits-IsPattern (int64_items vs) h =
    map-All (IsPattern kv_index.Schema.int64) (unsigned_of 64) vs
      (All-every vs unsigned-IsPattern_64)
list_bits-IsPattern (uint64_items vs) h =
    All-map vs (λ u p. record { in_width = omega arith; is_bool = refl }) (h.0)
list_bits-IsPattern (bool_items vs) h =
    map-All (IsPattern bool) bool_bits vs (All-every vs bool-IsPattern)
list_bits-IsPattern (string_items vs) h = tt

bool_back : (b : Bool) → not (bool_bits b == 0) ≡ b
bool_back true = refl
bool_back false = refl

pub list_of_bits-list_bits :
    (v : ListValue)
    → is_string (list_type v) ≡ false
    → FitsItems v
    → list_of_bits (list_type v) (list_bits v) ≡ v
unfolding list_type list_bits list_of_bits
list_of_bits-list_bits (int8_items vs) s h =
    ap int8_items
      (map-map_self (signed_of 8) (unsigned_of 8) vs (All-map vs signed-unsigned_8 (h.0)))
list_of_bits-list_bits (int32_items vs) s h =
    ap int32_items
      (map-map_self (signed_of 32) (unsigned_of 32) vs (All-map vs signed-unsigned_32 (h.0)))
list_of_bits-list_bits (int64_items vs) s h =
    ap int64_items
      (map-map_self (signed_of 64) (unsigned_of 64) vs (All-map vs signed-unsigned_64 (h.0)))
list_of_bits-list_bits (uint64_items vs) s h = refl
list_of_bits-list_bits (bool_items vs) s h =
    ap bool_items (map-map_self (λ (u : ℕ). not (u == 0)) bool_bits vs (All-every vs bool_back))
list_of_bits-list_bits (string_items vs) s h = cc

-- The bytes of the patterns have a size of 32 bits.
pub items_size :
    (v : ListValue)
    → is_string (list_type v) ≡ false
    → FitsItems v
    → length (list_bits v) * field_type_size (list_type v) < 2 ^ 32
unfolding list_type list_bits field_type_size
items_size (int8_items vs) s h = omega (arith, length-map (unsigned_of 8) vs, h.1)
items_size (int32_items vs) s h = omega (arith, length-map (unsigned_of 32) vs, h.1)
items_size (int64_items vs) s h = omega (arith, length-map (unsigned_of 64) vs, h.1)
items_size (uint64_items vs) s h = omega (arith, h.1)
items_size (bool_items vs) s h = omega (arith, length-map bool_bits vs)
items_size (string_items vs) s h = cc

pub items_count : (v : ListValue) → FitsItems v → length (list_bits v) < 2 ^ 32
unfolding list_bits
items_count (int8_items vs) h = omega (arith, length-map (unsigned_of 8) vs, h.1)
items_count (int32_items vs) h = omega (arith, length-map (unsigned_of 32) vs, h.1)
items_count (int64_items vs) h = omega (arith, length-map (unsigned_of 64) vs, h.1)
items_count (uint64_items vs) h = omega (arith, h.1)
items_count (bool_items vs) h = omega (arith, length-map bool_bits vs)
items_count (string_items vs) h = omega arith
