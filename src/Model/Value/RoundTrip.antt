-- ===== src/Model/Value/RoundTrip.antt =====
-- A fixed-width value is read back from its bit pattern.
use kv_index.Prelude.{
  ℕ, ◌+◌, ◌-◌, ◌*◌, ◌%◌, ◌^◌, ◌<◌, ◌≤◌, ℤ, pos, negsuc, Bool, true, false, ◌≡◌, refl, ap, ◌∙◌,
  arith, All, List, [], ◌∷◌, map,
}
use kv_index.Status.{ok}
use kv_index.Schema.{is_string, field_type_size}
use kv_index.Model.Value.{
  ScalarValue, int8_scalar, int32_scalar, int64_scalar, uint64_scalar, bool_scalar, string_scalar,
  scalar_type, scalar_bits, scalar_of_bits, unsigned_of, signed_of,
}

-- An integer in the range of a signed type.
abbrev pub FitsSigned : ℕ → ℤ → Type 0
FitsSigned bits (pos n) = 2 * n < 2 ^ bits
FitsSigned bits (negsuc n) = 2 * n < 2 ^ bits

-- A value in the range of its type; for a string, a size of 32 bits.
abbrev pub FitsScalar : ScalarValue → Type 0
FitsScalar (int8_scalar v) = FitsSigned 8 v
FitsScalar (int32_scalar v) = FitsSigned 32 v
FitsScalar (int64_scalar v) = FitsSigned 64 v
FitsScalar (uint64_scalar v) = v < 2 ^ 64
FitsScalar (bool_scalar v) = Unit
FitsScalar (string_scalar v) = kv_index.Prelude.length v < 2 ^ 32

pub signed-unsigned_8 : (z : ℤ) → FitsSigned 8 z → signed_of 8 (unsigned_of 8 z) ≡ z
unfolding signed_of unsigned_of
signed-unsigned_8 (pos n) h = ground arith
signed-unsigned_8 (negsuc n) h = ground arith

pub signed-unsigned_32 : (z : ℤ) → FitsSigned 32 z → signed_of 32 (unsigned_of 32 z) ≡ z
unfolding signed_of unsigned_of
signed-unsigned_32 (pos n) h = ground arith
signed-unsigned_32 (negsuc n) h = ground arith

pub signed-unsigned_64 : (z : ℤ) → FitsSigned 64 z → signed_of 64 (unsigned_of 64 z) ≡ z
unfolding signed_of unsigned_of
signed-unsigned_64 (pos n) h = ground arith
signed-unsigned_64 (negsuc n) h = ground arith

pub unsigned_of-lt_8 : (z : ℤ) → unsigned_of 8 z < 2 ^ 8
unfolding unsigned_of
unsigned_of-lt_8 (pos n) = omega arith
unsigned_of-lt_8 (negsuc n) = omega arith

pub unsigned_of-lt_32 : (z : ℤ) → unsigned_of 32 z < 2 ^ 32
unfolding unsigned_of
unsigned_of-lt_32 (pos n) = omega arith
unsigned_of-lt_32 (negsuc n) = omega arith

pub unsigned_of-lt_64 : (z : ℤ) → unsigned_of 64 z < 2 ^ 64
unfolding unsigned_of
unsigned_of-lt_64 (pos n) = omega arith
unsigned_of-lt_64 (negsuc n) = omega arith

-- The pattern is one of the type's width.
pub scalar_bits-lt :
    (v : ScalarValue)
    → is_string (scalar_type v) ≡ false
    → FitsScalar v
    → scalar_bits v % 2 ^ (field_type_size (scalar_type v) * 8) ≡ scalar_bits v
unfolding scalar_type scalar_bits field_type_size
scalar_bits-lt (int8_scalar v) s h = omega (arith, unsigned_of-lt_8 v)
scalar_bits-lt (int32_scalar v) s h = omega (arith, unsigned_of-lt_32 v)
scalar_bits-lt (int64_scalar v) s h = omega (arith, unsigned_of-lt_64 v)
scalar_bits-lt (uint64_scalar v) s h = omega arith
scalar_bits-lt (bool_scalar true) s h = omega arith
scalar_bits-lt (bool_scalar false) s h = omega arith
scalar_bits-lt (string_scalar v) s h = cc

pub scalar_of_bits-scalar_bits :
    (v : ScalarValue)
    → is_string (scalar_type v) ≡ false
    → FitsScalar v
    → scalar_of_bits (scalar_type v) (scalar_bits v) ≡ ok v
unfolding scalar_type scalar_bits scalar_of_bits
scalar_of_bits-scalar_bits (int8_scalar v) s h = rw (signed-unsigned_8 v h)
scalar_of_bits-scalar_bits (int32_scalar v) s h = rw (signed-unsigned_32 v h)
scalar_of_bits-scalar_bits (int64_scalar v) s h = rw (signed-unsigned_64 v h)
scalar_of_bits-scalar_bits (uint64_scalar v) s h = refl
scalar_of_bits-scalar_bits (bool_scalar true) s h = refl
scalar_of_bits-scalar_bits (bool_scalar false) s h = refl
scalar_of_bits-scalar_bits (string_scalar v) s h = cc
