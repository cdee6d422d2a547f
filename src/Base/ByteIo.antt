-- ===== src/Base/ByteIo.antt =====
-- src/base/byte_io.h: alignment, and little-endian integers in a span of bytes. An unsigned integer
-- of `width` bytes is a number; a signed one is read and written as its bit pattern.
pub mod Align
pub mod RoundTrip
pub mod Ref
use kv_index.Prelude.{
  ℕ, zero, suc, ◌+◌, ◌-◌, ◌*◌, ◌/◌, ◌%◌, ◌^◌, bit_and, bit_or, u64, ltb, ◌==◌, Bool, not, ◌||◌,
  if◌then◌else◌, List, length, get_or, set,
}
use kv_index.Status.{
  Status, StatusOr, ok, fail, ok_status, is_ok, check, ◌>>=◌, ◌>>◌, require, invalid_argument,
}

-- `AlignUp`.
unfoldable pub align_up : ℕ → ℕ → ℕ
align_up value alignment =
    if alignment == 0
    then value
    else if value % alignment == 0
    then value
    else u64 (value + (alignment - value % alignment))

unfoldable pub check_span_bounds : ℕ → ℕ → ℕ → Status
check_span_bounds size offset byte_count =
    if ltb size offset || ltb (size - offset) byte_count
    then invalid_argument "little-endian fixed-width access is out of bounds"
    else ok_status

-- The loop of `WriteLittleEndian`: `left` bytes remain, from byte `i` on.
unfoldable pub write_bytes : (value : ℕ) (bytes : List ℕ) (offset left i : ℕ) → List ℕ
write_bytes value bytes offset zero i = bytes
write_bytes value bytes offset (suc left) i =
    write_bytes value (set bytes (offset + i) (bit_and (value / 2 ^ (i * 8)) 0xff)) offset left
      (i + 1)

-- `WriteLittleEndian<T>` for a `T` of `width` bytes: the status and the span after the call.
unfoldable pub write_little_endian :
    (width value : ℕ) (bytes : List ℕ) (offset : ℕ) → Status × List ℕ
write_little_endian width value bytes offset =
    if is_ok (check_span_bounds (length bytes) offset width)
    then (ok_status, write_bytes value bytes offset width 0)
    else (check_span_bounds (length bytes) offset width, bytes)

-- The loop of `ReadLittleEndian`.
unfoldable pub read_bytes : (bytes : List ℕ) (offset left i unsigned_value : ℕ) → ℕ
read_bytes bytes offset zero i unsigned_value = unsigned_value
read_bytes bytes offset (suc left) i unsigned_value =
    read_bytes bytes offset left (i + 1)
      (bit_or unsigned_value (get_or bytes (offset + i) 0 * 2 ^ (i * 8)))

-- `ReadLittleEndian<T>` for a `T` of `width` bytes.
unfoldable pub read_little_endian : (width : ℕ) (bytes : List ℕ) (offset : ℕ) → StatusOr ℕ
read_little_endian width bytes offset = do
  check_span_bounds (length bytes) offset width
  ok (read_bytes bytes offset width 0 0)

pub record ValueRef16 : Type 0 where
  pub offset : ℕ
  pub byte_length : ℕ
  pub element_count_or_flags : ℕ

-- One write after another, while they succeed.
abbrev pub then_write : Status × List ℕ → (List ℕ → Status × List ℕ) → Status × List ℕ
then_write (s, bytes) k = if is_ok s then k bytes else (s, bytes)

unfoldable pub write_value_ref16 : ValueRef16 → List ℕ → ℕ → Status × List ℕ
write_value_ref16 ref bytes offset =
    if not (is_ok (check_span_bounds (length bytes) offset 16))
    then (check_span_bounds (length bytes) offset 16, bytes)
    else then_write (write_little_endian 8 ref.offset bytes offset) λ bytes1.
      then_write (write_little_endian 4 ref.byte_length bytes1 (offset + 8))
        λ bytes2. write_little_endian 4 ref.element_count_or_flags bytes2 (offset + 12)

unfoldable pub decode_value_ref16 : List ℕ → ℕ → StatusOr ValueRef16
decode_value_ref16 bytes offset = do
  check_span_bounds (length bytes) offset 16
  ref_offset ← read_little_endian 8 bytes offset
  byte_length ← read_little_endian 4 bytes (offset + 8)
  element_count_or_flags ← read_little_endian 4 bytes (offset + 12)
  ok (record {
    offset = ref_offset;
    byte_length = byte_length;
    element_count_or_flags = element_count_or_flags;
  })
