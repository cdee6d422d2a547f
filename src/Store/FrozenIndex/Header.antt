-- ===== src/Store/FrozenIndex/Header.antt =====
-- `WriteHeader` and `ReadMetadata`.
pub mod RoundTrip
use kv_index.Prelude.{ℕ, ltb, ◌==◌, not, List, [], ◌∷◌, length}
use kv_index.Status.{
  Status, StatusOr, ok, error, fail, ok_status, ◌>>=◌, ◌>>◌, require, invalid_argument,
}
use kv_index.Base.ByteIo.{write_little_endian, read_little_endian, then_write}
use kv_index.Store.FrozenIndex.{
  FrozenPrimaryKeyIndexMetadata, magic_number, format_version, serialized_header_size,
}

-- The fields of the header, in the order in which they are written: width, value and offset.
unfoldable pub header_fields : FrozenPrimaryKeyIndexMetadata → List (ℕ × ℕ × ℕ)
header_fields metadata =
    (8, magic_number, 0)
    ∷ (4, format_version, 8)
    ∷ (4, serialized_header_size, 12)
    ∷ (8, metadata.row_count, 16)
    ∷ (8, metadata.capacity, 24)
    ∷ (8, metadata.hash_seed, 32)
    ∷ (4, metadata.hash_version, 40)
    ∷ (4, metadata.group_width, 44)
    ∷ (8, metadata.control_offset, 48)
    ∷ (8, metadata.key_offset, 56)
    ∷ (8, metadata.row_offset_offset, 64)
    ∷ (8, metadata.total_size, 72)
    ∷ []

unfoldable pub write_fields : List (ℕ × ℕ × ℕ) → List ℕ → Status × List ℕ
write_fields [] bytes = (ok_status, bytes)
write_fields ((width, value, offset) ∷ fields) bytes =
    then_write (write_little_endian width value bytes offset) (λ out. write_fields fields out)

unfoldable pub write_header : List ℕ → FrozenPrimaryKeyIndexMetadata → Status × List ℕ
unfolding header_fields write_fields
write_header bytes metadata = write_fields (header_fields metadata) bytes

-- A read whose error becomes an invalid argument with the same message.
unfoldable pub read_field : (width : ℕ) → List ℕ → ℕ → StatusOr ℕ
read_field width bytes offset = elim (read_little_endian width bytes offset) [
  | ok value ↦ ok value
  | error s ↦ fail (invalid_argument s.message)
]

unfoldable pub read_metadata : List ℕ → StatusOr FrozenPrimaryKeyIndexMetadata
unfolding read_field
read_metadata bytes = do
  require (not (ltb (length bytes) serialized_header_size))
      (invalid_argument "frozen primary-key index header is truncated")
  magic ← read_field 8 bytes 0
  require (magic == magic_number) (invalid_argument "frozen primary-key index magic is invalid")
  version ← read_field 4 bytes 8
  require (version == format_version)
      (invalid_argument "frozen primary-key index version is unsupported")
  header_size ← read_field 4 bytes 12
  require (header_size == serialized_header_size)
      (invalid_argument "frozen primary-key index header size is invalid")
  row_count ← read_field 8 bytes 16
  capacity ← read_field 8 bytes 24
  hash_seed ← read_field 8 bytes 32
  hash_version ← read_field 4 bytes 40
  group_width ← read_field 4 bytes 44
  control_offset ← read_field 8 bytes 48
  key_offset ← read_field 8 bytes 56
  row_offset_offset ← read_field 8 bytes 64
  total_size ← read_field 8 bytes 72
  ok (record {
    row_count = row_count;
    capacity = capacity;
    hash_seed = hash_seed;
    hash_version = hash_version;
    group_width = group_width;
    control_offset = control_offset;
    key_offset = key_offset;
    row_offset_offset = row_offset_offset;
    total_size = total_size;
  })
