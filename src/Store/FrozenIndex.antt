-- ===== src/Store/FrozenIndex.antt =====
-- src/store/frozen_primary_key_index.{h,cc}: an immutable open-addressing table in a span of bytes:
-- a header of 80 bytes, a control byte for each slot (mirrored behind the last one for a group of
-- 16), the keys, and the row offsets. Serialisation is in Store/FrozenIndex/Header.antt, the checks
-- of a span in Validate.antt, lookups in Lookup.antt and the builder in Build.antt.
pub mod Capacity
pub mod Header
pub mod Validate
pub mod Lookup
pub mod Build
use kv_index.Prelude.{
  ℕ, ◌+◌, ◌-◌, ◌*◌, ◌/◌, ◌^◌, ltb, ◌==◌, bit_and, u64, Bool, not, ◌&&◌, if◌then◌else◌, List,
}
use kv_index.Status.{StatusOr, ok, fail, invalid_argument}

pub record FrozenPrimaryKeyIndexEntry : Type 0 where
  pub primary_key : ℕ
  pub row_offset : ℕ

pub record FrozenPrimaryKeyIndexBuildOptions : Type 0 where
  pub hash_seed : ℕ
  pub hash_version : ℕ
  pub group_width : ℕ

pub record FrozenPrimaryKeyIndexMetadata : Type 0 where
  pub row_count : ℕ
  pub capacity : ℕ
  pub hash_seed : ℕ
  pub hash_version : ℕ
  pub group_width : ℕ
  pub control_offset : ℕ
  pub key_offset : ℕ
  pub row_offset_offset : ℕ
  pub total_size : ℕ

pub record FrozenPrimaryKeyIndexView : Type 0 where
  pub bytes : List ℕ
  pub metadata : FrozenPrimaryKeyIndexMetadata

-- `kMagic`, `kFormatVersion`, `kDefaultGroupWidth`, `kSerializedHeaderSize`, `kEmptyControl`.
abbrev pub magic_number : ℕ
magic_number = 0x315844494b50564b

abbrev pub format_version : ℕ
format_version = 1

abbrev pub default_group_width : ℕ
default_group_width = 16

abbrev pub serialized_header_size : ℕ
serialized_header_size = 80

abbrev pub empty_control : ℕ
empty_control = 0x80

-- `std::numeric_limits<std::uint64_t>::max()`.
abbrev pub u64_max : ℕ
u64_max = 2 ^ 64 - 1

unfoldable pub h2 : ℕ → ℕ
h2 hash = bit_and (hash / 2 ^ 57) 0x7f

unfoldable pub has_bytes : ℕ → ℕ → ℕ → Bool
has_bytes size offset byte_count = not (ltb size offset) && not (ltb (size - offset) byte_count)

unfoldable pub checked_add : ℕ → ℕ → StatusOr ℕ
checked_add lhs rhs =
    if ltb (u64_max - rhs) lhs
    then fail (invalid_argument "frozen primary-key index size overflows")
    else ok (lhs + rhs)

unfoldable pub checked_mul : ℕ → ℕ → StatusOr ℕ
checked_mul lhs rhs =
    if not (lhs == 0) && ltb (u64_max / lhs) rhs
    then fail (invalid_argument "frozen primary-key index size overflows")
    else ok (lhs * rhs)

-- `SlotOffset`.
unfoldable pub slot_offset : ℕ → ℕ → ℕ
slot_offset section_offset slot = u64 (section_offset + u64 (slot * 8))
