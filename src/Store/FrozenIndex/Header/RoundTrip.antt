-- ===== src/Store/FrozenIndex/Header/RoundTrip.antt =====
-- `ReadMetadata` reads what `WriteHeader` wrote.
use native.Mathlib.Nat.{mod-eq_of_lt}
use kv_index.Prelude.{
  ℕ, ◌+◌, ◌*◌, ◌%◌, ◌^◌, ◌≤◌, ◌<◌, ◌≡◌, refl, sym, ap, ◌∙◌, subst, inl, List, [], ◌∷◌, All, length,
  get_or, arith,
}
use kv_index.Status.{Status, ok, ok_status}
use kv_index.Base.ByteIo.{write_little_endian, read_little_endian}
use kv_index.Base.ByteIo.RoundTrip.{write_little_endian-WritesBack}
use kv_index.Base.ByteIo.Ref.{read_little_endian-eq}
use kv_index.Store.FrozenIndex.{FrozenPrimaryKeyIndexMetadata, magic_number}
use kv_index.Store.FrozenIndex.Header.{
  header_fields, write_fields, write_header, read_field, read_metadata,
}

-- The fields stand one behind the other from `start` on, in a span of a length.
abbrev AreInOrder : ℕ → ℕ → List (ℕ × ℕ × ℕ) → Type 0
AreInOrder size start [] = Unit
AreInOrder size start ((width, value, offset) ∷ fields) =
    (start ≤ offset) × (offset + width ≤ size) × AreInOrder size (offset + width) fields

abbrev Reads : List ℕ → ℕ × ℕ × ℕ → Type 0
Reads out (width, value, offset) =
    read_little_endian width out offset ≡ ok (value % 2 ^ (width * 8))

-- The fields are written, the bytes before them kept, and each is read back.
record WritesAll (start : ℕ) (fields : List (ℕ × ℕ × ℕ)) (bytes : List ℕ) (result : Status × List ℕ)
    : Type 0 where
  done : result.0 ≡ ok_status
  kept : length result.1 ≡ length bytes
  before : (j : ℕ) → j < start → get_or result.1 j 0 ≡ get_or bytes j 0
  reads : All (Reads result.1) fields

write_fields-WritesAll :
    (fields : List (ℕ × ℕ × ℕ)) (bytes : List ℕ) (size start : ℕ)
    → length bytes ≡ size
    → AreInOrder size start fields
    → WritesAll start fields bytes (write_fields fields bytes)
unfolding write_fields
write_fields-WritesAll [] bytes size start same h = record {
  done = refl;
  kept = refl;
  before = λ j b. refl;
  reads = tt;
}
write_fields-WritesAll ((width, value, offset) ∷ fields) bytes size start same (from, fits, rest) =
    let first = write_little_endian-WritesBack width value bytes offset (omega arith) in
    let between : List ℕ = (write_little_endian width value bytes offset).1 in
    let others =
      write_fields-WritesAll fields between size (offset + width) (first.1.length_kept ∙ same)
        rest in
    let out : List ℕ = (write_fields fields between).1 in
    let both : write_fields ((width, value, offset) ∷ fields) bytes ≡ write_fields fields between =
      ground (arith, first.0) in
    subst (WritesAll start ((width, value, offset) ∷ fields) bytes) (sym both) (record {
      done = others.done;
      kept = others.kept ∙ first.1.length_kept;
      before = λ j b. others.before j (omega arith) ∙ first.1.outside j (inl (omega arith));
      reads = (
        read_little_endian-eq width out between offset others.kept (λ j a b. others.before j b)
            ∙ first.1.reads,
        others.reads,
      );
    })

-- The fields of the metadata fit their widths in the header.
pub record FitsHeader (metadata : FrozenPrimaryKeyIndexMetadata) : Type 0 where
  pub row_count_fits : metadata.row_count < 2 ^ 64
  pub capacity_fits : metadata.capacity < 2 ^ 64
  pub hash_seed_fits : metadata.hash_seed < 2 ^ 64
  pub hash_version_fits : metadata.hash_version < 2 ^ 32
  pub group_width_fits : metadata.group_width < 2 ^ 32
  pub control_offset_fits : metadata.control_offset < 2 ^ 64
  pub key_offset_fits : metadata.key_offset < 2 ^ 64
  pub row_offset_offset_fits : metadata.row_offset_offset < 2 ^ 64
  pub total_size_fits : metadata.total_size < 2 ^ 64

module _ (metadata : FrozenPrimaryKeyIndexMetadata) (bytes : List ℕ) (fits : FitsHeader metadata)
    (room : 80 ≤ length bytes) where
  written_header : WritesAll 0 (header_fields metadata) bytes (write_header bytes metadata)
  unfolding write_header header_fields
  written_header =
      write_fields-WritesAll (header_fields metadata) bytes (length bytes) 0 refl (ground arith)

  abbrev out : List ℕ
  out = (write_header bytes metadata).1

  -- What the reads of the header find.
  record HeaderReads : Type 0 where
    magic_read : read_little_endian 8 out 0 ≡ ok magic_number
    version_read : read_little_endian 4 out 8 ≡ ok 1
    size_read : read_little_endian 4 out 12 ≡ ok 80
    row_count_read : read_little_endian 8 out 16 ≡ ok metadata.row_count
    capacity_read : read_little_endian 8 out 24 ≡ ok metadata.capacity
    hash_seed_read : read_little_endian 8 out 32 ≡ ok metadata.hash_seed
    hash_version_read : read_little_endian 4 out 40 ≡ ok metadata.hash_version
    group_width_read : read_little_endian 4 out 44 ≡ ok metadata.group_width
    control_offset_read : read_little_endian 8 out 48 ≡ ok metadata.control_offset
    key_offset_read : read_little_endian 8 out 56 ≡ ok metadata.key_offset
    row_offset_offset_read : read_little_endian 8 out 64 ≡ ok metadata.row_offset_offset
    total_size_read : read_little_endian 8 out 72 ≡ ok metadata.total_size

  header_reads : HeaderReads
  unfolding header_fields
  header_reads =
      let (r0, (r1, (r2, (r3, (r4, (r5, (r6, (r7, (r8, (r9, (r10, (r11, rest)))))))))))) =
        written_header.reads in
      record {
        magic_read = r0;
        version_read = r1;
        size_read = r2;
        row_count_read = r3 ∙ ap ok (mod-eq_of_lt fits.row_count_fits);
        capacity_read = r4 ∙ ap ok (mod-eq_of_lt fits.capacity_fits);
        hash_seed_read = r5 ∙ ap ok (mod-eq_of_lt fits.hash_seed_fits);
        hash_version_read = r6 ∙ ap ok (mod-eq_of_lt fits.hash_version_fits);
        group_width_read = r7 ∙ ap ok (mod-eq_of_lt fits.group_width_fits);
        control_offset_read = r8 ∙ ap ok (mod-eq_of_lt fits.control_offset_fits);
        key_offset_read = r9 ∙ ap ok (mod-eq_of_lt fits.key_offset_fits);
        row_offset_offset_read = r10 ∙ ap ok (mod-eq_of_lt fits.row_offset_offset_fits);
        total_size_read = r11 ∙ ap ok (mod-eq_of_lt fits.total_size_fits);
      }

  -- In a span of at least 80 bytes, `WriteHeader` of metadata that fits the header's widths succeeds,
  -- and `ReadMetadata` reads the same metadata back.
  pub read_metadata-write_header :
      ((write_header bytes metadata).0 ≡ ok_status)
      × (read_metadata (write_header bytes metadata).1 ≡ ok metadata)
  unfolding read_metadata read_field
  read_metadata-write_header =
      let h = header_reads in
      (
        written_header.done,
        ground (
          arith, written_header.kept, h.magic_read, h.version_read, h.size_read, h.row_count_read,
          h.capacity_read, h.hash_seed_read, h.hash_version_read, h.group_width_read,
          h.control_offset_read, h.key_offset_read, h.row_offset_offset_read, h.total_size_read,
        ),
      )
