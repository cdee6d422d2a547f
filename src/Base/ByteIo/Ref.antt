-- ===== src/Base/ByteIo/Ref.antt =====
-- `WriteValueRef16` and `DecodeValueRef16` are inverse.
use native.Mathlib.Nat.{mod-eq_of_lt}
use kv_index.Prelude.{
  ℕ, zero, suc, ◌+◌, ◌*◌, ◌^◌, ◌≤◌, ◌<◌, ◌≡◌, refl, ap, sym, ◌∙◌, ◌⊎◌, inl, inr, arith, List,
  length, get_or, bit_or,
}
use kv_index.Base.ByteIo.{
  ValueRef16, read_bytes, write_little_endian, read_little_endian, check_span_bounds,
  write_value_ref16, decode_value_ref16,
}
use kv_index.Base.ByteIo.RoundTrip.{WritesBack, write_little_endian-WritesBack, length-write_bytes}
use kv_index.Status.{ok, ok_status, is_ok}

-- A read depends on the bytes of its range alone.
pub read_bytes-eq :
    (a b : List ℕ) (offset left i acc : ℕ)
    → ((j : ℕ) → offset + i ≤ j → j < offset + i + left → get_or a j 0 ≡ get_or b j 0)
    → read_bytes a offset left i acc ≡ read_bytes b offset left i acc
unfolding read_bytes
read_bytes-eq a b offset zero i acc h = refl
read_bytes-eq a b offset (suc left) i acc h =
    ap (λ (t : ℕ). read_bytes a offset left (i + 1) (bit_or acc (t * 2 ^ (i * 8))))
      (h (offset + i) (omega arith) (omega arith))
    ∙ read_bytes-eq a b offset left (i + 1) _ (λ j p q. h j (omega arith) (omega arith))

pub read_little_endian-eq :
    (width : ℕ) (a b : List ℕ) (offset : ℕ)
    → length a ≡ length b
    → ((j : ℕ) → offset ≤ j → j < offset + width → get_or a j 0 ≡ get_or b j 0)
    → read_little_endian width a offset ≡ read_little_endian width b offset
unfolding read_little_endian
read_little_endian-eq width a b offset same h =
    rw (same, read_bytes-eq a b offset width 0 0 (λ j p q. h j (omega arith) (omega arith)))

-- A write keeps the length of its bytes, whether it succeeds or not.
pub length-write_little_endian :
    (width value : ℕ) (bytes : List ℕ) (offset : ℕ)
    → length (write_little_endian width value bytes offset).1 ≡ length bytes
unfolding write_little_endian
length-write_little_endian width value bytes offset =
    ground (arith, length-write_bytes value offset bytes width 0)

pub length-write_value_ref16 :
    (ref : ValueRef16) (bytes : List ℕ) (offset : ℕ)
    → length (write_value_ref16 ref bytes offset).1 ≡ length bytes
unfolding write_value_ref16
length-write_value_ref16 ref bytes offset =
    let a : List ℕ = (write_little_endian 8 ref.offset bytes offset).1 in
    let b : List ℕ = (write_little_endian 4 ref.byte_length a (offset + 8)).1 in
    ground (
      arith,
      length-write_little_endian 8 ref.offset bytes offset,
      length-write_little_endian 4 ref.byte_length a (offset + 8),
      length-write_little_endian 4 ref.element_count_or_flags b (offset + 12),
    )

-- The fields fit their widths.
pub record FitsRef (ref : ValueRef16) : Type 0 where
  pub offset_fits : ref.offset < 2 ^ 64
  pub length_fits : ref.byte_length < 2 ^ 32
  pub count_fits : ref.element_count_or_flags < 2 ^ 32

module _ (ref : ValueRef16) (bytes : List ℕ) (offset : ℕ) (fits : offset + 16 ≤ length bytes)
    (small : FitsRef ref) where
  abbrev out1 : List ℕ
  out1 = (write_little_endian 8 ref.offset bytes offset).1

  abbrev out2 : List ℕ
  out2 = (write_little_endian 4 ref.byte_length out1 (offset + 8)).1

  abbrev out3 : List ℕ
  out3 = (write_little_endian 4 ref.element_count_or_flags out2 (offset + 12)).1

  first :
      ((write_little_endian 8 ref.offset bytes offset).0 ≡ ok_status)
      × WritesBack 8 ref.offset bytes offset out1
  first = write_little_endian-WritesBack 8 ref.offset bytes offset (omega arith)

  second :
      ((write_little_endian 4 ref.byte_length out1 (offset + 8)).0 ≡ ok_status)
      × WritesBack 4 ref.byte_length out1 (offset + 8) out2
  second =
      write_little_endian-WritesBack 4 ref.byte_length out1 (offset + 8)
        (omega (arith, first.1.length_kept))

  third :
      ((write_little_endian 4 ref.element_count_or_flags out2 (offset + 12)).0 ≡ ok_status)
      × WritesBack 4 ref.element_count_or_flags out2 (offset + 12) out3
  third =
      write_little_endian-WritesBack 4 ref.element_count_or_flags out2 (offset + 12)
        (omega (arith, first.1.length_kept, second.1.length_kept))

  bounds : is_ok (check_span_bounds (length bytes) offset 16) ≡ kv_index.Prelude.true
  unfolding check_span_bounds
  bounds = ground arith

  pub write_value_ref16-out : write_value_ref16 ref bytes offset ≡ (ok_status, out3)
  unfolding write_value_ref16
  write_value_ref16-out = ground (arith, bounds, first.0, second.0, third.0)

  reads1 : read_little_endian 8 out3 offset ≡ ok ref.offset
  reads1 =
      read_little_endian-eq 8 out3 out1 offset (third.1.length_kept ∙ second.1.length_kept)
        (λ j p q. third.1.outside j (inl (omega arith)) ∙ second.1.outside j (inl (omega arith)))
      ∙ first.1.reads
      ∙ ap ok (mod-eq_of_lt small.offset_fits)

  reads2 : read_little_endian 4 out3 (offset + 8) ≡ ok ref.byte_length
  reads2 =
      read_little_endian-eq 4 out3 out2 (offset + 8) third.1.length_kept
        (λ j p q. third.1.outside j (inl (omega arith)))
      ∙ second.1.reads
      ∙ ap ok (mod-eq_of_lt small.length_fits)

  -- Where sixteen bytes fit, a reference whose fields fit their widths is written, and decoded from
  -- there as it was.
  pub decode-write_value_ref16 :
      ((write_value_ref16 ref bytes offset).0 ≡ ok_status)
      × (decode_value_ref16 (write_value_ref16 ref bytes offset).1 offset ≡ ok ref)
  unfolding decode_value_ref16
  decode-write_value_ref16 =
      let same : length out3 ≡ length bytes =
        third.1.length_kept ∙ second.1.length_kept ∙ first.1.length_kept in
      rw write_value_ref16-out (
        refl,
        ground (arith, same, bounds, reads1, reads2, third.1.reads, mod-eq_of_lt small.count_fits),
      )

  -- The bytes around the reference are kept.
  pub write_value_ref16-outside :
      (length (write_value_ref16 ref bytes offset).1 ≡ length bytes)
      × ((j : ℕ)
          → (j < offset) ⊎ (offset + 16 ≤ j)
          → get_or (write_value_ref16 ref bytes offset).1 j 0 ≡ get_or bytes j 0)
  write_value_ref16-outside = rw write_value_ref16-out (
    third.1.length_kept ∙ second.1.length_kept ∙ first.1.length_kept,
    λ j h.
        third.1.outside j (omega arith)
        ∙ second.1.outside j (omega arith)
        ∙ first.1.outside j (omega arith),
  )
