-- ===== src/Base/ByteIo/RoundTrip.antt =====
-- What `WriteLittleEndian` writes, `ReadLittleEndian` reads, and the bytes around are as they were.
use native.Mathlib.Nat.{div-add-mod, mod-lt, mod-eq_of_lt, add-mul-mod_self_left, one-le-pow}
use native.Mathlib.Numerals.{towards_suc}
use kv_index.Prelude.{
  ℕ, zero, suc, ◌+◌, ◌*◌, ◌/◌, ◌%◌, ◌^◌, ◌≤◌, ◌<◌, bit_and, bit_or, ◌≡◌, refl, ap, sym, subst, ◌∙◌,
  ◌⊎◌, inl, inr, arith, List, length, get_or, set, length-set, get_or-set_self, get_or-set_ne,
  eq-cases,
}
use kv_index.Base.Bits.{bit_and_mask, bit_or_disjoint}
use kv_index.Base.ByteIo.{
  write_bytes, read_bytes, write_little_endian, read_little_endian, check_span_bounds,
}
use kv_index.Status.{ok, ok_status}

-- Byte `i` of a value.
abbrev byte_of : ℕ → ℕ → ℕ
byte_of value i = bit_and (value / 2 ^ (i * 8)) 0xff

module _ (value offset : ℕ) where
  pub length-write_bytes :
      (bytes : List ℕ) (left i : ℕ) → length (write_bytes value bytes offset left i) ≡ length bytes
  unfolding write_bytes
  length-write_bytes bytes zero i = refl
  length-write_bytes bytes (suc left) i =
      length-write_bytes (set bytes (offset + i) (byte_of value i)) left (i + 1)
      ∙ length-set bytes (offset + i) (byte_of value i)

  pub get_or-write_bytes_out :
      (bytes : List ℕ) (left i j : ℕ)
      → (j < offset + i) ⊎ (offset + i + left ≤ j)
      → get_or (write_bytes value bytes offset left i) j 0 ≡ get_or bytes j 0
  unfolding write_bytes
  get_or-write_bytes_out bytes zero i j h = refl
  get_or-write_bytes_out bytes (suc left) i j h =
      get_or-write_bytes_out (set bytes (offset + i) (byte_of value i)) left (i + 1) j (omega arith)
      ∙ get_or-set_ne bytes (offset + i) j (byte_of value i) 0 (omega arith)

  get_or-write_bytes_in :
      (bytes : List ℕ) (left i j : ℕ)
      → i ≤ j
      → j < i + left
      → offset + i + left ≤ length bytes
      → get_or (write_bytes value bytes offset left i) (offset + j) 0 ≡ byte_of value j
  unfolding write_bytes
  get_or-write_bytes_in bytes zero i j a b fits = absurd (omega arith)
  get_or-write_bytes_in bytes (suc left) i j a b fits = elim (eq-cases i j) [
    | inl here ↦
        get_or-write_bytes_out (set bytes (offset + i) (byte_of value i)) left (i + 1) (offset + j)
          (inl (omega arith))
        ∙ subst
            (λ t.
              get_or (set bytes (offset + i) (byte_of value i)) (offset + t) 0 ≡ byte_of value t)
            here (get_or-set_self bytes (offset + i) (byte_of value i) 0 (omega arith))
    | inr later ↦
        get_or-write_bytes_in (set bytes (offset + i) (byte_of value i)) left (i + 1) j
          (omega arith) (omega arith)
          (omega (arith, length-set bytes (offset + i) (byte_of value i)))
  ]

digit : (value p : ℕ) → 0 < p → value / p % 256 * p + value % p ≡ value % (p * 256)
digit value p pos =
    let q : ℕ = value / p in
    let low : ℕ = q % 256 * p + value % p in
    let split : value ≡ low + p * 256 * (q / 256) =
      omega (arith, div-add-mod value p, ap (λ (t : ℕ). p * t) (div-add-mod q 256)) in
    let bound : q % 256 * p ≤ 255 * p = grind arith in
    let small : low < p * 256 = omega (arith, mod-lt value pos, bound) in
    sym (
      ap (λ (t : ℕ). t % (p * 256)) split
      ∙ add-mul-mod_self_left low (p * 256) (q / 256)
      ∙ mod-eq_of_lt small)

pow_step : (i : ℕ) → 2 ^ ((i + 1) * 8) ≡ 2 ^ (i * 8) * 256
pow_step i = let e : (i + 1) * 8 ≡ i * 8 + 8 = omega arith in rw e (simp towards_suc (omega arith))

pow_pos : (k : ℕ) → 0 < 2 ^ k
pow_pos k = omega (arith, one-le-pow k 2)

-- One round of the read loop adds the next digit.
read_step :
    (value i : ℕ)
    → bit_or (value % 2 ^ (i * 8)) (byte_of value i * 2 ^ (i * 8)) ≡ value % 2 ^ ((i + 1) * 8)
read_step value i =
    bit_or_disjoint (i * 8) (byte_of value i) (value % 2 ^ (i * 8)) (mod-lt value (pow_pos (i * 8)))
    ∙ ap (λ (t : ℕ). t * 2 ^ (i * 8) + value % 2 ^ (i * 8)) (bit_and_mask 8 (value / 2 ^ (i * 8)))
    ∙ digit value (2 ^ (i * 8)) (pow_pos (i * 8))
    ∙ ap (λ (t : ℕ). value % t) (sym (pow_step i))

read_bytes-of_digits :
    (value : ℕ) (bytes : List ℕ) (offset left i : ℕ)
    → ((j : ℕ) → i ≤ j → j < i + left → get_or bytes (offset + j) 0 ≡ byte_of value j)
    → read_bytes bytes offset left i (value % 2 ^ (i * 8)) ≡ value % 2 ^ ((i + left) * 8)
unfolding read_bytes
read_bytes-of_digits value bytes offset zero i h = ap (λ (t : ℕ). value % 2 ^ (t * 8)) (omega arith)
read_bytes-of_digits value bytes offset (suc left) i h =
    let first = h i (omega arith) (omega arith) in
    ap (λ (t : ℕ). read_bytes bytes offset left (i + 1) t)
      (ap (λ (t : ℕ). bit_or (value % 2 ^ (i * 8)) (t * 2 ^ (i * 8))) first ∙ read_step value i)
    ∙ read_bytes-of_digits value bytes offset left (i + 1)
        (λ j a b. h j (omega arith) (omega arith))
    ∙ ap (λ (t : ℕ). value % 2 ^ (t * 8)) (omega arith)

module _ (width value : ℕ) (bytes : List ℕ) (offset : ℕ)
    (fits : offset + width ≤ length bytes) where
  in_bounds : check_span_bounds (length bytes) offset width ≡ ok_status
  unfolding check_span_bounds
  in_bounds = ground arith

  pub write_little_endian-fits :
      write_little_endian width value bytes offset
      ≡ (ok_status, write_bytes value bytes offset width 0)
  unfolding write_little_endian
  write_little_endian-fits = rw in_bounds

  pub read_little_endian-fits :
      read_little_endian width bytes offset ≡ ok (read_bytes bytes offset width 0 0)
  unfolding read_little_endian
  read_little_endian-fits = rw in_bounds

-- The length and every byte outside the `width` that are written are kept, and a read of that width
-- at that offset returns the value's lowest `width` bytes.
pub record WritesBack (width value : ℕ) (bytes : List ℕ) (offset : ℕ) (out : List ℕ) : Type 0 where
  pub length_kept : length out ≡ length bytes
  pub outside : (j : ℕ) → (j < offset) ⊎ (offset + width ≤ j) → get_or out j 0 ≡ get_or bytes j 0
  pub reads : read_little_endian width out offset ≡ ok (value % 2 ^ (width * 8))

-- A write of `width` bytes that fits the span succeeds; it keeps the span's length and every byte
-- outside of those, and a read of that width at that offset returns the value modulo
-- 2 ^ (width * 8).
pub write_little_endian-WritesBack :
    (width value : ℕ) (bytes : List ℕ) (offset : ℕ)
    → offset + width ≤ length bytes
    → ((write_little_endian width value bytes offset).0 ≡ ok_status)
      × WritesBack width value bytes offset (write_little_endian width value bytes offset).1
write_little_endian-WritesBack width value bytes offset fits =
    rw (write_little_endian-fits width value bytes offset fits) (
      refl,
      record {
        length_kept = length-write_bytes value offset bytes width 0;
        outside = λ j h. get_or-write_bytes_out value offset bytes width 0 j (omega arith);
        reads =
            let out = write_bytes value bytes offset width 0 in
            let start : value % 2 ^ (0 * 8) ≡ 0 = omega arith in
            let whole : value % 2 ^ ((0 + width) * 8) ≡ value % 2 ^ (width * 8) =
              ap (λ (t : ℕ). value % 2 ^ (t * 8)) (omega arith) in
            read_little_endian-fits width value out offset
              (omega (arith, length-write_bytes value offset bytes width 0))
            ∙ ap ok (
                ap (λ (t : ℕ). read_bytes out offset width 0 t) (sym start)
                ∙ read_bytes-of_digits value out offset width 0
                    (λ j a b. get_or-write_bytes_in value offset bytes width 0 j a b (omega arith))
                ∙ whole);
      },
    )
