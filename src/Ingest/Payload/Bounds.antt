-- ===== src/Ingest/Payload/Bounds.antt =====
-- What is read of bytes (src/ingest/update_applier.cc) has the range of its width.

use native.Mathlib.Numerals.{towards_suc}
use kv_index.Prelude.{
  ℕ, zero, suc, ◌+◌, ◌*◌, ◌^◌, ◌≤◌, ◌<◌, ltb, bit_or, ◌≡◌, refl, subst, arith, not, List, [], ◌∷◌,
  length, get_or, take, drop, inl, inr, Bool-cases,
}
use kv_index.Status.{ok, >>=-eq-ok, >>-eq-ok, require}
use kv_index.Base.Bits.{bit_or_disjoint}
use kv_index.Base.ByteIo.{read_bytes, read_little_endian, check_span_bounds}
use kv_index.Model.Value.{signed_of}
use kv_index.Model.Value.RoundTrip.{FitsSigned}
use kv_index.Ingest.Payload.{ByteReader, remaining, read_integer}
use kv_index.Ingest.Payload as Payload

-- Every element is a byte.
abbrev pub IsBytes : List ℕ → Type 0
IsBytes bytes = (j : ℕ) → get_or bytes j 0 < 256

pub drop-IsBytes : (n : ℕ) (bytes : List ℕ) → IsBytes bytes → IsBytes (drop n bytes)
drop-IsBytes zero bytes h = h
drop-IsBytes (suc n) [] h = h
drop-IsBytes (suc n) (x ∷ xs) h = drop-IsBytes n xs (λ j. h (suc j))

pub take-IsBytes : (n : ℕ) (bytes : List ℕ) → IsBytes bytes → IsBytes (take n bytes)
take-IsBytes zero bytes h j = omega arith
take-IsBytes (suc n) [] h j = omega arith
take-IsBytes (suc n) (x ∷ xs) h zero = h 0
take-IsBytes (suc n) (x ∷ xs) h (suc j) = take-IsBytes n xs (λ k. h (suc k)) j

pub length-take : (n : ℕ) (xs : List ℕ) → length (take n xs) ≤ n
length-take zero xs = omega arith
length-take (suc n) [] = omega arith
length-take (suc n) (x ∷ xs) = omega (arith, length-take n xs)

pow_next : (i : ℕ) → 2 ^ ((i + 1) * 8) ≡ 2 ^ (i * 8) * 256
pow_next i = let e : (i + 1) * 8 ≡ i * 8 + 8 = omega arith in rw e (simp towards_suc (omega arith))

one_byte : (b p acc : ℕ) → b < 256 → acc < p → b * p + acc < p * 256
one_byte b p acc hb ha = let step : b * p ≤ 255 * p = grind arith in omega arith

read_bytes-lt :
    (bytes : List ℕ) (offset left i acc : ℕ)
    → IsBytes bytes
    → acc < 2 ^ (i * 8)
    → read_bytes bytes offset left i acc < 2 ^ ((i + left) * 8)
unfolding read_bytes
read_bytes-lt bytes offset zero i acc h small =
    subst (λ (t : ℕ). acc < 2 ^ (t * 8)) (omega arith) small
read_bytes-lt bytes offset (suc left) i acc h small =
    let b : ℕ = get_or bytes (offset + i) 0 in
    let next : bit_or acc (b * 2 ^ (i * 8)) < 2 ^ ((i + 1) * 8) =
      rw (pow_next i, bit_or_disjoint (i * 8) b acc small)
        (one_byte b (2 ^ (i * 8)) acc (h (offset + i)) small) in
    subst
      (λ (t : ℕ). read_bytes bytes offset left (i + 1) (bit_or acc (b * 2 ^ (i * 8))) < 2 ^ (t * 8))
      (omega arith) (read_bytes-lt bytes offset left (i + 1) (bit_or acc (b * 2 ^ (i * 8))) h next)

pub read_little_endian-lt :
    (width : ℕ) (bytes : List ℕ) (offset v : ℕ)
    → IsBytes bytes
    → read_little_endian width bytes offset ≡ ok v
    → v < 2 ^ (width * 8)
unfolding read_little_endian
read_little_endian-lt width bytes offset v h e =
    let value = (>>-eq-ok (check_span_bounds (length bytes) offset width) _ e).1 in
    let same : read_bytes bytes offset width 0 0 ≡ v = cc value in
    subst (λ (t : ℕ). t < 2 ^ (width * 8)) same
      (subst (λ (t : ℕ). read_bytes bytes offset width 0 0 < 2 ^ (t * 8)) (omega arith)
        (read_bytes-lt bytes offset width 0 0 h (omega arith)))

pub signed_of-FitsSigned_8 : (u : ℕ) → u < 2 ^ 8 → FitsSigned 8 (signed_of 8 u)
unfolding signed_of
signed_of-FitsSigned_8 u h = elim (Bool-cases (ltb (2 * u) (2 ^ 8))) [
  | inl e ↦ rw e (ground (arith, e))
  | inr e ↦ rw e (ground (arith, e))
]

pub signed_of-FitsSigned_32 : (u : ℕ) → u < 2 ^ 32 → FitsSigned 32 (signed_of 32 u)
unfolding signed_of
signed_of-FitsSigned_32 u h = elim (Bool-cases (ltb (2 * u) (2 ^ 32))) [
  | inl e ↦ rw e (ground (arith, e))
  | inr e ↦ rw e (ground (arith, e))
]

pub signed_of-FitsSigned_64 : (u : ℕ) → u < 2 ^ 64 → FitsSigned 64 (signed_of 64 u)
unfolding signed_of
signed_of-FitsSigned_64 u h = elim (Bool-cases (ltb (2 * u) (2 ^ 64))) [
  | inl e ↦ rw e (ground (arith, e))
  | inr e ↦ rw e (ground (arith, e))
]

-- A read moves the reader by the bytes that it read, which are there.
pub record Moves (size : ℕ) (r r' : ByteReader) : Type 0 where
  pub same_bytes : r'.bytes ≡ r.bytes
  pub offset_after : r'.offset ≡ r.offset + size
  pub inside : r.offset ≤ length r.bytes → r'.offset ≤ length r.bytes

pub read_integer-Moves :
    (width : ℕ) (r : ByteReader) (x : ℕ × ByteReader)
    → IsBytes r.bytes
    → read_integer width r ≡ ok x
    → (x.0 < 2 ^ (width * 8)) × Moves width r (x.1)
unfolding read_integer
read_integer-Moves width r x h e =
    let room = >>-eq-ok (require (not (ltb (remaining r) width)) _) _ e in
    let value = >>=-eq-ok (read_little_endian width r.bytes r.offset) _ (room.1) in
    let same : (value.0, record r { offset = r.offset + width }) ≡ x = cc (value.2) in
    subst (λ t. (t.0 < 2 ^ (width * 8)) × Moves width r (t.1)) same
      (
        read_little_endian-lt width r.bytes r.offset (value.0) h (value.1),
        record { same_bytes = refl; offset_after = refl; inside = λ b. ground (arith, room.0) },
      )

pub read_bytes-Moves :
    (size : ℕ) (r : ByteReader) (x : List ℕ × ByteReader)
    → IsBytes r.bytes
    → Payload.read_bytes size r ≡ ok x
    → IsBytes (x.0) × (length (x.0) ≤ size) × Moves size r (x.1)
unfolding Payload.read_bytes
read_bytes-Moves size r x h e =
    let room = >>-eq-ok (require (not (ltb (remaining r) size)) _) _ e in
    let same : (take size (drop r.offset r.bytes), record r { offset = r.offset + size }) ≡ x =
      cc (room.1) in
    subst (λ t. IsBytes (t.0) × (length (t.0) ≤ size) × Moves size r (t.1)) same
      (
        take-IsBytes size (drop r.offset r.bytes) (drop-IsBytes r.offset r.bytes h),
        length-take size (drop r.offset r.bytes),
        record { same_bytes = refl; offset_after = refl; inside = λ b. ground (arith, room.0) },
      )
