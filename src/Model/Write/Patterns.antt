-- ===== src/Model/Write/Patterns.antt =====
-- The loops that write patterns of one width one behind the other (src/model/row_storage.{h,cc}), and
-- those that read them.

use kv_index.Prelude.{
  ℕ, zero, suc, ◌+◌, ◌*◌, ◌%◌, ◌^◌, ◌≤◌, ◌<◌, ltb, false, ◌&&◌, ◌≡◌, refl, ap, subst, ◌∙◌, ◌⊎◌, inl,
  arith, List, [], ◌∷◌, length, get_or,
}
use kv_index.Status.{ok, ok_status}
use kv_index.Base.ByteIo.{then_write, write_little_endian, read_little_endian}
use kv_index.Base.ByteIo.RoundTrip.{WritesBack, write_little_endian-WritesBack}
use kv_index.Base.ByteIo.Ref.{read_little_endian-eq}
use kv_index.Schema.{FieldType, bool, field_type_size}
use kv_index.Model.Write.{write_patterns, type_eq}
use kv_index.Model.Read.{read_patterns}

-- The patterns stand in `out` from `start` on, each `width` bytes wide, and the other bytes are as before.
pub record WritesAll (width : ℕ) (values : List ℕ) (start : ℕ) (bytes out : List ℕ) : Type 0 where
  pub length_kept : length out ≡ length bytes
  pub outside :
      (j : ℕ)
      → (j < start) ⊎ (start + length values * width ≤ j)
      → get_or out j 0 ≡ get_or bytes j 0
  pub reads :
      (k : ℕ)
      → k < length values
      → read_little_endian width out (start + k * width) ≡ ok (get_or values k 0 % 2 ^ (width * 8))

one_more : (n width : ℕ) → suc n * width ≡ width + n * width
one_more n width = grind arith

reads_cons :
    (width v : ℕ) (vs : List ℕ) (start : ℕ) (bytes out1 out2 : List ℕ)
    → WritesBack width v bytes start out1
    → WritesAll width vs (start + width) out1 out2
    → (k : ℕ) → k < suc (length vs)
    → read_little_endian width out2 (start + k * width) ≡ ok (get_or (v ∷ vs) k 0 % 2 ^ (width * 8))
reads_cons width v vs start bytes out1 out2 first rest zero h =
    ap (read_little_endian width out2) (omega arith)
    ∙ read_little_endian-eq width out2 out1 start rest.length_kept
        (λ j p q. rest.outside j (inl (omega arith)))
    ∙ first.reads
reads_cons width v vs start bytes out1 out2 first rest (suc k) h =
    ap (read_little_endian width out2) (omega (arith, one_more k width))
    ∙ rest.reads k (omega arith)

pub write_patterns-WritesAll :
    (width : ℕ) (values : List ℕ) (i offset start : ℕ) (bytes : List ℕ)
    → start ≡ offset + i * width
    → start + length values * width ≤ length bytes
    → ((write_patterns width values i offset bytes).0 ≡ ok_status)
      × WritesAll width values start bytes (write_patterns width values i offset bytes).1
unfolding write_patterns
write_patterns-WritesAll width [] i offset start bytes at fits = (
  refl,
  record { length_kept = refl; outside = λ j h. refl; reads = λ k h. absurd (omega arith) },
)
write_patterns-WritesAll width (v ∷ vs) i offset start bytes at fits =
    let more = one_more (length vs) width in
    let first = write_little_endian-WritesBack width v bytes start (omega (arith, more)) in
    let out1 : List ℕ = (write_little_endian width v bytes start).1 in
    let rest =
      write_patterns-WritesAll width vs (i + 1) offset (start + width) out1 (grind (arith, at))
        (omega (arith, more, first.1.length_kept)) in
    let out2 : List ℕ = (write_patterns width vs (i + 1) offset out1).1 in
    let step : then_write (write_little_endian width v bytes start)
          (write_patterns width vs (i + 1) offset)
        ≡ (ok_status, out2) =
      ground (arith, first.0, rest.0) in
    subst
      (λ (t : ℕ).
        ((then_write (write_little_endian width v bytes t)
            (write_patterns width vs (i + 1) offset)).0
          ≡ ok_status)
        × WritesAll width (v ∷ vs) start bytes
            (then_write (write_little_endian width v bytes t)
              (write_patterns width vs (i + 1) offset)).1)
      at
      (rw step (
        refl,
        record {
          length_kept = rest.1.length_kept ∙ first.1.length_kept;
          outside = λ j h.
              rest.1.outside j (omega (arith, more)) ∙ first.1.outside j (omega (arith, more));
          reads = reads_cons width v vs start bytes out1 out2 first.1 rest.1;
        },
      ))

-- The loop of the reads returns the patterns that stand in its bytes.
pub read_patterns-of_reads :
    (type : FieldType) (bytes us : List ℕ) (i : ℕ)
    → ((k : ℕ)
        → k < length us
        → read_little_endian (field_type_size type) bytes ((i + k) * field_type_size type)
          ≡ ok (get_or us k 0))
    → ((k : ℕ) → k < length us → (type_eq type bool && ltb 1 (get_or us k 0)) ≡ false)
    → read_patterns type bytes (length us) i ≡ ok us
unfolding read_patterns
read_patterns-of_reads type bytes [] i reads bools = refl
read_patterns-of_reads type bytes (u ∷ us) i reads bools =
    let width : ℕ = field_type_size type in
    let first : read_little_endian width bytes (i * width) ≡ ok u =
      subst (λ (t : ℕ). read_little_endian width bytes (t * width) ≡ ok u) (omega arith)
        (reads 0 (omega arith)) in
    let rest =
      read_patterns-of_reads type bytes us (i + 1)
        (λ k h.
          subst (λ (t : ℕ). read_little_endian width bytes (t * width) ≡ ok (get_or us k 0))
            (omega arith) (reads (suc k) (omega arith)))
        (λ k h. bools (suc k) (omega arith)) in
    ground (arith, first, bools 0 (omega arith), rest)
