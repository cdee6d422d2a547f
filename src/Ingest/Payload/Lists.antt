-- ===== src/Ingest/Payload/Lists.antt =====
-- The lists that the payload decoder (src/ingest/update_applier.cc) reads have values in range and no more
-- than their bytes hold.
use kv_index.Prelude.{
  ℕ, zero, suc, ◌+◌, ◌*◌, ◌^◌, ◌≤◌, ◌<◌, ltb, ◌==◌, ◌≡◌, refl, sym, ap, subst, ◌∙◌, arith, not,
  Bool, All, List, [], ◌∷◌, length,
}
use kv_index.Status.{ok, >>=-eq-ok, >>-eq-ok, require, invalid_argument}
use kv_index.Ingest.Payload.{
  ByteReader, remaining, read_integer, read_integers, read_bools, read_scalar_list, read_bool_list,
  read_strings, read_string_list,
}
use kv_index.Ingest.Payload as Payload
use kv_index.Ingest.Payload.Bounds.{IsBytes, Moves, read_integer-Moves, read_bytes-Moves}

pub still_bytes : {n : ℕ} (r r' : ByteReader) → Moves n r r' → IsBytes r.bytes → IsBytes r'.bytes
still_bytes r r' m h = subst IsBytes (sym m.same_bytes) h

read_integers-lt :
    (width left : ℕ) (r : ByteReader) (us : List ℕ)
    → IsBytes r.bytes
    → read_integers width left r ≡ ok us
    → All (λ u. u < 2 ^ (width * 8)) us × (length us ≡ left)
unfolding read_integers
read_integers-lt width zero r us h e =
    let same : [] ≡ us = cc in
    subst (λ t. All (λ u. u < 2 ^ (width * 8)) t × (length t ≡ 0)) same (tt, refl)
read_integers-lt width (suc left) r us h e =
    let first = >>=-eq-ok (read_integer width r) _ e in
    let m = read_integer-Moves width r (first.0) h (first.1) in
    let rest = >>=-eq-ok (read_integers width left (first.0.1)) _ (first.2) in
    let ih =
      read_integers-lt width left (first.0.1) (rest.0) (still_bytes r (first.0.1) (m.1) h)
        (rest.1) in
    let same : first.0.0 ∷ rest.0 ≡ us = cc (rest.2) in
    subst (λ t. All (λ u. u < 2 ^ (width * 8)) t × (length t ≡ suc left)) same
      ((m.0, ih.0), ap suc (ih.1))

read_bools-length :
    (left : ℕ) (r : ByteReader) (bs : List Bool) → read_bools left r ≡ ok bs → length bs ≡ left
unfolding read_bools
read_bools-length zero r bs e = let same : [] ≡ bs = cc in ap length (sym same)
read_bools-length (suc left) r bs e =
    let first = >>=-eq-ok (read_integer 1 r) _ e in
    let valid = >>-eq-ok (require (not (ltb 1 (first.0.0))) _) _ (first.2) in
    let rest = >>=-eq-ok (read_bools left (first.0.1)) _ (valid.1) in
    let same : not (first.0.0 == 0) ∷ rest.0 ≡ bs = cc (rest.2) in
    ap length (sym same) ∙ ap suc (read_bools-length left (first.0.1) (rest.0) (rest.1))

-- The count of a list, read at the start of its bytes.
module _ (bytes : List ℕ) (h : IsBytes bytes) where
  abbrev start : ByteReader
  start = record { bytes = bytes; offset = 0 }

  pub read_scalar_list-lt :
      (width : ℕ) (us : List ℕ)
      → read_scalar_list width bytes ≡ ok us
      → All (λ u. u < 2 ^ (width * 8)) us × (length us * width ≤ length bytes)
  unfolding read_scalar_list
  read_scalar_list-lt width us e =
      let count = >>=-eq-ok (read_integer 4 start) _ e in
      let m = read_integer-Moves 4 start (count.0) h (count.1) in
      let exact =
        >>-eq-ok
          (require (remaining (count.0.1) == count.0.0 * width)
            (invalid_argument "payload list byte length is invalid"))
          _ (count.2) in
      let sized : remaining (count.0.1) ≡ count.0.0 * width = ground (arith, exact.0) in
      let all =
        read_integers-lt width (count.0.0) (count.0.1) us (still_bytes start (count.0.1) (m.1) h)
          (exact.1) in
      (
        all.0,
        omega (
          arith,
          sized,
          ap (λ (t : ℕ). t * width) (all.1),
          ap (λ (t : List ℕ). length t) m.1.same_bytes,
        ),
      )

  pub read_bool_list-length :
      (bs : List Bool) → read_bool_list bytes ≡ ok bs → length bs ≤ length bytes
  unfolding read_bool_list
  read_bool_list-length bs e =
      let count = >>=-eq-ok (read_integer 4 start) _ e in
      let m = read_integer-Moves 4 start (count.0) h (count.1) in
      let exact =
        >>-eq-ok
          (require (remaining (count.0.1) == count.0.0)
            (invalid_argument "payload bool-list byte length is invalid"))
          _ (count.2) in
      let sized : remaining (count.0.1) ≡ count.0.0 = ground (arith, exact.0) in
      omega (
        arith,
        sized,
        read_bools-length (count.0.0) (count.0.1) bs (exact.1),
        ap (λ (t : List ℕ). length t) m.1.same_bytes,
      )

-- Every string takes four bytes for its length.
read_strings-Moves :
    (left : ℕ) (r : ByteReader) (x : List (List ℕ) × ByteReader)
    → IsBytes r.bytes
    → r.offset ≤ length r.bytes
    → read_strings left r ≡ ok x
    → (x.1.bytes ≡ r.bytes)
      × (r.offset + length (x.0) * 4 ≤ x.1.offset)
      × (x.1.offset ≤ length r.bytes)
unfolding read_strings
read_strings-Moves zero r x h b e =
    let same : ([], r) ≡ x = cc in
    subst
      (λ t.
        (t.1.bytes ≡ r.bytes)
        × (r.offset + length (t.0) * 4 ≤ t.1.offset)
        × (t.1.offset ≤ length r.bytes))
      same (refl, omega arith, b)
read_strings-Moves (suc left) r x h b e =
    let size = >>=-eq-ok (read_integer 4 r) _ e in
    let m = read_integer-Moves 4 r (size.0) h (size.1) in
    let h1 = still_bytes r (size.0.1) (m.1) h in
    let raw = >>=-eq-ok (Payload.read_bytes (size.0.0) (size.0.1)) _ (size.2) in
    let n = read_bytes-Moves (size.0.0) (size.0.1) (raw.0) h1 (raw.1) in
    let h2 = still_bytes (size.0.1) (raw.0.1) (n.2) h1 in
    let bytes2 : raw.0.1.bytes ≡ r.bytes = n.2.same_bytes ∙ m.1.same_bytes in
    let b1 : size.0.1.offset ≤ length (size.0.1.bytes) =
      omega (arith, m.1.inside b, ap (λ (t : List ℕ). length t) m.1.same_bytes) in
    let b2 : raw.0.1.offset ≤ length (raw.0.1.bytes) =
      omega (arith, n.2.inside b1, ap (λ (t : List ℕ). length t) n.2.same_bytes) in
    let rest = >>=-eq-ok (read_strings left (raw.0.1)) _ (raw.2) in
    let ih = read_strings-Moves left (raw.0.1) (rest.0) h2 b2 (rest.1) in
    let same : (raw.0.0 ∷ rest.0.0, rest.0.1) ≡ x = cc (rest.2) in
    subst
      (λ t.
        (t.1.bytes ≡ r.bytes)
        × (r.offset + length (t.0) * 4 ≤ t.1.offset)
        × (t.1.offset ≤ length r.bytes))
      same
      (
        ih.0 ∙ bytes2,
        omega (arith, ih.1, m.1.offset_after, n.2.offset_after),
        omega (arith, ih.2, ap (λ (t : List ℕ). length t) bytes2),
      )

pub read_string_list-length :
    (bytes : List ℕ) (vs : List (List ℕ))
    → IsBytes bytes
    → read_string_list bytes ≡ ok vs
    → length vs * 4 ≤ length bytes
unfolding read_string_list
read_string_list-length bytes vs h e =
    let r : ByteReader = record { bytes = bytes; offset = 0 } in
    let count = >>=-eq-ok (read_integer 4 r) _ e in
    let m = read_integer-Moves 4 r (count.0) h (count.1) in
    let h1 = still_bytes r (count.0.1) (m.1) h in
    let b1 : count.0.1.offset ≤ length (count.0.1.bytes) =
      omega (arith, m.1.inside (omega arith), ap (λ (t : List ℕ). length t) m.1.same_bytes) in
    let strings = >>=-eq-ok (read_strings (count.0.0) (count.0.1)) _ (count.2) in
    let n = read_strings-Moves (count.0.0) (count.0.1) (strings.0) h1 b1 (strings.1) in
    let last =
      >>-eq-ok
        (require (remaining (strings.0.1) == 0)
          (invalid_argument "payload string-list has trailing bytes"))
        _ (strings.2) in
    let same : strings.0.0 ≡ vs = cc (last.1) in
    omega (
      arith,
      n.1,
      n.2,
      ap (λ (t : List (List ℕ)). length t) same,
      ap (λ (t : List ℕ). length t) m.1.same_bytes,
    )
