-- ===== src/Ingest/ListField/StringRefs.antt =====
-- `WriteArenaStringListField` (src/ingest/update_applier.cc): the references that its loop writes are
-- decoded to the strings.
use kv_index.Prelude.{
  ℕ, suc, ◌+◌, ◌*◌, ◌^◌, ◌<◌, ◌≤◌, ltb, u32, true, false, ◌≡◌, refl, sym, ap, subst, ◌∙◌, ◌⊎◌, inl,
  inr, arith, List, [], ◌∷◌, ◌++◌, length, take, drop, get_or, length-append,
}
use kv_index.Prelude.Bytes.{get_or-append_left, take-drop-eq, take-drop-append}
use kv_index.Status.{ok, ok_status, is_ok}
use kv_index.Base.ByteIo.{ValueRef16, write_value_ref16, decode_value_ref16}
use kv_index.Base.ByteIo.Ref.{
  FitsRef, write_value_ref16-outside, decode-write_value_ref16, length-write_value_ref16,
}
use kv_index.Model.Read.{validate_ref_bounds, decode_string_refs}
use kv_index.Model.Frame.{decode_value_ref16-range}
use kv_index.Model.Write.{uint32_max}
use kv_index.Ingest.ListField.{write_string_refs}

-- The strings go behind the bytes, and their references into a part of them.
pub record WritesRefs (values : List (List ℕ)) (start : ℕ) (bytes out : List ℕ) : Type 0 where
  pub longer : length bytes ≤ length out
  pub outside :
      (j : ℕ)
      → j < length bytes
      → (j < start) ⊎ (start + length values * 16 ≤ j)
      → get_or out j 0 ≡ get_or bytes j 0

-- The loop never shortens the bytes.
pub write_string_refs-longer :
    (values : List (List ℕ)) (i refs_offset : ℕ) (bytes : List ℕ)
    → length bytes ≤ length (write_string_refs values i refs_offset bytes).1
unfolding write_string_refs
write_string_refs-longer [] i refs_offset bytes = omega arith
write_string_refs-longer (v ∷ vs) i refs_offset bytes =
    let ref : ValueRef16 = record {
      offset = length bytes;
      byte_length = u32 (length v);
      element_count_or_flags = 0;
    } in
    let out : List ℕ = (write_value_ref16 ref (bytes ++ v) (refs_offset + i * 16)).1 in
    ground (
      arith,
      length-write_value_ref16 ref (bytes ++ v) (refs_offset + i * 16),
      length-append bytes v,
      write_string_refs-longer vs (i + 1) refs_offset out,
    )

-- One round of the loop.
module _ (value : List ℕ) (bytes : List ℕ) (start room : ℕ)
    (fits : start + 16 + room ≤ length bytes) (small : length bytes < 2 ^ 64)
    (sized : length value < 2 ^ 32) where
  abbrev ref : ValueRef16
  ref = record {
    offset = length bytes;
    byte_length = u32 (length value);
    element_count_or_flags = 0;
  }

  ref-FitsRef : FitsRef ref
  ref-FitsRef = record { offset_fits = small; length_fits = omega arith; count_fits = omega arith }

  abbrev out1 : List ℕ
  out1 = (write_value_ref16 ref (bytes ++ value) start).1

  in_grown : start + 16 ≤ length (bytes ++ value)
  in_grown = omega (arith, length-append bytes value)

  pub round : write_value_ref16 ref (bytes ++ value) start ≡ (ok_status, out1)
  round =
      ground (arith, (decode-write_value_ref16 ref (bytes ++ value) start in_grown ref-FitsRef).0)

  pub length-out1 : length out1 ≡ length bytes + length value
  length-out1 =
      (write_value_ref16-outside ref (bytes ++ value) start in_grown ref-FitsRef).0
      ∙ length-append bytes value

  pub kept_before :
      (j : ℕ)
      → j < length bytes
      → (j < start) ⊎ (start + 16 ≤ j)
      → get_or out1 j 0 ≡ get_or bytes j 0
  kept_before j b h =
      (write_value_ref16-outside ref (bytes ++ value) start in_grown ref-FitsRef).1 j h
      ∙ get_or-append_left bytes value j 0 b

  -- Where later rounds leave the reference and the string alone, they are read back.
  pub string_back :
      (out : List ℕ)
      → length out1 ≤ length out
      → ((j : ℕ)
          → j < length out1
          → (j < start + 16) ⊎ (start + 16 + room ≤ j)
          → get_or out j 0 ≡ get_or out1 j 0)
      → (decode_value_ref16 out start ≡ ok ref)
        × (is_ok (validate_ref_bounds ref (length out)) ≡ true)
        × (take ref.byte_length (drop ref.offset out) ≡ value)
  unfolding validate_ref_bounds
  string_back out longer later = (
    decode_value_ref16-range out1 out longer start (omega (arith, length-out1))
          (λ j p q. later j (omega (arith, length-out1)) (inl q))
        ∙ (decode-write_value_ref16 ref (bytes ++ value) start in_grown ref-FitsRef).1,
    ground (arith, length-out1, longer),
    ap (λ (n : ℕ). take n (drop (length bytes) out)) exact
        ∙ take-drop-eq (length bytes) (length value) (bytes ++ value) out
            (omega (arith, length-append bytes value)) (omega (arith, length-out1, longer))
            (λ j p q.
              later j (omega (arith, length-out1)) (inr (omega arith))
              ∙ (write_value_ref16-outside ref (bytes ++ value) start in_grown ref-FitsRef).1 j
                  (inr (omega arith)))
        ∙ take-drop-append bytes value,
  )
    where
      exact : u32 (length value) ≡ length value
      exact = omega arith

pub write_string_refs-WritesRefs :
    (values : List (List ℕ)) (i refs_offset start : ℕ) (bytes : List ℕ)
    → start ≡ refs_offset + i * 16
    → start + length values * 16 ≤ length bytes
    → (i + length values) * 16 ≤ 2 ^ 32
    → length (write_string_refs values i refs_offset bytes).1 < 2 ^ 64
    → is_ok (write_string_refs values i refs_offset bytes).0 ≡ true
    → WritesRefs values start bytes (write_string_refs values i refs_offset bytes).1
      × (decode_string_refs
            (write_string_refs values i refs_offset bytes).1
            refs_offset
            (length values)
            i
          ≡ ok values)
unfolding write_string_refs decode_string_refs
write_string_refs-WritesRefs [] i refs_offset start bytes at fits few big done =
    (record { longer = omega arith; outside = λ j b h. refl }, refl)
write_string_refs-WritesRefs (v ∷ vs) i refs_offset start bytes at fits few big done =
    let small : length bytes < 2 ^ 64 =
      omega (arith, write_string_refs-longer (v ∷ vs) i refs_offset bytes) in
    let unsized : ltb uint32_max (length v) ≡ false = ground arith in
    let sized : length v < 2 ^ 32 = ground (arith, unsized) in
    let room : ℕ = length vs * 16 in
    let fits1 : start + 16 + room ≤ length bytes = omega arith in
    let out : List ℕ = out1 v bytes start room fits1 small sized in
    let first : ValueRef16 = ref v bytes start room fits1 small sized in
    let step : write_string_refs (v ∷ vs) i refs_offset bytes
        ≡ write_string_refs vs (i + 1) refs_offset out =
      rw (unsized, sym at, round v bytes start room fits1 small sized) in
    let rest =
      write_string_refs-WritesRefs vs (i + 1) refs_offset (start + 16) out (omega arith)
        (omega (arith, length-out1 v bytes start room fits1 small sized)) (omega arith)
        (subst (λ t. length (t.1) < 2 ^ 64) step big) (subst (λ t. is_ok (t.0) ≡ true) step done) in
    let final : List ℕ = (write_string_refs vs (i + 1) refs_offset out).1 in
    let back =
      string_back v bytes start room fits1 small sized final rest.0.longer
        (λ j b h. rest.0.outside j b (omega arith)) in
    let written : WritesRefs (v ∷ vs) start bytes final = record {
      longer = omega (arith, rest.0.longer, length-out1 v bytes start room fits1 small sized);
      outside = λ j b h.
          rest.0.outside j (omega (arith, length-out1 v bytes start room fits1 small sized))
            (omega arith)
          ∙ kept_before v bytes start room fits1 small sized j b (omega arith);
    } in
    let here : refs_offset + u32 (i * 16) ≡ start = omega arith in
    let decoded : decode_string_refs final refs_offset (suc (length vs)) i ≡ ok (v ∷ vs) =
      rw (here, back.0, back.1, back.2, rest.1) in
    subst
      (λ t.
        WritesRefs (v ∷ vs) start bytes (t.1)
        × (decode_string_refs (t.1) refs_offset (suc (length vs)) i ≡ ok (v ∷ vs)))
      (sym step) (written, decoded)
