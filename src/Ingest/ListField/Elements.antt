-- ===== src/Ingest/ListField/Elements.antt =====
-- A list of strings through the element dictionary (src/ingest/update_applier.cc and
-- src/model/row_storage.cc): the identifiers that are written lead back to the strings.
use kv_index.Prelude.{
  ℕ, suc, ◌+◌, ◌*◌, ◌%◌, ◌^◌, ◌<◌, ltb, u32, ◌≡◌, refl, ap, subst, ◌∙◌, inl, inr, arith, List, [],
  ◌∷◌, ◌++◌, length, get_or, get_elem?, some, Bool-cases, length-append, length-replicate,
  replicate, sym, true, false,
}
use kv_index.Prelude.Bytes.{
  KeepsEntries, KeepsEntries-append, get_elem?-append_last, get_or-append_left,
}
use kv_index.Status.{
  ok, >>=-eq-ok, ok_status, is_ok, Status, error, normalize_status_lem, StatusOr-cases,
}
use kv_index.Base.ByteIo.{read_little_endian, ValueRef16}
use kv_index.Model.Read.Items.{read_elements, read_list, read_element_list, read_present_list}
use kv_index.Model.Write.{
  uint32_max, write_patterns, write_value_ref_field, write_element_dictionary_string_list_field,
}
use kv_index.Ingest.ListField.{push_elements}
use kv_index.Schema.{string, element_dictionary}
use kv_index.Schema.Layout.{FieldLayout}
use kv_index.Model.EncodedRow.{EncodedRow}
use kv_index.Model.Value.{string_items}
use kv_index.Model.Read.{validate_ref_bounds}
use kv_index.Model.Write.Slot.{IsField}
use kv_index.Model.Write.Refs.{write_value_ref_field-HoldsRef}
use kv_index.Model.Write.Effect.{Frames, Wrote-Frames}
use kv_index.Model.Write.Patterns.{WritesAll, write_patterns-WritesAll}
use kv_index.Model.Write.Scalars.{type_eq-eq}
use kv_index.Model.Write.Strings.{encoding_eq-eq}
use kv_index.Model.Write.ListRefs.{ShowsItems}
use kv_index.Model.Frame.{Grows}

-- The identifiers, of 32 bits, are those of the strings in the dictionary.
abbrev pub Finds : List ℕ → List (List ℕ) → List (List ℕ) → Type 0
Finds [] [] entries = Unit
Finds [] (v ∷ vs) entries = ⊥
Finds (id ∷ ids) [] entries = ⊥
Finds (id ∷ ids) (v ∷ vs) entries =
    (id < 2 ^ 32) × (get_elem? entries id ≡ some v) × Finds ids vs entries

-- The entries and their identifiers, as a pair.
abbrev IsPushed : List (List ℕ) → List (List ℕ) → List ℕ × List (List ℕ) → Type 0
IsPushed values entries (ids, after) =
    (length ids ≡ length values) × KeepsEntries entries after × Finds ids values after

ok_inj : {A : Type 0} (x y : A) → ok x ≡ ok y → x ≡ y
ok_inj x y h = cc

push_elements-IsPushed :
    (values entries : List (List ℕ)) (r : List ℕ × List (List ℕ))
    → push_elements values entries ≡ ok r
    → IsPushed values entries r
unfolding push_elements
push_elements-IsPushed [] entries r h =
    subst (IsPushed [] entries) (ok_inj ([], entries) r h) (refl, λ i v e. e, tt)
push_elements-IsPushed (v ∷ vs) entries r h = elim (Bool-cases (ltb uint32_max (length entries))) [
  | inl full ↦ ground (arith, full)
  | inr room ↦
      let pushed = entries ++ v ∷ [] in
      let parts =
        >>=-eq-ok (push_elements vs pushed) (λ q. ok (u32 (length entries) ∷ q.0, q.1)) {value = r}
          (rw room at h) in
      let rest = push_elements-IsPushed vs pushed (parts.0) (parts.1) in
      let exact : u32 (length entries) ≡ length entries = ground (arith, room) in
      subst (IsPushed (v ∷ vs) entries)
        (ok_inj (u32 (length entries) ∷ parts.0.0, parts.0.1) r (parts.2))
        (
          omega (arith, rest.0),
          λ i w e. rest.1 i w (KeepsEntries-append entries (v ∷ []) i w e),
          (
            omega arith,
            ap (get_elem? (parts.0.1)) exact
                ∙ rest.1 (length entries) v (get_elem?-append_last entries v),
            rest.2,
          ),
        )
]

-- The loop of the read finds the strings.
elements_found :
    (ids : List ℕ) (values entries : List (List ℕ)) (out : List ℕ) (offset start i : ℕ)
    → start ≡ offset + i * 4
    → Finds ids values entries
    → ((k : ℕ)
        → k < length ids
        → read_little_endian 4 out (start + k * 4) ≡ ok (get_or ids k 0 % 2 ^ 32))
    → read_elements entries out offset (length values) i ≡ ok values
unfolding read_elements
elements_found [] [] entries out offset start i at f reads = refl
elements_found [] (v ∷ vs) entries out offset start i at f reads = absurd f
elements_found (id ∷ ids) [] entries out offset start i at f reads = absurd f
elements_found (id ∷ ids) (v ∷ vs) entries out offset start i at f reads =
    let here : read_little_endian 4 out (offset + i * 4) ≡ ok id =
      ap (read_little_endian 4 out) (omega arith)
      ∙ reads 0 (omega arith)
      ∙ ap ok (omega (arith, f.0)) in
    let rest =
      elements_found ids vs entries out offset (start + 4) (i + 1) (omega arith) (f.2)
        (λ k h. ap (read_little_endian 4 out) (omega arith) ∙ reads (suc k) (omega arith)) in
    rw (here, f.1, rest) refl

module _ (f : FieldLayout) (values : List (List ℕ)) (e : EncodedRow) (field : IsField f)
    (small : length e.arena < 2 ^ 64) (sized : length values * 4 < 2 ^ 32) (ids : List ℕ)
    (after : List (List ℕ))
    (pushed : push_elements values e.string_element_dictionary ≡ ok (ids, after)) where
  found : IsPushed values e.string_element_dictionary (ids, after)
  found = push_elements-IsPushed values e.string_element_dictionary (ids, after) pushed

  abbrev start : ℕ
  start = length e.arena

  abbrev blank : List ℕ
  blank = e.arena ++ replicate (length ids * 4) 0

  abbrev out : List ℕ
  out = (write_patterns 4 ids 0 start blank).1

  abbrev ref : ValueRef16
  ref = record {
    offset = start;
    byte_length = u32 (length ids * 4);
    element_count_or_flags = u32 (length ids);
  }

  abbrev grown : EncodedRow
  grown = record e { arena = out; string_element_dictionary = after }

  abbrev entered : EncodedRow
  entered = record e { string_element_dictionary = after }

  length-blank : length blank ≡ start + length ids * 4
  length-blank =
      length-append e.arena (replicate (length ids * 4) 0)
      ∙ ap (λ (t : ℕ). start + t) (length-replicate (length ids * 4) 0)

  written : ((write_patterns 4 ids 0 start blank).0 ≡ ok_status) × WritesAll 4 ids start blank out
  written =
      write_patterns-WritesAll 4 ids 0 start start blank (omega arith) (omega (arith, length-blank))

  grown-Grows : Grows e grown
  grown-Grows = record {
    arena_grows = record {
      longer = omega (arith, length-blank, written.1.length_kept);
      same = λ j h.
          written.1.outside j (inl h)
          ∙ get_or-append_left e.arena (replicate (length ids * 4) 0) j 0 h;
    };
    strings = λ i v h. h;
    scalar_lists = λ i v h. h;
    string_lists = λ i v h. h;
    elements = found.1;
  }

  pub elements-Shows :
      is_ok (write_element_dictionary_string_list_field f ids entered).0 ≡ true
      → Frames f e (write_element_dictionary_string_list_field f ids entered).1
        × ShowsItems f
            (string_items values)
            (write_element_dictionary_string_list_field f ids entered).1
  unfolding write_element_dictionary_string_list_field read_present_list read_list read_element_list
      validate_ref_bounds
  elements-Shows done =
      let typed : f.type ≡ string = type_eq-eq f.type string (ground arith) in
      let encoded : f.encoding ≡ element_dictionary =
        encoding_eq-eq f.encoding element_dictionary (ground arith) in
      let as_ref : write_element_dictionary_string_list_field f ids entered
          ≡ write_value_ref_field f ref grown =
        ground (arith, written.0) in
      let holds =
        write_value_ref_field-HoldsRef f ref grown field
          (record { offset_fits = small; length_fits = omega arith; count_fits = omega arith })
          (subst (λ t. is_ok (t.0) ≡ true) as_ref done) in
      let count : u32 (length ids) ≡ length values = omega (arith, found.0) in
      let bytes : u32 (length ids * 4) ≡ length ids * 4 = omega (arith, found.0) in
      let reads =
        elements_found ids values after out start start 0 (omega arith) (found.2) written.1.reads in
      subst (λ t. Frames f e (t.1) × ShowsItems f (string_items values) (t.1)) (sym as_ref)
        (
          Wrote-Frames f e grown (write_value_ref_field f ref grown).1 holds.slot grown-Grows refl
              holds.wrote,
          (
            holds.wrote.present,
            ground (
              arith,
              typed,
              encoded,
              holds.reads,
              count,
              bytes,
              found.0,
              ap (λ (r : EncodedRow). r.arena) holds.wrote.slot_only,
              ap (λ (r : EncodedRow). r.string_element_dictionary) holds.wrote.slot_only,
              length-blank,
              written.1.length_kept,
              reads,
            ),
          ),
        )

-- A failure to push is no success.
pub push_elements-error :
    (values entries : List (List ℕ)) (s : Status)
    → push_elements values entries ≡ error s
    → is_ok s ≡ false
unfolding push_elements
push_elements-error [] entries s h = cc
push_elements-error (v ∷ vs) entries s h =
    elim (StatusOr-cases (push_elements vs (entries ++ v ∷ []))) [
      | inl (r, good) ↦ ground (arith, good)
      | inr (t, bad) ↦ ground (arith, bad, normalize_status_lem t)
    ]
