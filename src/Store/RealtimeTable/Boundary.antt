-- ===== src/Store/RealtimeTable/Boundary.antt =====
-- The compaction boundary of `RealtimeDeltaAtomicTable`: later publications do not change what a scan
-- up to it sees.
use kv_index.Prelude.{
  ℕ, min, ◌≡◌, refl, sym, ap, ◌∙◌, List, [], ◌∷◌, ◌++◌, arith, inl, inr, length, take,
  length-append,
}
use kv_index.Status.{StatusOr-cases}
use kv_index.Store.RealtimeMap.{RealtimeRowRef}
use kv_index.Store.RealtimeTable.{
  RealtimeDeltaAtomicTable, build_row_ref, publish, scan_visible_rows, capture_compaction_boundary,
}
use kv_index.Store.RealtimeTable.Consistent.{publish_row-rows, Publication, after_publications}

-- The rows of one table, and some more.
abbrev Extends : RealtimeDeltaAtomicTable → RealtimeDeltaAtomicTable → Type 0
Extends table later = (more : List RealtimeRowRef) × (later.rows ≡ table.rows ++ more)

append_assoc : (xs ys zs : List RealtimeRowRef) → (xs ++ ys) ++ zs ≡ xs ++ (ys ++ zs)
append_assoc [] ys zs = refl
append_assoc (x ∷ xs) ys zs = ap (◌∷◌ x) (append_assoc xs ys zs)

append-nil : (xs : List RealtimeRowRef) → xs ≡ xs ++ []
append-nil [] = refl
append-nil (x ∷ xs) = ap (◌∷◌ x) (append-nil xs)

take-append : (xs ys : List RealtimeRowRef) → take (length xs) (xs ++ ys) ≡ xs
take-append [] ys = refl
take-append (x ∷ xs) ys = ap (◌∷◌ x) (take-append xs ys)

publish-Extends :
    (table : RealtimeDeltaAtomicTable) (p : Publication)
    → Extends table (publish table p.primary_key p.position p.encoded).1
unfolding publish
publish-Extends table p =
    elim (StatusOr-cases (build_row_ref table p.primary_key p.position p.encoded)) [
      | inr (s, e) ↦ ([], ground (arith, append-nil table.rows))
      | inl (row, e) ↦
          let r = publish_row-rows table row in
          elim (r.1) [
            | inl accepted ↦ (record row { sealed_visible = r.0 } ∷ [], ground (arith, accepted))
            | inr refused ↦ (row ∷ [], ground (arith, refused))
          ]
    ]

after_publications-Extends :
    (calls : List Publication) (table : RealtimeDeltaAtomicTable)
    → Extends table (after_publications table calls)
unfolding after_publications
after_publications-Extends [] table = ([], append-nil table.rows)
after_publications-Extends (p ∷ ps) table =
    let first = publish-Extends table p in
    let rest = after_publications-Extends ps (publish table p.primary_key p.position p.encoded).1 in
    (
      first.0 ++ rest.0,
      rest.1 ∙ ap (λ xs. xs ++ rest.0) (first.1) ∙ append_assoc table.rows (first.0) (rest.0),
    )

-- A scan up to a boundary that was captured from a table returns after any later calls of `Publish`
-- what it returned at the capture.
pub scan_visible_rows-later :
    (table : RealtimeDeltaAtomicTable) (calls : List Publication)
    → scan_visible_rows (after_publications table calls) (capture_compaction_boundary table)
      ≡ scan_visible_rows table (capture_compaction_boundary table)
unfolding scan_visible_rows capture_compaction_boundary
scan_visible_rows-later table calls =
    let (more, e) = after_publications-Extends calls table in
    let later = after_publications table calls in
    let count : min (length table.rows) (length later.rows) ≡ length table.rows =
      omega (arith, ap length e, length-append table.rows more) in
    let same : take (min (length table.rows) (length later.rows)) later.rows
        ≡ take (min (length table.rows) (length table.rows)) table.rows =
      ap (λ (n : ℕ). take n later.rows) count
      ∙ ap (take (length table.rows)) e
      ∙ take-append table.rows more
      ∙ sym (take-append table.rows [])
      ∙ ap (take (length table.rows)) (sym (append-nil table.rows))
      ∙ ap (λ (n : ℕ). take n table.rows) (omega arith) in
    rw same refl
