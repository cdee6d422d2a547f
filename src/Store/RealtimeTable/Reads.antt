-- ===== src/Store/RealtimeTable/Reads.antt =====
-- `RealtimeDeltaAtomicTable`: `Get` and `ScanVisibleRows` show the same rows.
use kv_index.Prelude.{
  ℕ, ◌≡◌, refl, sym, ap, ◌∙◌, subst, Option, none, some, List, [], ◌∷◌, arith, inl, inr,
  Option-cases, true, eq-cases,
}
use kv_index.Prelude.Assoc.{find}
use kv_index.Status.{StatusOr-cases, ok}
use kv_index.Schema.Layout.{CompiledRowLayout}
use kv_index.Model.Row.{Row}
use kv_index.Store.RealtimeMap.{RealtimeRowRef}
use kv_index.Store.RealtimeMap as RealtimeMap
use kv_index.Store.RealtimeMap.View.{view, get-total}
use kv_index.Store.RealtimeTable.{
  RealtimeDeltaAtomicTable, RealtimeVisibleRow, create, build_row_ref, publish_row, publish, get,
  scan_visible_rows, capture_compaction_boundary,
}
use kv_index.Store.RealtimeTable.Agrees.{seal}
use kv_index.Store.RealtimeTable.Visible.{
  find_visible, reported, HasEncoded, AllEncoded, see_rows-AllEncoded,
}
use kv_index.Store.RealtimeTable.Consistent.{
  Consistent, scan_visible_rows-ScansView, Publication, after_publications,
  after_publications-Consistent, create-Consistent,
}

find-HasEncoded :
    (key : ℕ) (row : RealtimeRowRef) (latest : List (ℕ × RealtimeRowRef))
    → AllEncoded latest
    → find key latest ≡ some row
    → HasEncoded row
unfolding find
find-HasEncoded key row [] h e = cc
find-HasEncoded key row (x ∷ xs) h e = elim (eq-cases (x.0) key) [
  | inl same ↦ let it : x.1 ≡ row = ground arith in subst HasEncoded it (h.0)
  | inr other ↦ find-HasEncoded key row xs (h.1) (ground arith)
]

-- The row that a visible row is read as.
abbrev pub as_row : CompiledRowLayout → Option RealtimeVisibleRow → Option Row
as_row layout none = none
as_row layout (some row) = some (record { layout = layout; encoded = row.encoded })

module _ (table : RealtimeDeltaAtomicTable) (c : Consistent table) (layout : CompiledRowLayout)
    (here : table.layout ≡ some layout) (key : ℕ) where
  view-HasEncoded : (row : RealtimeRowRef) → view table.rows_by_key key ≡ some row → HasEncoded row
  view-HasEncoded row e =
      find-HasEncoded key (record row { sealed_visible = true }) c.agrees.latest
        (see_rows-AllEncoded table.rows [] c.agrees.latest c.encoded tt c.agrees.seen)
        (c.agrees.shows key ∙ ap seal e)

  pub get-eq-reported :
      get table key ≡ ok (as_row layout (reported key (view table.rows_by_key key)))
  unfolding get
  get-eq-reported = elim (Option-cases (view table.rows_by_key key)) [
    | inl missing ↦ ground (arith, here, missing, get-total table.rows_by_key key c.agrees.inv)
    | inr (row, e) ↦
        let encoded = view-HasEncoded row e in
        ground (arith, here, e, encoded.1, get-total table.rows_by_key key c.agrees.inv)
  ]

publish-layout :
    (table : RealtimeDeltaAtomicTable) (p : Publication)
    → (publish table p.primary_key p.position p.encoded).1.layout ≡ table.layout
unfolding publish publish_row
publish-layout table p =
    elim (StatusOr-cases (build_row_ref table p.primary_key p.position p.encoded)) [
      | inr (s, e) ↦ ground arith
      | inl (row, e) ↦
          elim (StatusOr-cases
            (RealtimeMap.publish_and_report table.rows_by_key row.primary_key (some row)).0) [
              | inl (b, f) ↦ ground arith
              | inr (s, f) ↦ ground arith
            ]
    ]

after_publications-layout :
    (calls : List Publication) (table : RealtimeDeltaAtomicTable)
    → (after_publications table calls).layout ≡ table.layout
unfolding after_publications
after_publications-layout [] table = refl
after_publications-layout (p ∷ ps) table =
    after_publications-layout ps (publish table p.primary_key p.position p.encoded).1
    ∙ publish-layout table p

-- The scan of all rows of a table returns, key by key, what `Get` returns.
abbrev pub ScansWhatGetShows : CompiledRowLayout → RealtimeDeltaAtomicTable → Type 0
ScansWhatGetShows layout table =
    (rows : List RealtimeVisibleRow) × (scan_visible_rows table (capture_compaction_boundary table)
      ≡ ok rows)
    × ((key : ℕ) → get table key ≡ ok (as_row layout (find_visible key rows)))

-- After any calls of `Publish` on a new table with a layout, accepted, superseded or refused,
-- `ScanVisibleRows` of all rows returns without an error, and `Get` of every key returns, without an
-- error too, the row that the scan has for the key, or none where the scan has none.
pub after_publications-ScansWhatGetShows :
    (layout : CompiledRowLayout) (capacity seed version : ℕ) (calls : List Publication)
    → ScansWhatGetShows layout
        (after_publications (create (some layout) capacity seed version) calls)
unfolding create
after_publications-ScansWhatGetShows layout capacity seed version calls =
    let start = create (some layout) capacity seed version in
    let table = after_publications start calls in
    let c : Consistent table =
      after_publications-Consistent calls start
        (create-Consistent (some layout) capacity seed version) in
    let scan = scan_visible_rows-ScansView table c in
    (
      scan.0,
      scan.1,
      λ key.
          get-eq-reported table c layout (after_publications-layout calls start) key
          ∙ ap (λ (o : Option RealtimeVisibleRow). ok (as_row layout o)) (sym (scan.2 key)),
    )
