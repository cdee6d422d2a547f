-- ===== src/Store/RealtimeTable/Consistent.antt =====
-- A table after any publications: what `ScanVisibleRows` returns, and what `Get` shows.
use kv_index.Prelude.{
  ℕ, min, ◌≡◌, refl, sym, ap, ◌∙◌, subst, Bool, true, false, Option, none, some, List, [], ◌∷◌,
  ◌++◌, arith, inl, inr, Option-cases, All, length, take, ◌⊎◌,
}
use kv_index.Prelude.Assoc.{find}
use kv_index.Status.{StatusOr-cases, ok}
use kv_index.Types.{SourcePosition, is_valid_source_position}
use kv_index.Schema.Layout.{CompiledRowLayout}
use kv_index.Model.EncodedRow.{EncodedRow}
use kv_index.Model.Row.{materialize_row}
use kv_index.Store.RealtimeMap.{RealtimeRowRef, RealtimeAtomicHashMap}
use kv_index.Store.RealtimeMap as RealtimeMap
use kv_index.Store.RealtimeMap.Invariant.{init-Inv}
use kv_index.Store.RealtimeMap.View.{view, init-view}
use kv_index.Store.RealtimeTable.{
  RealtimeDeltaAtomicTable, RealtimeVisibleRow, create, build_row_ref, publish_row, publish,
  see_rows, sort_by_key, scan_visible_rows, capture_compaction_boundary,
}
use kv_index.Store.RealtimeTable.Agrees.{seal, Agrees, publish_row-Agrees}
use kv_index.Store.RealtimeTable.Visible.{
  find_visible, find_visible-sort, reported, HasEncoded, collect_visible-find, see_rows-AllEncoded,
}

pub record Consistent (table : RealtimeDeltaAtomicTable) : Type 0 where
  pub agrees : Agrees table.rows_by_key table.rows
  pub encoded : All HasEncoded table.rows

take-all : (rows : List RealtimeRowRef) → take (min (length rows) (length rows)) rows ≡ rows
take-all rows = ap (λ (n : ℕ). take n rows) (omega arith) ∙ take-length rows
  where
    take-length : (xs : List RealtimeRowRef) → take (length xs) xs ≡ xs
    take-length [] = refl
    take-length (x ∷ xs) = ap (◌∷◌ x) (take-length xs)

reported-seal : (key : ℕ) (o : Option RealtimeRowRef) → reported key (seal o) ≡ reported key o
reported-seal key none = refl
reported-seal key (some row) = refl

-- The scan of all rows of a table returns, key by key, what the hash map shows.
abbrev pub ScansView : RealtimeDeltaAtomicTable → Type 0
ScansView table =
    (rows : List RealtimeVisibleRow) × (scan_visible_rows table (capture_compaction_boundary table)
      ≡ ok rows)
    × ((key : ℕ) → find_visible key rows ≡ reported key (view table.rows_by_key key))

pub scan_visible_rows-ScansView :
    (table : RealtimeDeltaAtomicTable) → Consistent table → ScansView table
unfolding scan_visible_rows capture_compaction_boundary
scan_visible_rows-ScansView table c =
    let latest = c.agrees.latest in
    let collected =
      collect_visible-find latest
        (see_rows-AllEncoded table.rows [] latest c.encoded tt c.agrees.seen) in
    (
      sort_by_key (collected.0),
      ground (arith, ap (see_rows []) (take-all table.rows), c.agrees.seen, collected.1),
      λ key.
          find_visible-sort key (collected.0)
          ∙ collected.2 key
          ∙ ap (reported key) (c.agrees.shows key)
          ∙ reported-seal key (view table.rows_by_key key),
    )

-- What `BuildRowRef` makes.
pub record IsBuilt (row : RealtimeRowRef) : Type 0 where
  pub valid : is_valid_source_position row.position ≡ true
  pub fresh : row.sealed_visible ≡ false
  pub encoded : HasEncoded row

pub build_row_ref-IsBuilt :
    (table : RealtimeDeltaAtomicTable) (key : ℕ) (position : SourcePosition) (encoded : EncodedRow)
    (row : RealtimeRowRef)
    → build_row_ref table key position encoded ≡ ok row
    → IsBuilt row
unfolding build_row_ref
build_row_ref-IsBuilt table key position encoded row h = elim (Option-cases table.layout) [
  | inl no_layout ↦ absurd (ground arith)
  | inr (layout, e) ↦ elim (StatusOr-cases (materialize_row layout encoded)) [
    | inr (s, m) ↦ absurd (ground arith)
    | inl (r, m) ↦ record {
      valid = ground arith;
      fresh = ground arith;
      encoded = (encoded, ground arith);
    }
  ]
]

All-append :
    (rows : List RealtimeRowRef) (row : RealtimeRowRef)
    → All HasEncoded rows
    → HasEncoded row
    → All HasEncoded (rows ++ row ∷ [])
All-append [] row h e = (e, tt)
All-append (x ∷ rows) row h e = (h.0, All-append rows row (h.1) e)

-- `Publish` adds a row with the encoded row of the one that it was given.
pub publish_row-rows :
    (table : RealtimeDeltaAtomicTable) (row : RealtimeRowRef)
    → (b : Bool) × (((publish_row table row).1.rows
          ≡ table.rows ++ record row { sealed_visible = b } ∷ [])
        ⊎ ((publish_row table row).1.rows ≡ table.rows ++ row ∷ []))
unfolding publish_row
publish_row-rows table row =
    elim (StatusOr-cases
      (RealtimeMap.publish_and_report table.rows_by_key row.primary_key (some row)).0) [
        | inl (b, e) ↦ (b, inl (ground arith))
        | inr (s, e) ↦ (false, inr (ground arith))
      ]

pub publish-Consistent :
    (table : RealtimeDeltaAtomicTable) (key : ℕ) (position : SourcePosition) (encoded : EncodedRow)
    → Consistent table
    → Consistent (publish table key position encoded).1
unfolding publish
publish-Consistent table key position encoded c =
    elim (StatusOr-cases (build_row_ref table key position encoded)) [
      | inr (s, e) ↦ subst Consistent (ground arith) c
      | inl (row, e) ↦
          let built = build_row_ref-IsBuilt table key position encoded row e in
          let added = publish_row-rows table row in
          let kept : Consistent (publish_row table row).1 = record {
            agrees = publish_row-Agrees table row c.agrees built.valid built.fresh;
            encoded = elim (added.1) [
              | inl accepted ↦ subst (All HasEncoded) (sym accepted) (
                  All-append table.rows (record row { sealed_visible = added.0 }) c.encoded
                    built.encoded)
              | inr refused ↦
                  subst (All HasEncoded) (sym refused)
                    (All-append table.rows row c.encoded built.encoded)
            ];
          } in
          subst Consistent (ground arith) kept
    ]

pub record Publication : Type 0 where
  pub primary_key : ℕ
  pub position : SourcePosition
  pub encoded : EncodedRow

-- The table after calls of `Publish`.
unfoldable pub after_publications :
    RealtimeDeltaAtomicTable → List Publication → RealtimeDeltaAtomicTable
after_publications table [] = table
after_publications table (p ∷ ps) =
    after_publications (publish table p.primary_key p.position p.encoded).1 ps

pub create-Consistent :
    (layout : Option CompiledRowLayout) (capacity seed version : ℕ)
    → Consistent (create layout capacity seed version)
unfolding create see_rows view RealtimeMap.get RealtimeMap.init find
create-Consistent layout capacity seed version = record {
  agrees = record {
    inv = init-Inv capacity seed version;
    latest = [];
    seen = refl;
    shows = λ j. ap seal (sym (init-view capacity seed version j));
  };
  encoded = tt;
}

pub after_publications-Consistent :
    (calls : List Publication) (table : RealtimeDeltaAtomicTable)
    → Consistent table
    → Consistent (after_publications table calls)
unfolding after_publications
after_publications-Consistent [] table c = c
after_publications-Consistent (p ∷ ps) table c =
    after_publications-Consistent ps (publish table p.primary_key p.position p.encoded).1
      (publish-Consistent table p.primary_key p.position p.encoded c)
