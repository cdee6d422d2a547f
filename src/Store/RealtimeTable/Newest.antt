-- ===== src/Store/RealtimeTable/Newest.antt =====
-- `Publish` and the row that `Get` of the hash map shows for a key: it never goes back behind a
-- position that it has reached.
use kv_index.Prelude.{
  ℕ, ltb_ℤ, ◌==◌, ◌≡◌, ◌≢◌, refl, sym, subst, ap, ◌∙◌, true, false, Option, none, some,
  if◌then◌else◌, arith, inl, inr, ◌⊎◌, Option-cases, Bool-cases, eq-cases,
}
use kv_index.Status.{normalize_status_lem, Status, fail, StatusOr-cases, ok, is_ok, error}
use kv_index.Types.{
  newer, SourcePosition, SourcePositionUpdateDecision, is_valid_source_position,
  classify_source_position_update,
}
use kv_index.Model.Row.{materialize_row}
use kv_index.Model.EncodedRow.{EncodedRow}
use kv_index.Store.RealtimeMap.{RealtimeRowRef, publish_and_report}
use kv_index.Store.RealtimeMap.View.{view}
use kv_index.Store.RealtimeMap.Publish.Rule.{supersedes, newest, is_newer, is_newer_lem}
use kv_index.Store.RealtimeMap.Publish.{publish_and_report-Published}
use kv_index.Store.RealtimeTable.{RealtimeDeltaAtomicTable, build_row_ref, publish_row, publish}
use kv_index.Store.RealtimeTable.Consistent.{Consistent, build_row_ref-IsBuilt}

-- The row is at the position, or at a later one of its partition.
abbrev pub IsFrom : SourcePosition → RealtimeRowRef → Type 0
IsFrom position row =
    (row.position.partition ≡ position.partition)
    × (ltb_ℤ row.position.offset position.offset ≡ false)

abbrev pub Reaches : SourcePosition → Option RealtimeRowRef → Type 0
Reaches position shown = (row : RealtimeRowRef) × (shown ≡ some row) × IsFrom position row

-- What the comparison says when it succeeds.
classify-newer_iff_later :
    (a b : SourcePosition) (d : SourcePositionUpdateDecision)
    → classify_source_position_update a b ≡ ok d
    → (a.partition ≡ b.partition) × (is_newer (ok d) ≡ ltb_ℤ a.offset b.offset)
unfolding classify_source_position_update
classify-newer_iff_later a b d h = (ground arith, ground arith)

newest-own :
    (current : Option RealtimeRowRef) (row : RealtimeRowRef)
    → ((now : RealtimeRowRef)
        → current ≡ some now
        → (d : SourcePositionUpdateDecision) × (classify_source_position_update now.position
              row.position
            ≡ ok d))
    → Reaches row.position (newest current row)
unfolding newest supersedes
newest-own none row h = (row, refl, (refl, ground arith))
newest-own (some now) row h =
    let (d, c) = h now refl in
    let r = classify-newer_iff_later now.position row.position d c in
    elim (Bool-cases (supersedes (some now) row)) [
      | inl later ↦ (row, ground arith, (refl, ground arith))
      | inr old ↦ (now, ground arith, (r.0, ground (arith, r.1, c)))
    ]

newest-keeps :
    (position : SourcePosition) (current : Option RealtimeRowRef) (row : RealtimeRowRef)
    → Reaches position current
    → Reaches position (newest current row)
unfolding newest supersedes
newest-keeps position current row (now, here, (same, reached)) =
    elim (Bool-cases (supersedes (some now) row)) [
      | inl later ↦
          let c = is_newer_lem (classify_source_position_update now.position row.position) later in
          let r = classify-newer_iff_later now.position row.position newer c in
          (row, ground (arith, here), (sym (r.0) ∙ same, ground (arith, r.1, reached)))
      | inr old ↦ (now, ground (arith, here), (same, reached))
    ]

build_row_ref-fields :
    (table : RealtimeDeltaAtomicTable) (key : ℕ) (position : SourcePosition) (encoded : EncodedRow)
    (row : RealtimeRowRef)
    → build_row_ref table key position encoded ≡ ok row
    → (row.primary_key ≡ key) × (row.position ≡ position)
unfolding build_row_ref
build_row_ref-fields table key position encoded row h = elim (Option-cases table.layout) [
  | inl no_layout ↦ absurd (ground arith)
  | inr (layout, e) ↦ elim (StatusOr-cases (materialize_row layout encoded)) [
    | inr (s, m) ↦ absurd (ground arith)
    | inl (r, m) ↦ (ground arith, ground arith)
  ]
]

build_row_ref-error :
    (table : RealtimeDeltaAtomicTable) (key : ℕ) (position : SourcePosition) (encoded : EncodedRow)
    (s : Status)
    → build_row_ref table key position encoded ≡ error s
    → is_ok s ≡ false
unfolding build_row_ref
build_row_ref-error table key position encoded s h = elim (Option-cases table.layout) [
  | inl no_layout ↦ ground arith
  | inr (layout, e) ↦ elim (StatusOr-cases (materialize_row layout encoded)) [
    | inr (t, m) ↦ ground (arith, normalize_status_lem t)
    | inl (r, m) ↦ ground arith
  ]
]

-- What `Publish` does to the hash map: with success, the row's key shows the newest of its rows.
abbrev Publishes :
    RealtimeDeltaAtomicTable → ℕ → SourcePosition → Status × RealtimeDeltaAtomicTable → Type 0
Publishes table key position r =
    (is_ok (r.0) ≡ true)
      × ((row : RealtimeRowRef) × (row.position ≡ position)
          × Reaches position (newest (view table.rows_by_key key) row)
          × ((j : ℕ)
              → view r.1.rows_by_key j ≡ (
                  if j == key
                  then newest (view table.rows_by_key key) row
                  else view table.rows_by_key j)))
    ⊎ (is_ok (r.0) ≡ false) × (r.1.rows_by_key ≡ table.rows_by_key)

publish_row-Publishes :
    (table : RealtimeDeltaAtomicTable) (row : RealtimeRowRef)
    → Consistent table
    → is_valid_source_position row.position ≡ true
    → Publishes table row.primary_key row.position (publish_row table row)
unfolding publish_row
publish_row-Publishes table row c valid =
    let answer = publish_and_report table.rows_by_key row.primary_key (some row) in
    let p =
      publish_and_report-Published table.rows_by_key row.primary_key row c.agrees.inv refl valid in
    elim (p.outcome) [
      | inl accepted ↦
          let e = accepted.result in
          let t : (publish_row table row).1.rows_by_key ≡ answer.1 = ground (arith, e) in
          inl (
            ground (arith, e),
            (
              row,
              refl,
              newest-own (view table.rows_by_key row.primary_key) row accepted.comparable,
              λ j. ap (λ m. view m j) t ∙ accepted.views j,
            ),
          )
      | inr (s, e, why) ↦
          let e0 : answer.0 ≡ fail s = ap (λ r. r.0) e in
          let e1 : answer.1 ≡ table.rows_by_key = ap (λ r. r.1) e in
          inr (ground (arith, e0, normalize_status_lem s), ground (arith, e0, e1))
    ]

publish-Publishes :
    (table : RealtimeDeltaAtomicTable) (key : ℕ) (position : SourcePosition) (encoded : EncodedRow)
    → Consistent table
    → Publishes table key position (publish table key position encoded)
unfolding publish
publish-Publishes table key position encoded c =
    elim (StatusOr-cases (build_row_ref table key position encoded)) [
      | inr (s, e) ↦
          let t : publish table key position encoded ≡ (s, table) = ground (arith, e) in
          subst (Publishes table key position) (sym t)
            (inr (build_row_ref-error table key position encoded s e, refl))
      | inl (row, e) ↦
          let f = build_row_ref-fields table key position encoded row e in
          let b = build_row_ref-IsBuilt table key position encoded row e in
          let t : publish table key position encoded ≡ publish_row table row = ground (arith, e) in
          subst (Publishes table key position) (sym t) (
            subst (λ (k : ℕ). Publishes table k position (publish_row table row)) (f.0)
              (subst
                (λ (q : SourcePosition). Publishes table row.primary_key q (publish_row table row))
                (f.1) (publish_row-Publishes table row c b.valid)))
    ]

-- A publication that succeeds leaves the key with a row that is from its position.
pub publish-Reaches :
    (table : RealtimeDeltaAtomicTable) (key : ℕ) (position : SourcePosition) (encoded : EncodedRow)
    → Consistent table
    → is_ok (publish table key position encoded).0 ≡ true
    → Reaches position (view (publish table key position encoded).1.rows_by_key key)
publish-Reaches table key position encoded c succeeds =
    elim (publish-Publishes table key position encoded c) [
      | inr (failed, same) ↦ absurd (cc (failed, succeeds))
      | inl (succeeded, (row, at, newest_of, views)) ↦
          subst (Reaches position) (sym (views key ∙ ground arith)) newest_of
    ]

-- Whatever a key's row is from, it is still from it after another publication.
pub publish-keeps :
    (table : RealtimeDeltaAtomicTable) (key : ℕ) (position : SourcePosition) (encoded : EncodedRow)
    (j : ℕ) (reached : SourcePosition)
    → Consistent table
    → Reaches reached (view table.rows_by_key j)
    → Reaches reached (view (publish table key position encoded).1.rows_by_key j)
publish-keeps table key position encoded j reached c h =
    elim (publish-Publishes table key position encoded c) [
      | inr (failed, same) ↦ subst (λ m. Reaches reached (view m j)) (sym same) h
      | inl (succeeded, (row, at, newest_of, views)) ↦ elim (eq-cases j key) [
        | inl this ↦ subst (Reaches reached) (sym (views j ∙ ground arith)) (
            newest-keeps reached (view table.rows_by_key key) row
              (subst (λ (t : ℕ). Reaches reached (view table.rows_by_key t)) this h))
        | inr other ↦ subst (Reaches reached) (sym (views j ∙ ground arith)) h
      ]
    ]

-- The other keys show the rows that they showed.
pub publish-other :
    (table : RealtimeDeltaAtomicTable) (key : ℕ) (position : SourcePosition) (encoded : EncodedRow)
    (j : ℕ)
    → Consistent table
    → j ≢ key
    → view (publish table key position encoded).1.rows_by_key j ≡ view table.rows_by_key j
publish-other table key position encoded j c other =
    elim (publish-Publishes table key position encoded c) [
      | inr (failed, same) ↦ ap (λ m. view m j) same
      | inl (succeeded, (row, at, newest_of, views)) ↦ views j ∙ ground arith
    ]
