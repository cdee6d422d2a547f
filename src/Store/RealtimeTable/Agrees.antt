-- ===== src/Store/RealtimeTable/Agrees.antt =====
-- `ScanVisibleRows` sees the rows that `Get` shows: its first loop, over all rows that were published,
-- ends with the map from keys to rows of the hash map.
use kv_index.Prelude.{
  ℕ, ◌==◌, ◌≡◌, refl, sym, ap, ◌∙◌, subst, Bool, true, false, Option, none, some, List, [], ◌∷◌,
  ◌++◌, if◌then◌else◌, arith, eq-cases, inl, inr, Bool-cases, Option-cases,
}
use kv_index.Prelude.Assoc.{
  find, emplace, assign, find-assign_self, find-assign_ne, find-emplace_new, find-emplace_ne,
}
use kv_index.Status.{Status, StatusOr, StatusOr-cases, normalize_status, ok, error}
use kv_index.Types.{newer, is_valid_source_position, classify_source_position_update}
use kv_index.Store.RealtimeMap.{RealtimeRowRef, RealtimeAtomicHashMap, publish_and_report}
use kv_index.Store.RealtimeMap.Invariant.{Inv}
use kv_index.Store.RealtimeMap.View.{view}
use kv_index.Store.RealtimeMap.Publish.Rule.{Accepted, Refused, supersedes, newest, is_newer_lem}
use kv_index.Store.RealtimeMap.Publish.{publish_and_report-Published}
use kv_index.Store.RealtimeTable.{RealtimeDeltaAtomicTable, publish_row, see_row, see_rows}

-- The row as the list has it, with its flag set.
abbrev pub seal : Option RealtimeRowRef → Option RealtimeRowRef
seal none = none
seal (some row) = some (record row { sealed_visible = true })

abbrev sealed_if : Bool → RealtimeRowRef → RealtimeRowRef
sealed_if b row = record row { sealed_visible = b }

-- The scan of the rows ends with what the hash map shows.
pub record Agrees (m : RealtimeAtomicHashMap) (rows : List RealtimeRowRef) : Type 0 where
  pub inv : Inv m
  pub latest : List (ℕ × RealtimeRowRef)
  pub seen : see_rows [] rows ≡ ok latest
  pub shows : (j : ℕ) → find j latest ≡ seal (view m j)

see_rows-append :
    (latest latest' latest'' : List (ℕ × RealtimeRowRef)) (rows : List RealtimeRowRef)
    (row : RealtimeRowRef)
    → see_rows latest rows ≡ ok latest'
    → see_row latest' row ≡ ok latest''
    → see_rows latest (rows ++ row ∷ []) ≡ ok latest''
unfolding see_rows
see_rows-append latest latest' latest'' [] row h e = ground arith
see_rows-append latest latest' latest'' (x ∷ rows) row h e =
    elim (StatusOr-cases (see_row latest x)) [
      | inl (between, c) ↦ ground (arith, see_rows-append between latest' latest'' rows row)
      | inr (s, c) ↦ absurd (ground arith)
    ]

module _ (m : RealtimeAtomicHashMap) (key : ℕ) (row : RealtimeRowRef)
    (latest : List (ℕ × RealtimeRowRef)) (own : row.primary_key ≡ key)
    (shows : (j : ℕ) → find j latest ≡ seal (view m j)) where
  -- What the scan shows after the row.
  abbrev ShowsNewest : List (ℕ × RealtimeRowRef) → Type 0
  ShowsNewest out =
      (j : ℕ) → find j out ≡ seal (if j == key then newest (view m key) row else view m j)

  abbrev Seen : Bool → Type 0
  Seen b =
      (out : List (ℕ × RealtimeRowRef)) × (see_row latest (sealed_if b row) ≡ ok out)
      × ShowsNewest out

  see_old : supersedes (view m key) row ≡ false → Seen false
  unfolding see_row newest
  see_old old = (
    latest,
    refl,
    λ j. elim (eq-cases j key) [
      | inl same ↦ ground (arith, shows j, ap (view m) same)
      | inr other ↦ ground (arith, shows j)
    ],
  )

  see_first : view m key ≡ none → Seen true
  unfolding see_row newest supersedes
  see_first missing =
      let gone : find key latest ≡ none = ground (arith, shows key) in
      (
        emplace key (sealed_if true row) latest,
        ground (arith, own, gone),
        λ j. elim (eq-cases j key) [
          | inl same ↦ ground (
            arith,
            ap (λ (t : ℕ). find t (emplace key (sealed_if true row) latest)) same,
            find-emplace_new key (sealed_if true row) latest gone,
          )
          | inr other ↦ ground (
            arith,
            shows j,
            find-emplace_ne key j (sealed_if true row) latest (λ e. other (sym e)),
          )
        ],
      )

  see_newer :
      (current : RealtimeRowRef)
      → view m key ≡ some current
      → classify_source_position_update current.position row.position ≡ ok newer
      → Seen true
  unfolding see_row newest supersedes
  see_newer current there c =
      let held : find key latest ≡ some (sealed_if true current) = ground (arith, shows key) in
      (
        assign key (sealed_if true row) latest,
        ground (arith, own, held),
        λ j. elim (eq-cases j key) [
          | inl same ↦ ground (
            arith,
            ap (λ (t : ℕ). find t (assign key (sealed_if true row) latest)) same,
            find-assign_self key (sealed_if true row) (sealed_if true current) latest held,
          )
          | inr other ↦ ground (
            arith,
            shows j,
            find-assign_ne key j (sealed_if true row) latest (λ e. other (sym e)),
          )
        ],
      )

  see_accepted : Seen (supersedes (view m key) row)
  unfolding supersedes
  see_accepted = elim (Bool-cases (supersedes (view m key) row)) [
    | inr old ↦ subst Seen (sym old) (see_old old)
    | inl yes_newer ↦ subst Seen (sym yes_newer) (elim (Option-cases (view m key)) [
      | inl missing ↦ see_first missing
      | inr (current, there) ↦ see_newer current there (is_newer_lem _ (ground arith))
    ])
  ]

-- The list and the hash map after the locked part of `Publish`, by what the hash map answered.
module _ (table : RealtimeDeltaAtomicTable) (row : RealtimeRowRef) where
  abbrev answer : StatusOr Bool × RealtimeAtomicHashMap
  answer = publish_and_report table.rows_by_key row.primary_key (some row)

  abbrev after : RealtimeDeltaAtomicTable
  after = (publish_row table row).1

  accepted_fields :
      (b : Bool)
      → answer.0 ≡ ok b
      → (after.rows_by_key ≡ answer.1) × (after.rows ≡ table.rows ++ sealed_if b row ∷ [])
  unfolding publish_row
  accepted_fields b h = (ground arith, ground arith)

  refused_fields :
      (s : Status)
      → answer.0 ≡ error s
      → (after.rows_by_key ≡ answer.1) × (after.rows ≡ table.rows ++ row ∷ [])
  unfolding publish_row
  refused_fields s h = (ground arith, ground arith)

  module _ (agrees : Agrees table.rows_by_key table.rows)
      (valid : is_valid_source_position row.position ≡ true)
      (fresh : row.sealed_visible ≡ false) where
    answered-Agrees :
        Inv answer.1
        → Accepted table.rows_by_key row.primary_key row answer
        → Agrees after.rows_by_key after.rows
    answered-Agrees inv accepted =
        let fields =
          accepted_fields (supersedes (view table.rows_by_key row.primary_key) row)
            accepted.result in
        let s =
          see_accepted table.rows_by_key row.primary_key row agrees.latest refl agrees.shows in
        let kept : Agrees answer.1 (
            table.rows
            ++ sealed_if (supersedes (view table.rows_by_key row.primary_key) row) row ∷ []) =
          record {
            inv = inv;
            latest = s.0;
            seen =
                see_rows-append [] agrees.latest (s.0) table.rows
                  (sealed_if (supersedes (view table.rows_by_key row.primary_key) row) row)
                  agrees.seen (s.1);
            shows = λ j. s.2 j ∙ ap seal (sym (accepted.views j));
          } in
        subst (λ m. Agrees m after.rows) (sym (fields.0))
          (subst (Agrees answer.1) (sym (fields.1)) kept)

    unsealed : see_row agrees.latest row ≡ ok agrees.latest
    unfolding see_row
    unsealed = ground arith

    failed-Agrees :
        Inv answer.1
        → Refused table.rows_by_key row.primary_key row answer
        → Agrees after.rows_by_key after.rows
    failed-Agrees inv refused =
        let same : answer.1 ≡ table.rows_by_key = ap (λ r. r.1) (refused.1) in
        let fields = refused_fields (normalize_status (refused.0)) (ap (λ r. r.0) (refused.1)) in
        let kept : Agrees table.rows_by_key (table.rows ++ row ∷ []) = record {
          inv = agrees.inv;
          latest = agrees.latest;
          seen = see_rows-append [] agrees.latest agrees.latest table.rows row agrees.seen unsealed;
          shows = agrees.shows;
        } in
        subst (λ m. Agrees m after.rows) (sym (fields.0 ∙ same))
          (subst (Agrees table.rows_by_key) (sym (fields.1)) kept)

    -- Where a scan of the rows of a table ends with what its hash map shows, it does so after the
    -- publication of another row at a valid position, be it accepted, superseded or refused: the scan
    -- reports no error, and has for every key the row that the hash map shows, and no other.
    pub publish_row-Agrees : Agrees after.rows_by_key after.rows
    publish_row-Agrees =
        let published =
          publish_and_report-Published table.rows_by_key row.primary_key row agrees.inv refl
            valid in
        elim published.outcome [
          | inl accepted ↦ answered-Agrees published.inv accepted
          | inr refused ↦ failed-Agrees published.inv refused
        ]
