-- ===== src/Ingest/Applier/Stored.antt =====
-- The part of `Apply` that publishes (src/ingest/update_applier.cc), over the store of the realtime
-- tables: tables stay consistent, and keys show rows from the positions that were published.
use kv_index.Prelude.{
  ℕ, ◌≡◌, ◌≢◌, refl, sym, ap, subst, ◌∙◌, true, Option, some, get_elem?, set, All, arith, inl, inr,
  Option-cases, eq-cases,
}
use kv_index.Prelude.Store.{get_elem?-set_self, get_elem?-set_ne, All-get_elem?, All-set}
use kv_index.Status.{Status, is_ok}
use kv_index.Types.{SourcePosition}
use kv_index.Store.RealtimeMap.View.{view}
use kv_index.Store.RealtimeTable.{RealtimeDeltaAtomicTable}
use kv_index.Store.RealtimeTable as RealtimeTable
use kv_index.Store.RealtimeTable.Consistent.{Consistent, publish-Consistent}
use kv_index.Store.RealtimeTable.Newest.{Reaches, publish-Reaches, publish-keeps, publish-other}
use kv_index.Ingest.Applier.{Tables, PreparedPublish, publish_to}

abbrev pub AllConsistent : Tables → Type 0
AllConsistent tables = All Consistent tables

-- The table of a pointer shows for a key a row that is from a position.
abbrev pub ShowsFrom : Tables → Option ℕ → ℕ → SourcePosition → Type 0
ShowsFrom tables pointer key position =
    (id : ℕ) × (pointer ≡ some id)
    × ((table : RealtimeDeltaAtomicTable) × (get_elem? tables id ≡ some table)
        × Reaches position (view table.rows_by_key key))

-- A table of the store is still there, and shows the rows that it showed for a key.
abbrev pub KeepsKey : ℕ → Tables → Tables → Type 0
KeepsKey key before after =
    (id : ℕ) (table : RealtimeDeltaAtomicTable)
    → get_elem? before id ≡ some table
    → (table' : RealtimeDeltaAtomicTable) × (get_elem? after id ≡ some table')
      × (view table'.rows_by_key key ≡ view table.rows_by_key key)

abbrev pub KeepsRows : Tables → Tables → Type 0
KeepsRows before after =
    (pointer : Option ℕ) (key : ℕ) (position : SourcePosition)
    → ShowsFrom before pointer key position
    → ShowsFrom after pointer key position

-- What a call does to the store: it stays consistent and keeps what was reached, and a key that is not
-- the call's shows what it showed.
pub record Effect (primary_key : ℕ) (before after : Tables) : Type 0 where
  pub consistent : AllConsistent after
  pub keeps : KeepsRows before after
  pub others : (key : ℕ) → key ≢ primary_key → KeepsKey key before after

module _ (publish : PreparedPublish) (tables : Tables) (c : AllConsistent tables) where
  abbrev key : ℕ
  key = publish.primary_key

  unchanged : Effect key tables tables
  unchanged = record {
    consistent = c;
    keeps = λ pointer key position h. h;
    others = λ key ne id table h. (table, h, refl);
  }

  module _ (id : ℕ) (table : RealtimeDeltaAtomicTable)
      (here : get_elem? tables id ≡ some table) where
    abbrev called : Status × RealtimeDeltaAtomicTable
    called = RealtimeTable.publish table key publish.position publish.encoded

    abbrev after : Tables
    after = set tables id (called.1)

    own : Consistent table
    own = All-get_elem? Consistent tables id table c here

    at_id : get_elem? after id ≡ some (called.1)
    at_id = get_elem?-set_self tables id (called.1) table here

    published : Effect key tables after
    published = record {
      consistent =
          All-set Consistent tables id (called.1) c
            (publish-Consistent table key publish.position publish.encoded own);
      keeps = λ pointer j position (other, this, (held, there, from)). elim (eq-cases id other) [
        | inl same ↦
            let e : table ≡ held = cc (here, there, ap (λ (t : ℕ). get_elem? tables t) same) in
            (
              other,
              this,
              (
                called.1,
                subst (λ (t : ℕ). get_elem? after t ≡ some (called.1)) same at_id,
                publish-keeps table key publish.position publish.encoded j position own
                    (subst (λ t. Reaches position (view t.rows_by_key j)) (sym e) from),
              ),
            )
        | inr ne ↦
            (other, this, (held, get_elem?-set_ne tables id other (called.1) ne ∙ there, from))
      ];
      others = λ j ne other held there. elim (eq-cases id other) [
        | inl same ↦
            let e : table ≡ held = cc (here, there, ap (λ (t : ℕ). get_elem? tables t) same) in
            (
              called.1,
              subst (λ (t : ℕ). get_elem? after t ≡ some (called.1)) same at_id,
              publish-other table key publish.position publish.encoded j own ne
                  ∙ ap (λ (t : RealtimeDeltaAtomicTable). view t.rows_by_key j) e,
            )
        | inr apart ↦ (held, get_elem?-set_ne tables id other (called.1) apart ∙ there, refl)
      ];
    }

  pub publish_to-Effect : Effect key tables (publish_to publish publish.table tables).1
  unfolding publish_to
  publish_to-Effect = elim (Option-cases publish.table) [
    | inl null ↦ subst (Effect key tables) (ground (arith, null)) unchanged
    | inr (id, e) ↦ elim (Option-cases (get_elem? tables id)) [
      | inl gone ↦ subst (Effect key tables) (ground (arith, e, gone)) unchanged
      | inr (table, here) ↦
          subst (Effect key tables) (ground (arith, e, here)) (published id table here)
    ]
  ]

  pub publish_to-ShowsFrom :
      is_ok (publish_to publish publish.table tables).0 ≡ true
      → ShowsFrom (publish_to publish publish.table tables).1 publish.table key publish.position
  unfolding publish_to
  publish_to-ShowsFrom succeeds = elim (Option-cases publish.table) [
    | inl null ↦ absurd (ground (arith, null))
    | inr (id, e) ↦ elim (Option-cases (get_elem? tables id)) [
      | inl gone ↦ absurd (ground (arith, e, gone))
      | inr (table, here) ↦
          let same : publish_to publish publish.table tables
              ≡ ((called id table here).0, after id table here) =
            ground (arith, e, here) in
          (
            id,
            e,
            (
              (called id table here).1,
              ap (λ (t : Status × Tables). get_elem? (t.1) id) same ∙ at_id id table here,
              publish-Reaches table key publish.position publish.encoded (own id table here)
                  (sym (ap (λ (t : Status × Tables). is_ok (t.0)) same) ∙ succeeds),
            ),
          )
    ]
  ]
