-- ===== src/Ingest/Applier/Updates.antt =====
-- `Apply` and `ApplyBatch` (src/ingest/update_applier.cc): what the realtime tables of the routes show
-- behind them.
use kv_index.Prelude.{
  Option, ◌≢◌, get_elem?, ℕ, ◌≡◌, refl, sym, ap, subst, ◌∙◌, true, none, some, List, [], ◌∷◌,
  get_or, All, All-map, arith, inl, inr, Bool-cases,
}
use kv_index.Status.{Status, is_ok, ok}
use kv_index.Types.{SourcePosition}
use kv_index.Types.Kafka.{KafkaUpsertMessage}
use kv_index.Model.EncodedRow.{EncodedRow}
use kv_index.Ingest.Payload.{DecodedPayload, decode_payload}
use kv_index.Ingest.Encode.{encode_for_layout}
use kv_index.Ingest.Applier.{
  UpdateTargetRoute, UpdateApplierOptions, Tables, PreparedPublish, shard_for, source_position,
  publish_all, apply, apply_batch,
}
use kv_index.Store.RealtimeMap.View.{view}
use kv_index.Store.RealtimeTable.{RealtimeDeltaAtomicTable}
use kv_index.Store.RealtimeTable.Newest.{Reaches}
use kv_index.Ingest.Applier.Stored.{AllConsistent, ShowsFrom, KeepsRows, Effect}
use kv_index.Ingest.Applier.PublishAll.{publish_all-Effect, publish_all-ShowsFrom}
use kv_index.Ingest.Applier.Prepared.{ArePrepared, ArePrepared-Owns, apply-PreparesFirst}

-- The payload has a row under the route's layout, and the table of the key's shard shows for the key a
-- row from the message's position: that row, or one of a later position of the partition.
abbrev pub ShowsOnRoute : Tables → KafkaUpsertMessage → DecodedPayload → UpdateTargetRoute → Type 0
ShowsOnRoute tables message payload route =
    ((encoded : EncodedRow) × (encode_for_layout payload route.layout ≡ ok encoded))
    × ShowsFrom tables (get_or route.realtime_shards (shard_for message.primary_key route) none)
        message.primary_key (source_position message)

abbrev pub ShowsMessage : UpdateApplierOptions → Tables → KafkaUpsertMessage → Type 0
ShowsMessage options tables message =
    (payload : DecodedPayload) × (decode_payload message.payload ≡ ok payload)
    × All (ShowsOnRoute tables message payload) options.targets

keeps-ShowsMessage :
    (options : UpdateApplierOptions) (before after : Tables) (message : KafkaUpsertMessage)
    → KeepsRows before after
    → ShowsMessage options before message
    → ShowsMessage options after message
keeps-ShowsMessage options before after message keeps (payload, decodes, shown) = (
  payload,
  decodes,
  All-map options.targets
      (λ route h. (h.0, keeps _ message.primary_key (source_position message) (h.1))) shown,
)

on_routes :
    (message : KafkaUpsertMessage) (payload : DecodedPayload) (routes : List UpdateTargetRoute)
    (ps : List PreparedPublish) (tables : Tables)
    → ArePrepared message payload routes ps
    → All (λ p. ShowsFrom tables p.table p.primary_key p.position) ps
    → All (ShowsOnRoute tables message payload) routes
on_routes message payload [] ps tables each shown = tt
on_routes message payload (route ∷ routes) [] tables each shown = absurd each
on_routes message payload (route ∷ routes) (p ∷ ps) tables each shown = (
  (
    (p.encoded, each.0.encodes),
    (
      shown.0.0,
      sym (each.0.to_shard) ∙ shown.0.1,
      (
        shown.0.2.0,
        shown.0.2.1,
        subst (λ (q : SourcePosition). Reaches q (view shown.0.2.0.rows_by_key message.primary_key))
            (each.0.at_position)
            (subst (λ (k : ℕ). Reaches p.position (view shown.0.2.0.rows_by_key k)) (each.0.own_key)
              (shown.0.2.2)),
      ),
    ),
  ),
  on_routes message payload routes ps tables (each.1) (shown.1),
)

-- The effect of `Apply`, whatever its outcome: tables are consistent; a key of a
-- table that has a row from a position still has one from it; and the keys other than the message's
-- show the rows that they showed.
pub apply-Effect :
    (options : UpdateApplierOptions) (message : KafkaUpsertMessage) (tables : Tables)
    → AllConsistent tables
    → Effect message.primary_key tables (apply options message tables).1
apply-Effect options message tables c = elim (apply-PreparesFirst options message tables) [
  | inl rejected ↦ subst (Effect message.primary_key tables) (sym (rejected.1)) (record {
    consistent = c;
    keeps = λ pointer key position h. h;
    others = λ key ne id table h. (table, h, refl);
  })
  | inr a ↦
      subst (λ (t : Status × Tables). Effect message.primary_key tables (t.1)) (sym a.publishes)
        (publish_all-Effect message.primary_key a.prepared tables
          (ArePrepared-Owns message a.payload options.targets a.prepared a.each) c)
]

-- With success, every route's table shows the message.
apply-ShowsMessage :
    (options : UpdateApplierOptions) (message : KafkaUpsertMessage) (tables : Tables)
    → AllConsistent tables
    → is_ok (apply options message tables).0 ≡ true
    → ShowsMessage options (apply options message tables).1 message
apply-ShowsMessage options message tables c succeeds =
    elim (apply-PreparesFirst options message tables) [
      | inl rejected ↦ absurd (cc (rejected.0, succeeds))
      | inr a ↦
          let own = ArePrepared-Owns message a.payload options.targets a.prepared a.each in
          let shown =
            publish_all-ShowsFrom message.primary_key a.prepared tables own c
              (sym (ap (λ (t : Status × Tables). is_ok (t.0)) a.publishes) ∙ succeeds) in
          subst (λ (t : Status × Tables). ShowsMessage options (t.1) message) (sym a.publishes)
            (
              a.payload,
              a.decodes,
              on_routes message a.payload options.targets a.prepared
                  (publish_all a.prepared tables).1 a.each shown,
            )
    ]

pub apply_batch-Stored :
    (options : UpdateApplierOptions) (messages : List KafkaUpsertMessage) (tables : Tables)
    → AllConsistent tables
    → AllConsistent (apply_batch options messages tables).1
      × KeepsRows tables (apply_batch options messages tables).1
unfolding apply_batch
apply_batch-Stored options [] tables c = (c, λ pointer key position h. h)
apply_batch-Stored options (message ∷ messages) tables c =
    let next = (apply options message tables).1 in
    let first = apply-Effect options message tables c in
    let rest = apply_batch-Stored options messages next first.consistent in
    elim (Bool-cases (is_ok (apply options message tables).0)) [
      | inr fails ↦
          let same : apply options message tables
              ≡ apply_batch options (message ∷ messages) tables =
            ground (arith, fails) in
          subst (λ (t : Status × Tables). AllConsistent (t.1) × KeepsRows tables (t.1)) same
            (first.consistent, first.keeps)
      | inl succeeds ↦
          let same : apply_batch options messages next
              ≡ apply_batch options (message ∷ messages) tables =
            ground (arith, succeeds) in
          subst (λ (t : Status × Tables). AllConsistent (t.1) × KeepsRows tables (t.1)) same
            (
              rest.0,
              λ pointer key position h.
                  rest.1 pointer key position (first.keeps pointer key position h),
            )
    ]

-- The tables behind `ApplyBatch`, whatever its outcome, on a store of consistent tables: where a key of
-- a table showed a row from a position, it still shows one of that position or of a later one of its
-- partition.
pub apply_batch-keeps :
    (options : UpdateApplierOptions) (messages : List KafkaUpsertMessage) (tables : Tables)
    (pointer : Option ℕ) (key : ℕ) (position : SourcePosition)
    → AllConsistent tables
    → ShowsFrom tables pointer key position
    → ShowsFrom (apply_batch options messages tables).1 pointer key position
apply_batch-keeps options messages tables pointer key position c h =
    (apply_batch-Stored options messages tables c).1 pointer key position h

-- If `ApplyBatch` succeeds on a store of consistent tables, they are consistent behind it, the payload
-- of every message decodes and has a row under the layout of every target route, and the table of the
-- key's shard shows for the key a row of the message's position or of a later one of its partition.
pub apply_batch-ShowsMessages :
    (options : UpdateApplierOptions) (messages : List KafkaUpsertMessage) (tables : Tables)
    → AllConsistent tables
    → is_ok (apply_batch options messages tables).0 ≡ true
    → AllConsistent (apply_batch options messages tables).1
      × All (ShowsMessage options (apply_batch options messages tables).1) messages
unfolding apply_batch
apply_batch-ShowsMessages options [] tables c s = (c, tt)
apply_batch-ShowsMessages options (message ∷ messages) tables c s =
    elim (Bool-cases (is_ok (apply options message tables).0)) [
      | inr fails ↦ absurd (ground (arith, fails, s))
      | inl succeeds ↦
          let next = (apply options message tables).1 in
          let first = apply-Effect options message tables c in
          let same : apply_batch options messages next
              ≡ apply_batch options (message ∷ messages) tables =
            ground (arith, succeeds) in
          let kept = apply_batch-Stored options messages next first.consistent in
          let rest =
            apply_batch-ShowsMessages options messages next first.consistent
              (ap (λ (t : Status × Tables). is_ok (t.0)) same ∙ s) in
          subst
            (λ (t : Status × Tables).
              AllConsistent (t.1) × All (ShowsMessage options (t.1)) (message ∷ messages))
            same
            (
              kept.0,
              (
                keeps-ShowsMessage options next (apply_batch options messages next).1 message
                    (kept.1) (apply-ShowsMessage options message tables c succeeds),
                rest.1,
              ),
            )
    ]

-- `Apply` on a store of consistent tables, whatever its outcome, changes no key but the message's: every
-- table is still there and shows for another key the row that it showed.
pub apply-other_keys :
    (options : UpdateApplierOptions) (message : KafkaUpsertMessage) (tables : Tables) (key id : ℕ)
    (table : RealtimeDeltaAtomicTable)
    → AllConsistent tables
    → key ≢ message.primary_key
    → get_elem? tables id ≡ some table
    → (after : RealtimeDeltaAtomicTable) × (get_elem? (apply options message tables).1 id
        ≡ some after)
      × (view after.rows_by_key key ≡ view table.rows_by_key key)
apply-other_keys options message tables key id table c ne here =
    (apply-Effect options message tables c).others key ne id table here
