-- ===== src/Ingest/Applier.antt =====
-- src/ingest/update_applier.{h,cc}: `UpdateApplier`, which decodes an update, encodes its row for every
-- target route, and publishes the rows when all of them are ready. Routes hold pointers to realtime
-- tables, which they may share: a pointer is the number of a table in a store of tables, and null is
-- `none`.
pub mod Stored
pub mod PublishAll
pub mod Prepared
pub mod Updates
use kv_index.Prelude.{
  ℕ, ◌-◌, bit_and, ltb_ℤ, pos, ◌==◌, not, ◌||◌, if◌then◌else◌, Option, none, some, List, [], ◌∷◌,
  length, get_elem?, get_or, set,
}
use kv_index.Status.{
  ◌>>◌, Status, StatusOr, ok, error, ok_status, is_ok, ◌>>=◌, check, invalid_argument,
  failed_precondition, internal,
}
use kv_index.Types.{SourcePosition}
use kv_index.Types.Kafka.{KafkaUpsertMessage}
use kv_index.Base.Bits.{is_power_of_two}
use kv_index.Base.Hash.{stable_hash64}
use kv_index.Schema.Layout.{CompiledRowLayout}
use kv_index.Schema.{is_empty, is_some}
use kv_index.Model.EncodedRow.{EncodedRow}
use kv_index.Store.RealtimeTable.{RealtimeDeltaAtomicTable}
use kv_index.Store.RealtimeTable as RealtimeTable
use kv_index.Ingest.Checkpoint.{text_eq}
use kv_index.Ingest.Coordinator.{Applier}
use kv_index.Ingest.Payload.{DecodedPayload, decode_payload}
use kv_index.Ingest.Encode.{encode_for_layout}

pub data UpdateGenerationRole : Type 0 where
  active rebuild rebase compaction : UpdateGenerationRole

pub record UpdateTargetRoute : Type 0 where
  pub role : UpdateGenerationRole
  pub generation_id : ℕ
  pub shard_count : ℕ
  pub hash_seed : ℕ
  pub hash_version : ℕ
  pub layout : Option CompiledRowLayout
  pub realtime_shards : List (Option ℕ)

pub record UpdateApplierOptions : Type 0 where
  pub logical_topic : List ℕ
  pub targets : List UpdateTargetRoute

-- The store of the realtime tables.
abbrev pub Tables : Type 0
Tables = List RealtimeDeltaAtomicTable

unfoldable pub check_shards : List (Option ℕ) → Status
check_shards [] = ok_status
check_shards (none ∷ shards) =
    failed_precondition "update target route contains a null realtime shard"
check_shards (some table ∷ shards) = check_shards shards

unfoldable pub check_route : UpdateTargetRoute → Status
unfolding is_power_of_two check_shards
check_route route =
    if not (is_some route.layout)
    then failed_precondition "update target route has no layout"
    else if route.shard_count == 0 || not (is_power_of_two route.shard_count)
    then invalid_argument "update target shard_count must be a non-zero power of two"
    else if not (length route.realtime_shards == route.shard_count)
    then invalid_argument "update target realtime shard count does not match shard_count"
    else check_shards route.realtime_shards

unfoldable pub check_routes : List UpdateTargetRoute → Status
unfolding check_route
check_routes [] = ok_status
check_routes (route ∷ routes) = check (check_route route) (check_routes routes)

-- `ValidateOptions`.
unfoldable pub validate_options : UpdateApplierOptions → Status
unfolding check_routes
validate_options options =
    if is_empty options.logical_topic
    then invalid_argument "update applier logical topic is empty"
    else if is_empty options.targets
    then failed_precondition "update applier has no target routes"
    else check_routes options.targets

unfoldable pub validate_message_metadata : KafkaUpsertMessage → List ℕ → Status
validate_message_metadata message logical_topic =
    let metadata = message.metadata in
    if is_empty metadata.partition.topic
    then invalid_argument "kafka message topic is empty"
    else if not (text_eq metadata.partition.topic logical_topic)
    then failed_precondition "kafka message topic does not match coordinator logical topic"
    else if ltb_ℤ metadata.partition.partition (pos 0)
    then invalid_argument "kafka message partition is invalid"
    else if ltb_ℤ metadata.offset (pos 0)
    then invalid_argument "kafka message offset is invalid"
    else ok_status

unfoldable pub shard_for : ℕ → UpdateTargetRoute → ℕ
shard_for primary_key route =
    bit_and (stable_hash64 primary_key route.hash_seed route.hash_version) (route.shard_count - 1)

pub record PreparedPublish : Type 0 where
  pub table : Option ℕ
  pub primary_key : ℕ
  pub position : SourcePosition
  pub encoded : EncodedRow

abbrev pub source_position : KafkaUpsertMessage → SourcePosition
source_position message = record {
  partition = message.metadata.partition.partition;
  offset = message.metadata.offset;
}

-- One round of the loop over the targets that prepares.
unfoldable pub prepare :
    KafkaUpsertMessage → DecodedPayload → UpdateTargetRoute → StatusOr PreparedPublish
unfolding shard_for
prepare message decoded route = do
  encoded ← encode_for_layout decoded route.layout
  ok (record {
    table = get_or route.realtime_shards (shard_for message.primary_key route) none;
    primary_key = message.primary_key;
    position = source_position message;
    encoded = encoded;
  })

unfoldable pub prepare_all :
    KafkaUpsertMessage → DecodedPayload → List UpdateTargetRoute → StatusOr (List PreparedPublish)
unfolding prepare
prepare_all message decoded [] = ok []
prepare_all message decoded (route ∷ routes) = do
  publish ← prepare message decoded route
  rest ← prepare_all message decoded routes
  ok (publish ∷ rest)

-- `publish.table->Publish(...)`. A call through a pointer that is null or dangling, which a valid
-- applier never makes, is an internal error here.
unfoldable pub publish_to : PreparedPublish → Option ℕ → Tables → Status × Tables
publish_to publish none tables = (internal "null realtime table", tables)
publish_to publish (some id) tables = elim (get_elem? tables id) [
  | none ↦ (internal "dangling realtime table", tables)
  | some table ↦
      let published =
        RealtimeTable.publish table publish.primary_key publish.position publish.encoded in
      (published.0, set tables id (published.1))
]

-- The loop that publishes.
unfoldable pub publish_all : List PreparedPublish → Tables → Status × Tables
unfolding publish_to
publish_all [] tables = (ok_status, tables)
publish_all (publish ∷ rest) tables =
    let published = publish_to publish publish.table tables in
    let more = publish_all rest (published.1) in if is_ok (published.0) then more else published

-- The part of `Apply` before anything is published.
unfoldable pub prepare_message :
    UpdateApplierOptions → KafkaUpsertMessage → StatusOr (List PreparedPublish)
unfolding validate_options validate_message_metadata prepare_all
prepare_message options message =
    check (validate_options options) (validate_message_metadata message options.logical_topic)
    >> (decode_payload message.payload >>= λ decoded. prepare_all message decoded options.targets)

unfoldable pub apply : UpdateApplierOptions → KafkaUpsertMessage → Tables → Status × Tables
unfolding prepare_message publish_all
apply options message tables = elim (prepare_message options message) [
  | error s ↦ (s, tables)
  | ok prepared ↦ publish_all prepared tables
]

-- `ApplyBatch`.
unfoldable pub apply_batch :
    UpdateApplierOptions → List KafkaUpsertMessage → Tables → Status × Tables
unfolding apply
apply_batch options [] tables = (ok_status, tables)
apply_batch options (message ∷ messages) tables =
    let applied = apply options message tables in
    let rest = apply_batch options messages (applied.1) in
    if is_ok (applied.0) then rest else applied

-- The applier that a coordinator calls: its options are fixed, its state is the store.
unfoldable pub applier_of : UpdateApplierOptions → Applier Tables
unfolding apply_batch
applier_of options = record { apply_batch = apply_batch options }
