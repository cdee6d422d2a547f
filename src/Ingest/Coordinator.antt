-- ===== src/Ingest/Coordinator.antt =====
-- src/ingest/update_coordinator.cc: `UpdateCoordinator`, which polls a batch, applies it and commits
-- it. The consumer and the applier are what it calls: their operations, on a state of their own.

pub mod Order
pub mod Delivers
use kv_index.Prelude.{ℕ, pos, ltb_ℤ, ◌==◌, not, if◌then◌else◌, Option, none, some, List, [], ◌∷◌}
use kv_index.Status.{
  Status, StatusOr, ok, error, ok_status, is_ok, check, invalid_argument, failed_precondition,
}
use kv_index.Types.Kafka.{KafkaUpsertMessage, KafkaCheckpoint, PollOptions}
use kv_index.Ingest.Checkpoint.{text_eq, build_commit_checkpoint}

-- What the coordinator calls of `KafkaUpdateConsumer`.
pub record Consumer (C : Type 0) : Type 0 where
  pub poll : PollOptions → C → StatusOr (List KafkaUpsertMessage) × C
  pub commit : KafkaCheckpoint → C → Status × C

-- What it calls of `UpdateApplier`.
pub record Applier (A : Type 0) : Type 0 where
  pub apply_batch : List KafkaUpsertMessage → A → Status × A

pub record UpdateCoordinatorOptions : Type 0 where
  pub logical_topic : List ℕ
  pub poll_options : PollOptions

-- A null pointer is `none`.
pub record UpdateCoordinator (C A : Type 0) : Type 0 where
  pub consumer : Option C
  pub applier : Option A
  pub options : UpdateCoordinatorOptions

unfoldable pub validate_options : UpdateCoordinatorOptions → Status
validate_options options =
    if text_eq options.logical_topic []
    then invalid_argument "update coordinator logical topic is empty"
    else if ltb_ℤ options.poll_options.timeout_ms (pos 0)
    then invalid_argument "poll timeout must not be negative"
    else if options.poll_options.max_messages == 0
    then invalid_argument "poll max_messages must be positive"
    else ok_status

unfoldable pub validate_message : List ℕ → KafkaUpsertMessage → Status
validate_message logical_topic message =
    let metadata = message.metadata in
    if text_eq metadata.partition.topic []
    then invalid_argument "kafka message topic is empty"
    else if not (text_eq metadata.partition.topic logical_topic)
    then failed_precondition "coordinator stream contains multiple logical topics"
    else if ltb_ℤ metadata.partition.partition (pos 0)
    then invalid_argument "kafka message partition is invalid"
    else if ltb_ℤ metadata.offset (pos 0)
    then invalid_argument "kafka message offset is invalid"
    else ok_status

-- `ValidateBatchTopicAndPositions`.
unfoldable pub validate_batch : List ℕ → List KafkaUpsertMessage → Status
unfolding validate_message
validate_batch logical_topic [] = ok_status
validate_batch logical_topic (message ∷ messages) =
    check (validate_message logical_topic message) (validate_batch logical_topic messages)

module _ {C A : Type 0} (consumer_calls : Consumer C) (applier_calls : Applier A) where
  -- The part of `PollApplyCommitOnce` behind a poll that returned messages.
  unfoldable pub apply_and_commit :
      UpdateCoordinator C A → C → A → List KafkaUpsertMessage → Status × UpdateCoordinator C A
  apply_and_commit coordinator consumer applier batch =
      let validated = validate_batch coordinator.options.logical_topic batch in
      if not (is_ok validated)
      then (validated, record coordinator { consumer = some consumer })
      else elim (build_commit_checkpoint batch) [
        | error s ↦ (s, record coordinator { consumer = some consumer })
        | ok checkpoint ↦
            let applied = applier_calls.apply_batch batch applier in
            let committed = consumer_calls.commit checkpoint consumer in
            if not (is_ok (applied.0))
            then (
              applied.0,
              record coordinator { consumer = some consumer; applier = some (applied.1) },
            )
            else (
              committed.0,
              record coordinator { consumer = some (committed.1); applier = some (applied.1) },
            )
      ]

  -- `PollApplyCommitOnce`.
  unfoldable pub poll_apply_commit_once : UpdateCoordinator C A → Status × UpdateCoordinator C A
  unfolding apply_and_commit
  poll_apply_commit_once coordinator = elim coordinator.consumer [
    | none ↦ (failed_precondition "update coordinator has no consumer", coordinator)
    | some consumer ↦ elim coordinator.applier [
      | none ↦ (failed_precondition "update coordinator has no applier", coordinator)
      | some applier ↦
          if not (is_ok (validate_options coordinator.options))
          then (validate_options coordinator.options, coordinator)
          else (let polled = consumer_calls.poll coordinator.options.poll_options consumer in
              elim (polled.0) [
                | error s ↦ (s, record coordinator { consumer = some (polled.1) })
                | ok [] ↦ (ok_status, record coordinator { consumer = some (polled.1) })
                | ok (message ∷ messages) ↦
                    apply_and_commit coordinator (polled.1) applier (message ∷ messages)
              ])
    ]
  ]
