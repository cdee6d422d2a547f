-- ===== src/Ingest/Coordinator/Delivers.antt =====
-- `PollApplyCommitOnce` (src/ingest/update_coordinator.cc) over `UpdateApplier`
-- (src/ingest/update_applier.cc): what is committed is in the realtime tables.
use kv_index.Prelude.{◌≡◌, refl, sym, subst, Option, some, List, All, inl, inr, ◌⊎◌}
use kv_index.Status.{Status, StatusOr, ok}
use kv_index.Types.Kafka.{KafkaUpsertMessage, KafkaCheckpoint}
use kv_index.Ingest.Checkpoint.Batch.{Commits}
use kv_index.Ingest.Coordinator.{Consumer, UpdateCoordinator, poll_apply_commit_once}
use kv_index.Ingest.Coordinator.Order.{RunsBatch, poll_apply_commit_once-Runs}
use kv_index.Ingest.Applier.{UpdateApplierOptions, Tables, apply_batch, applier_of}
use kv_index.Ingest.Applier.Stored.{AllConsistent}
use kv_index.Ingest.Applier.Updates.{ShowsMessage, apply_batch-Stored, apply_batch-ShowsMessages}

module _ {C : Type 0} (calls : Consumer C) (options : UpdateApplierOptions)
    (coordinator : UpdateCoordinator C Tables) (consumer : C) where
  abbrev batch : StatusOr (List KafkaUpsertMessage) × C
  batch = calls.poll coordinator.options.poll_options consumer

  -- The consumer is as it was, or was polled: it was told to commit nothing.
  abbrev pub CommitsNothing : Option C → Type 0
  CommitsNothing after = (after ≡ some consumer) ⊎ (after ≡ some (batch.1))

  -- The consumer was polled and told to commit a checkpoint that covers the batch and no more, and the
  -- tables show every message of the batch.
  abbrev pub CommitsShown : Option C → Tables → Type 0
  CommitsShown after tables =
      (messages : List KafkaUpsertMessage) × (batch.0 ≡ ok messages)
      × ((checkpoint : KafkaCheckpoint) × (after ≡ some (calls.commit checkpoint (batch.1)).1)
          × Commits messages checkpoint)
      × All (ShowsMessage options tables) messages

  abbrev pub Delivers : UpdateCoordinator C Tables → Type 0
  Delivers after =
      (tables : Tables) × (after.applier ≡ some tables)
      × AllConsistent tables
      × (CommitsNothing after.consumer ⊎ CommitsShown after.consumer tables)

  module _ (tables : Tables) (c : AllConsistent tables) where
    abbrev applied : List KafkaUpsertMessage → Status × Tables
    applied messages = apply_batch options messages tables

    unchanged :
        coordinator.consumer ≡ some consumer
        → coordinator.applier ≡ some tables
        → Delivers coordinator
    unchanged has_consumer has_tables = (tables, has_tables, c, inl (inl has_consumer))

    ran :
        (result : Status × UpdateCoordinator C Tables)
        → coordinator.applier ≡ some tables
        → RunsBatch calls (applier_of options) coordinator consumer tables result
        → Delivers (result.1)
    unfolding applier_of
    ran result has_tables (inl only) =
        subst Delivers (sym (only.0)) (tables, has_tables, c, inl (inr refl))
    ran result has_tables (inr (messages, got, inl failed)) =
        subst (λ (t : Status × UpdateCoordinator C Tables). Delivers (t.1)) (sym (failed.1))
          (
            (applied messages).1,
            refl,
            (apply_batch-Stored options messages tables c).0,
            inl (inr refl),
          )
    ran result has_tables (inr (messages, got, inr committed)) =
        let shown = apply_batch-ShowsMessages options messages tables c committed.applied in
        subst (λ (t : Status × UpdateCoordinator C Tables). Delivers (t.1)) (sym committed.outcome)
          (
            (applied messages).1,
            refl,
            shown.0,
            inr (messages, got, (committed.checkpoint, refl, committed.commits), shown.1),
          )

-- A call of `PollApplyCommitOnce` of a coordinator with a consumer and with an applier whose tables are
-- consistent leaves tables that are consistent. Either the consumer was told to commit nothing; or it
-- was told to commit, once, a checkpoint that has a position behind every message of the batch that it
-- polled, only positions right behind one of them, and no two of one partition, and for the key of
-- every message of that batch the table of every route's shard shows a row of the message's position
-- or of a later one of its partition.
pub poll_apply_commit_once-Delivers :
    {C : Type 0} (calls : Consumer C) (options : UpdateApplierOptions)
    (coordinator : UpdateCoordinator C Tables) (consumer : C) (tables : Tables)
    → coordinator.consumer ≡ some consumer
    → coordinator.applier ≡ some tables
    → AllConsistent tables
    → Delivers calls options coordinator consumer
        (poll_apply_commit_once calls (applier_of options) coordinator).1
poll_apply_commit_once-Delivers {C} calls options coordinator consumer tables has_consumer
      has_tables c =
    elim (poll_apply_commit_once-Runs calls (applier_of options) coordinator) [
      | inl not_ready ↦
          subst (Delivers calls options coordinator consumer) (sym (not_ready.1))
            (unchanged calls options coordinator consumer tables c has_consumer has_tables)
      | inr (polled_by, applied_to, found, taken, runs) ↦
          let same_consumer : polled_by ≡ consumer = cc (found, has_consumer) in
          let same_tables : applied_to ≡ tables = cc (taken, has_tables) in
          let result = poll_apply_commit_once calls (applier_of options) coordinator in
          ran calls options coordinator consumer tables c result has_tables (
            subst (λ (t : C). RunsBatch calls (applier_of options) coordinator t tables result)
              same_consumer
              (subst
                (λ (t : Tables).
                  RunsBatch calls (applier_of options) coordinator polled_by t result)
                same_tables runs))
    ]
