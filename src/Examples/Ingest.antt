-- ===== src/Examples/Ingest.antt =====
-- A batch of three messages of two partitions.
use kv_index.Prelude.{ℕ, pos, ◌≡◌, refl, List, [], ◌∷◌, ◌++◌, some, ◌⊎◌}
use kv_index.Status.{ok, ok_status}
use kv_index.Types.Kafka.{KafkaUpsertMessage, KafkaPosition, KafkaCheckpoint}
use kv_index.Ingest.Checkpoint.{build_commit_checkpoint, max_offsets, raise_offset}
use kv_index.Ingest.Checkpoint.Batch.{Commits, build_commit_checkpoint-Commits}
use kv_index.Ingest.Coordinator.{Consumer, Applier, UpdateCoordinator, poll_apply_commit_once}
use kv_index.Ingest.Coordinator.Order.{NotReady, RunsBatch, poll_apply_commit_once-Runs}

abbrev message : ℕ → ℕ → KafkaUpsertMessage
message partition offset = record {
  metadata = record {
    partition = record { topic = 0x74 ∷ []; partition = pos partition };
    offset = pos offset;
    key = [];
    timestamp_millis = pos 0;
  };
  primary_key = offset;
  payload = [];
}

abbrev batch : List KafkaUpsertMessage
batch = message 3 10 ∷ message 1 4 ∷ message 3 11 ∷ []

build_commit_checkpoint-Commits_example :
    (checkpoint : KafkaCheckpoint) × (build_commit_checkpoint batch ≡ ok checkpoint)
    × Commits batch checkpoint
build_commit_checkpoint-Commits_example =
    build_commit_checkpoint-Commits batch (refl, (refl, (refl, tt)))

abbrev position : ℕ → ℕ → KafkaPosition
position partition offset = record {
  partition = record { topic = 0x74 ∷ []; partition = pos partition };
  offset = pos offset;
}

two_positions :
    build_commit_checkpoint batch ≡ ok (record { next_offsets = position 1 5 ∷ position 3 12 ∷ [] })
unfolding build_commit_checkpoint max_offsets raise_offset
two_positions = refl

-- A consumer that polls the batch and keeps what is committed, and an applier that keeps what it took.
abbrev consumer_calls : Consumer (List KafkaPosition)
consumer_calls = record {
  poll = λ options committed. (ok batch, committed);
  commit = λ checkpoint committed. (ok_status, checkpoint.next_offsets);
}

abbrev applier_calls : Applier (List KafkaUpsertMessage)
applier_calls = record { apply_batch = λ messages taken. (ok_status, taken ++ messages) }

abbrev coordinator : UpdateCoordinator (List KafkaPosition) (List KafkaUpsertMessage)
coordinator = record {
  consumer = some [];
  applier = some [];
  options = record {
    logical_topic = 0x74 ∷ [];
    poll_options = record { timeout_ms = pos 100; max_messages = 3 };
  };
}

poll_apply_commit_once-Runs_example :
    NotReady consumer_calls applier_calls coordinator
      (poll_apply_commit_once consumer_calls applier_calls coordinator)
    ⊎ ((consumer : List KafkaPosition) × (applier : List KafkaUpsertMessage) × (coordinator.consumer
          ≡ some consumer)
        × (coordinator.applier ≡ some applier)
        × RunsBatch consumer_calls applier_calls coordinator consumer applier
            (poll_apply_commit_once consumer_calls applier_calls coordinator))
poll_apply_commit_once-Runs_example =
    poll_apply_commit_once-Runs consumer_calls applier_calls coordinator
