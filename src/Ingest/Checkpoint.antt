-- ===== src/Ingest/Checkpoint.antt =====
-- src/ingest/update_coordinator.cc: the checkpoint that a batch of messages is committed with.
pub mod Covers
pub mod Ordered
pub mod Batch
use kv_index.Prelude.{
  ℕ, zero, suc, ◌+◌, ◌-◌, ◌^◌, ℤ, pos, negsuc, ltb, ◌==◌, ltb_ℤ, eqb_ℤ, Bool, true, false, not,
  ◌&&◌, ◌||◌, if◌then◌else◌, List, [], ◌∷◌, map,
}
use kv_index.Status.{StatusOr, ok, error, fail, ◌>>=◌, invalid_argument}
use kv_index.Types.Kafka.{
  KafkaPartition, KafkaPosition, KafkaMessageMetadata, KafkaUpsertMessage, KafkaCheckpoint,
}

-- `operator==` and `operator<` of strings, by their bytes.
abbrev pub text_eq : List ℕ → List ℕ → Bool
text_eq [] [] = true
text_eq [] (d ∷ ds) = false
text_eq (c ∷ cs) [] = false
text_eq (c ∷ cs) (d ∷ ds) = c == d && text_eq cs ds

abbrev pub text_less : List ℕ → List ℕ → Bool
text_less cs [] = false
text_less [] (d ∷ ds) = true
text_less (c ∷ cs) (d ∷ ds) = ltb c d || (c == d && text_less cs ds)

-- The order of `PartitionKey`, a pair of topic and partition.
abbrev pub partition_eq : KafkaPartition → KafkaPartition → Bool
partition_eq a b = text_eq a.topic b.topic && eqb_ℤ a.partition b.partition

abbrev pub partition_less : KafkaPartition → KafkaPartition → Bool
partition_less a b =
    text_less a.topic b.topic || (text_eq a.topic b.topic && ltb_ℤ a.partition b.partition)

-- One message's offset in `max_offsets`, the map in the order of its keys.
unfoldable pub raise_offset :
    KafkaPartition → ℤ → List (KafkaPartition × ℤ) → List (KafkaPartition × ℤ)
raise_offset key offset [] = (key, offset) ∷ []
raise_offset key offset (x ∷ xs) =
    if partition_eq x.0 key
    then (x.0, (if ltb_ℤ (x.1) offset then offset else x.1)) ∷ xs
    else if partition_less key (x.0)
    then (key, offset) ∷ x ∷ xs
    else x ∷ raise_offset key offset xs

-- `std::numeric_limits<std::int64_t>::max()`.
abbrev pub int64_max : ℤ
int64_max = pos (2 ^ 63 - 1)

-- The loop over the messages.
unfoldable pub max_offsets :
    List (KafkaPartition × ℤ) → List KafkaUpsertMessage → StatusOr (List (KafkaPartition × ℤ))
max_offsets offsets [] = ok offsets
max_offsets offsets (message ∷ messages) =
    let metadata = message.metadata in
    let rest = max_offsets (raise_offset metadata.partition metadata.offset offsets) messages in
    if eqb_ℤ metadata.offset int64_max
    then fail (invalid_argument "kafka message offset cannot advance")
    else rest

-- `offset + 1`.
abbrev pub suc_ℤ : ℤ → ℤ
suc_ℤ (pos n) = pos (suc n)
suc_ℤ (negsuc zero) = pos 0
suc_ℤ (negsuc (suc n)) = negsuc n

abbrev pub next_offset : KafkaPartition × ℤ → KafkaPosition
next_offset x = record { partition = x.0; offset = suc_ℤ (x.1) }

unfoldable pub build_commit_checkpoint : List KafkaUpsertMessage → StatusOr KafkaCheckpoint
build_commit_checkpoint messages = do
  offsets ← max_offsets [] messages
  ok (record { next_offsets = map next_offset offsets })
