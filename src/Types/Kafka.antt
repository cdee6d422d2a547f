-- ===== src/Types/Kafka.antt =====
-- include/kv_index/types.h: positions in the update stream, and progress in it. A topic is its bytes.
use kv_index.Prelude.{ℕ, ℤ, List}

pub record KafkaPartition : Type 0 where
  pub topic : List ℕ
  pub partition : ℤ

pub record KafkaPosition : Type 0 where
  pub partition : KafkaPartition
  pub offset : ℤ

pub record KafkaMessageMetadata : Type 0 where
  pub partition : KafkaPartition
  pub offset : ℤ
  pub key : List ℕ
  pub timestamp_millis : ℤ

pub record KafkaUpsertMessage : Type 0 where
  pub metadata : KafkaMessageMetadata
  pub primary_key : ℕ
  pub payload : List ℕ

pub record KafkaCheckpoint : Type 0 where
  pub next_offsets : List KafkaPosition

pub record KafkaPartitionProgress : Type 0 where
  pub partition : KafkaPartition
  pub committed_next_offset : ℤ
  pub high_watermark : ℤ
  pub lag : ℤ

pub record KafkaProgress : Type 0 where
  pub partitions : List KafkaPartitionProgress

pub record PollOptions : Type 0 where
  pub timeout_ms : ℤ
  pub max_messages : ℕ
