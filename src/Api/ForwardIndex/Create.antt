-- ===== src/Api/ForwardIndex/Create.antt =====
-- The constructor of `ForwardIndex` (src/api/forward_index.cc): which options it takes, and the index
-- that it makes.

use text.Mathlib.Text.{◌==◌ as str_eq}
use kv_index.Types.{ForwardIndexMode, full_snapshot_only, uses_kafka_realtime}
use kv_index.Prelude.{
  String, ◌^◌, ◌≢◌, ◌⊎◌, false, none, get_or-replicate, replicate, ℕ, ◌≡◌, refl, true, Option,
  get_or, arith, inl, inr, Bool-cases,
}
use kv_index.Base.Bits.{is_power_of_two, is_power_of_two_iff}
use kv_index.Runtime.ShardState.{ShardState}
use kv_index.Runtime.ShardDirectory.{
  ShardDirectory, IsSized, create-IsSized, load, publish, load-publish_self, load-publish_ne,
}
use kv_index.Runtime.ShardDirectory as ShardDirectory
use kv_index.Api.ForwardIndex.{
  Thrown, returns, throws, KafkaConsumerConfig, is_nil, has_kafka_consumer_config,
  ForwardIndexOptions, ForwardIndex, create, shard_for, get,
}
use kv_index.Api.ForwardIndex.WellFormed.{IsWellFormed, shard_for-lt}

-- What the constructor asks of its options: a power of two of shards, and no Kafka consumer for an index
-- that only serves full snapshots.
abbrev pub NoConsumer : KafkaConsumerConfig → Type 0
NoConsumer config =
    (str_eq config.bootstrap_servers "" ≡ true)
    × (str_eq config.group_id "" ≡ true)
    × (is_nil config.topics ≡ true)

pub record IsValid (options : ForwardIndexOptions) : Type 0 where
  pub shards : (k : ℕ) × (options.shard_count ≡ 2 ^ k)
  pub consumer : (options.mode ≢ full_snapshot_only) ⊎ NoConsumer options.kafka_consumer

-- A new index has its options, is well-formed, and finds no row for any key.
pub record IsNew {Row : Type 0} (options : ForwardIndexOptions) (index : ForwardIndex Row)
    : Type 0 where
  pub same_options : index.options ≡ options
  pub well_formed : IsWellFormed index
  pub no_rows : (key : ℕ) → get index key ≡ returns none

abbrev pub CreateOutcome : (Row : Type 0) → ForwardIndexOptions → Thrown (ForwardIndex Row) → Type 0
CreateOutcome Row options result =
    IsValid options × ((index : ForwardIndex Row) × (result ≡ returns index) × IsNew options index)
    ⊎ ¬ IsValid options × ((message : String) × (result ≡ throws message))

empty_index-IsNew :
    (Row : Type 0) (options : ForwardIndexOptions)
    → is_power_of_two options.shard_count ≡ true
    → IsNew {Row = Row} options
        (record { options = options; shard_directory = ShardDirectory.create options.shard_count })
unfolding get load ShardDirectory.create
empty_index-IsNew Row options power = record {
  same_options = refl;
  well_formed = record {
    power = power;
    same_count = refl;
    sized = create-IsSized Row options.shard_count;
  };
  no_rows = λ key.
      let index : ForwardIndex Row = record {
        options = options;
        shard_directory = ShardDirectory.create options.shard_count;
      } in
      let place : get_or (replicate {A = Option (ShardState Row)} options.shard_count none)
            (shard_for index key) none
          ≡ none =
        get_or-replicate options.shard_count (shard_for index key) none in
      ground (arith, shard_for-lt index key power, place);
}

has_consumer-false :
    (config : KafkaConsumerConfig) → has_kafka_consumer_config config ≡ false → NoConsumer config
unfolding has_kafka_consumer_config
has_consumer-false config h = (ground arith, ground arith, ground arith)

has_consumer-true :
    (config : KafkaConsumerConfig) → has_kafka_consumer_config config ≡ true → ¬ NoConsumer config
unfolding has_kafka_consumer_config
has_consumer-true config h none_set = ground (arith, none_set.0, none_set.1, none_set.2)

serves_stream :
    (mode : ForwardIndexMode) → uses_kafka_realtime mode ≡ true → mode ≢ full_snapshot_only
unfolding uses_kafka_realtime
serves_stream mode h e = ground (arith, h, e)

serves_snapshots :
    (mode : ForwardIndexMode) → uses_kafka_realtime mode ≡ false → mode ≡ full_snapshot_only
unfolding uses_kafka_realtime
serves_snapshots mode h = ground arith

created :
    (Row : Type 0) (options : ForwardIndexOptions)
    → IsValid options
    → create {Row = Row} options
      ≡ returns (record {
        options = options;
        shard_directory = ShardDirectory.create options.shard_count;
      })
    → CreateOutcome Row options (create {Row = Row} options)
created Row options valid e = inl (
  valid,
  (_, e, empty_index-IsNew Row options ((is_power_of_two_iff options.shard_count).1 valid.shards)),
)

-- The constructor returns for exactly the valid options, and the index is then a new one; for others it
-- throws.
pub create-CreateOutcome :
    (Row : Type 0) (options : ForwardIndexOptions)
    → CreateOutcome Row options (create {Row = Row} options)
unfolding create
create-CreateOutcome Row options =
    let power = is_power_of_two_iff options.shard_count in
    elim (Bool-cases (is_power_of_two options.shard_count)) [
      | inr no_power ↦ inr (
        λ valid. cc (no_power, power.1 valid.shards),
        (
          "ForwardIndexOptions::shard_count must be a non-zero power of two",
          ground (arith, no_power),
        ),
      )
      | inl is_power ↦ elim (Bool-cases (uses_kafka_realtime options.mode)) [
        | inl stream ↦
            created Row options
              (record {
                shards = power.0 is_power;
                consumer = inl (serves_stream options.mode stream);
              })
              (ground (arith, is_power, stream))
        | inr snapshots ↦ elim (Bool-cases (has_kafka_consumer_config options.kafka_consumer)) [
          | inr empty_config ↦
              created Row options
                (record {
                  shards = power.0 is_power;
                  consumer = inr (has_consumer-false options.kafka_consumer empty_config);
                })
                (ground (arith, is_power, empty_config))
          | inl set_config ↦ inr (
            λ valid. elim valid.consumer [
              | inl stream ↦ stream (serves_snapshots options.mode snapshots)
              | inr no_config ↦ has_consumer-true options.kafka_consumer set_config no_config
            ],
            (
              "full-snapshot-only mode does not accept Kafka consumer config",
              ground (arith, is_power, snapshots, set_config),
            ),
          )
        ]
      ]
    ]
