-- ===== src/Api/ForwardIndex.antt =====
-- src/api/forward_index.cc: the constructor's checks, `ShardFor`, `Get` and `MGet`. A thrown
-- exception is the value `throws` of its message.

pub mod Bucket
pub mod Pointwise
pub mod WellFormed
pub mod Create
use text.Mathlib.Text.{◌==◌ as str_eq}
use kv_index.Prelude.{
  ℕ, zero, suc, ◌+◌, ◌-◌, ltb, ◌==◌, bit_and, String, Bool, not, ◌&&◌, ◌||◌, if◌then◌else◌, Option,
  none, some, List, [], ◌∷◌, ◌++◌, map, length, get_or, set, replicate,
}
use kv_index.Status.{Status, ok, error}
use kv_index.Types.{ForwardIndexMode, uses_kafka_realtime}
use kv_index.Base.Bits.{is_power_of_two}
use kv_index.Base.Hash.{stable_hash64}
use kv_index.Runtime.ShardState.{ShardState}
use kv_index.Runtime.ShardState as ShardState
use kv_index.Runtime.ShardDirectory.{ShardDirectory, load}
use kv_index.Runtime.ShardDirectory as ShardDirectory

-- A function that returns a value or throws.
pub data Thrown {ℓ} (A : Type ℓ) : Type ℓ where
  returns : A → Thrown A
  throws : String → Thrown A

pub record KafkaConsumerConfig : Type 0 where
  pub bootstrap_servers : String
  pub group_id : String
  pub topics : List String

-- The options but for the thresholds, which the modelled operations do not read.
pub record ForwardIndexOptions : Type 0 where
  pub mode : ForwardIndexMode
  pub shard_count : ℕ
  pub hash_seed : ℕ
  pub hash_version : ℕ
  pub kafka_consumer : KafkaConsumerConfig

pub record ForwardIndex (Row : Type 0) : Type 0 where
  pub options : ForwardIndexOptions
  pub shard_directory : ShardDirectory Row

unfoldable pub throw_status : {A : Type 0} → Status → Thrown A
throw_status status =
    throws (if str_eq status.message "" then "forward index read failed" else status.message)

abbrev pub is_nil {ℓ} : {A : Type ℓ} → List A → Bool
is_nil [] = kv_index.Prelude.true
is_nil (x ∷ xs) = kv_index.Prelude.false

unfoldable pub has_kafka_consumer_config : KafkaConsumerConfig → Bool
has_kafka_consumer_config config =
    not (str_eq config.bootstrap_servers "")
    || not (str_eq config.group_id "")
    || not (is_nil config.topics)

-- The constructor.
unfoldable pub create : {Row : Type 0} → ForwardIndexOptions → Thrown (ForwardIndex Row)
create options =
    if not (is_power_of_two options.shard_count)
    then throws "ForwardIndexOptions::shard_count must be a non-zero power of two"
    else if not (uses_kafka_realtime options.mode)
        && has_kafka_consumer_config options.kafka_consumer
    then throws "full-snapshot-only mode does not accept Kafka consumer config"
    else returns
        (record { options = options; shard_directory = ShardDirectory.create options.shard_count })

-- `ShardFor`.
unfoldable pub shard_for : {Row : Type 0} → ForwardIndex Row → ℕ → ℕ
shard_for index primary_key =
    bit_and (stable_hash64 primary_key index.options.hash_seed index.options.hash_version)
      (index.options.shard_count - 1)

unfoldable pub get : {Row : Type 0} → ForwardIndex Row → ℕ → Thrown (Option Row)
get index primary_key = elim (load index.shard_directory (shard_for index primary_key)) [
  | error s ↦ throw_status s
  | ok none ↦ returns none
  | ok (some shard) ↦ elim (ShardState.get shard primary_key) [
    | error s ↦ throw_status s
    | ok row ↦ returns row
  ]
]

-- The first loop of `MGet`: the positions of the keys, from position `i` on, by shard.
unfoldable pub positions_by_shard :
    (shard_of : ℕ → ℕ) (i : ℕ) (primary_keys : List ℕ) (positions : List (List ℕ)) → List (List ℕ)
positions_by_shard shard_of i [] positions = positions
positions_by_shard shard_of i (key ∷ keys) positions =
    positions_by_shard shard_of (i + 1) keys
      (set positions (shard_of key) (get_or positions (shard_of key) [] ++ i ∷ []))

-- `rows[positions[i]] = shard_rows[i]` for every `i`.
unfoldable pub scatter :
    {Row : Type 0} → List (Option Row) → List ℕ → List (Option Row) → List (Option Row)
scatter rows (p ∷ ps) (row ∷ shard_rows) = scatter (set rows p row) ps shard_rows
scatter rows _ _ = rows

-- One round of the second loop of `MGet`.
unfoldable pub mget_shard :
    {Row : Type 0}
    → ForwardIndex Row
    → List ℕ
    → List ℕ
    → ℕ
    → List (Option Row)
    → Thrown (List (Option Row))
mget_shard index primary_keys positions shard_id rows =
    if is_nil positions then returns rows else elim (load index.shard_directory shard_id) [
      | error s ↦ throw_status s
      | ok none ↦ returns rows
      | ok (some shard) ↦
          let shard_keys = map (λ (position : ℕ). get_or primary_keys position 0) positions in
          elim (ShardState.mget shard shard_keys) [
            | error s ↦ throw_status s
            | ok shard_rows ↦
                if not (length shard_rows == length positions)
                then throws "shard returned a row count that does not match request count"
                else returns (scatter rows positions shard_rows)
          ]
    ]

-- The second loop: `left` shards remain, from `shard_id` on.
unfoldable pub mget_shards :
    {Row : Type 0}
    → ForwardIndex Row
    → List ℕ
    → List (List ℕ)
    → (left shard_id : ℕ) → List (Option Row)
    → Thrown (List (Option Row))
mget_shards index primary_keys positions zero shard_id rows = returns rows
mget_shards index primary_keys positions (suc left) shard_id rows =
    elim (mget_shard index primary_keys (get_or positions shard_id []) shard_id rows) [
      | throws message ↦ throws message
      | returns rows' ↦ mget_shards index primary_keys positions left (shard_id + 1) rows'
    ]

unfoldable pub mget : {Row : Type 0} → ForwardIndex Row → List ℕ → Thrown (List (Option Row))
mget index primary_keys =
    let count = index.options.shard_count in
    let positions = positions_by_shard (shard_for index) 0 primary_keys (replicate count []) in
    mget_shards index primary_keys positions count 0 (replicate (length primary_keys) none)
