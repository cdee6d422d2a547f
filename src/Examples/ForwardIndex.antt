-- ===== src/Examples/ForwardIndex.antt =====
-- An index of two shards, whose rows are numbers.
use kv_index.Prelude.{
  ℕ, ◌+◌, ◌*◌, ◌≡◌, refl, arith, Option, none, some, List, [], ◌∷◌, map, ◌==◌, if◌then◌else◌,
}
use kv_index.Status.{ok}
use kv_index.Types.{realtime_delta, uses_kafka_realtime}
use kv_index.Base.Bits.{is_power_of_two}
use kv_index.Base.Hash.{stable_hash64}
use kv_index.Runtime.ShardState.{Layer, ShardState, get_layer, first, rows_of, get-eq-first}
use kv_index.Runtime.ShardState as ShardState
use kv_index.Runtime.ShardDirectory.{load, publish}
use kv_index.Runtime.ShardDirectory as ShardDirectory
use kv_index.Api.ForwardIndex.{
  ForwardIndexOptions, ForwardIndex, returns, create, get, mget, shard_for,
}
use kv_index.Api.ForwardIndex.WellFormed.{
  IsWellFormed, AllReturn, publish_shard, thrown_or, get-publish_shard,
}
use kv_index.Api.ForwardIndex.Create.{CreateOutcome, create-CreateOutcome}
use kv_index.Api.ForwardIndex.Pointwise.{mget-eq-map_get}

abbrev options : ForwardIndexOptions
options = record {
  mode = realtime_delta;
  shard_count = 2;
  hash_seed = 0;
  hash_version = 1;
  kafka_consumer = record { bootstrap_servers = ""; group_id = ""; topics = [] };
}

abbrev times : ℕ → Layer ℕ
times n = record { get = λ (key : ℕ). ok (some (key * n)) }

abbrev only_seven : Layer ℕ
only_seven = record { get = λ (key : ℕ). ok (if key == 7 then some 70 else none) }

abbrev layers : ShardState ℕ
layers = record {
  shard_id = 0;
  generation = 4;
  realtime_delta = some only_seven;
  compact_delta = none;
  full_snapshot = some (times 3);
}

get-eq-first_example :
    ShardState.get layers 5
    ≡ ok (first (rows_of (some only_seven) 5) (first (rows_of none 5) (rows_of (some (times 3)) 5)))
get-eq-first_example = get-eq-first layers 5 refl tt refl

abbrev index : ForwardIndex ℕ
index = record {
  options = options;
  shard_directory = record { shard_count = 2; shards = some layers ∷ none ∷ [] };
}

abbrev new_index : ForwardIndex ℕ
new_index = record {
  options = options;
  shard_directory = record { shard_count = 2; shards = none ∷ none ∷ [] };
}

two : is_power_of_two 2 ≡ kv_index.Prelude.true
unfolding is_power_of_two
two = refl

index-IsWellFormed : IsWellFormed index
index-IsWellFormed = record { power = two; same_count = refl; sized = refl }

created : create {Row = ℕ} options ≡ returns new_index
unfolding create is_power_of_two ShardDirectory.create uses_kafka_realtime
created = refl

create-CreateOutcome_example : CreateOutcome ℕ options (create {Row = ℕ} options)
create-CreateOutcome_example = create-CreateOutcome ℕ options

get-publish_shard_example :
    get (publish_shard index 1 layers) 9
    ≡ (if 1 == shard_for index 9 then thrown_or (ShardState.get layers 9) else get index 9)
get-publish_shard_example = get-publish_shard index 1 layers 9 index-IsWellFormed (omega arith)

abbrev row : ℕ → Option ℕ
row key = if shard_for index key == 0 then (if key == 7 then some 70 else some (key * 3)) else none

all_return : AllReturn index row (7 ∷ 8 ∷ 9 ∷ 7 ∷ [])
unfolding get load ShardState.get get_layer shard_for stable_hash64
all_return = (refl, (refl, (refl, (refl, tt))))

mget-eq-map_get_example : mget index (7 ∷ 8 ∷ 9 ∷ 7 ∷ []) ≡ returns (map row (7 ∷ 8 ∷ 9 ∷ 7 ∷ []))
mget-eq-map_get_example =
    mget-eq-map_get index row (7 ∷ 8 ∷ 9 ∷ 7 ∷ []) index-IsWellFormed all_return
