-- ===== src/Runtime/ShardDirectory.antt =====
-- src/runtime/shard_directory.cc: the published state of every shard. A publication is one atomic
-- store, and a read one atomic load, so each is a step.
use kv_index.Prelude.{
  ℕ, ◌<◌, ◌≡◌, ◌≢◌, ltb, not, if◌then◌else◌, Option, none, some, List, length, get_or, set,
  replicate, arith, length-set, length-replicate, get_or-set_self, get_or-set_ne,
}
use kv_index.Status.{Status, StatusOr, ok, fail, ok_status, invalid_argument}
use kv_index.Runtime.ShardState.{ShardState}

-- A shard that nothing was published for is `none`.
pub record ShardDirectory (Row : Type 0) : Type 0 where
  pub shard_count : ℕ
  pub shards : List (Option (ShardState Row))

-- The constructor.
unfoldable pub create : {Row : Type 0} → ℕ → ShardDirectory Row
create shard_count = record { shard_count = shard_count; shards = replicate shard_count none }

unfoldable pub publish :
    {Row : Type 0} → ShardDirectory Row → ℕ → Option (ShardState Row) → Status × ShardDirectory Row
publish directory shard_id none =
    if not (ltb shard_id directory.shard_count)
    then (invalid_argument "shard id is out of range", directory)
    else (invalid_argument "published shard state must not be null", directory)
publish directory shard_id (some state) =
    if not (ltb shard_id directory.shard_count)
    then (invalid_argument "shard id is out of range", directory)
    else (ok_status, record directory { shards = set directory.shards shard_id (some state) })

unfoldable pub load : {Row : Type 0} → ShardDirectory Row → ℕ → StatusOr (Option (ShardState Row))
load directory shard_id =
    if not (ltb shard_id directory.shard_count)
    then fail (invalid_argument "shard id is out of range")
    else ok (get_or directory.shards shard_id none)

-- The directory has a place for every shard.
abbrev pub IsSized : {Row : Type 0} → ShardDirectory Row → Type 0
IsSized directory = length directory.shards ≡ directory.shard_count

pub create-IsSized : (Row : Type 0) (shard_count : ℕ) → IsSized (create {Row = Row} shard_count)
unfolding create
create-IsSized Row shard_count = length-replicate shard_count none

module _ {Row : Type 0} where
  pub publish-IsSized :
      (directory : ShardDirectory Row) (shard_id : ℕ) (state : Option (ShardState Row))
      → IsSized directory
      → IsSized (publish directory shard_id state).1
  unfolding publish
  publish-IsSized directory shard_id none h = ground arith
  publish-IsSized directory shard_id (some state) h =
      ground (arith, length-set directory.shards shard_id (some state))

  -- A state published for a shard of the directory is the one that is loaded from then on.
  pub load-publish_self :
      (directory : ShardDirectory Row) (shard_id : ℕ) (state : ShardState Row)
      → IsSized directory
      → shard_id < directory.shard_count
      → load (publish directory shard_id (some state)).1 shard_id ≡ ok (some state)
  unfolding load publish
  load-publish_self directory shard_id state sized h =
      ground
        (arith, get_or-set_self directory.shards shard_id (some state) none (omega (arith, sized)))

  -- The other shards' states are loaded as before.
  pub load-publish_ne :
      (directory : ShardDirectory Row) (shard_id other : ℕ) (state : Option (ShardState Row))
      → shard_id ≢ other
      → load (publish directory shard_id state).1 other ≡ load directory other
  unfolding load publish
  load-publish_ne directory shard_id other none h = ground arith
  load-publish_ne directory shard_id other (some state) h =
      ground (arith, get_or-set_ne directory.shards shard_id other (some state) none h)
