-- ===== src/Api/ForwardIndex/WellFormed.antt =====
-- A well-formed index, its publications, and reads that return.
use native.Mathlib.Nat.{mod-lt}
use kv_index.Prelude.{
  ℕ, zero, suc, ◌<◌, ◌==◌, ◌≡◌, ap, true, if◌then◌else◌, Option, some, List, [], ◌∷◌, length,
  get_or, arith, inl, inr, eq-cases,
}
use kv_index.Status.{StatusOr, ok, error}
use kv_index.Base.Bits.{is_power_of_two, is_power_of_two_iff, bit_and_mask}
use kv_index.Base.Hash.{stable_hash64}
use kv_index.Runtime.ShardState.{ShardState}
use kv_index.Runtime.ShardState as ShardState
use kv_index.Runtime.ShardDirectory.{IsSized, load, publish, load-publish_self, load-publish_ne}
use kv_index.Api.ForwardIndex.{Thrown, returns, ForwardIndex, shard_for, get, throw_status}

-- What the constructor sets up: a power of two of shards, with a place for each in the directory.
pub record IsWellFormed {Row : Type 0} (index : ForwardIndex Row) : Type 0 where
  pub power : is_power_of_two index.options.shard_count ≡ true
  pub same_count : index.shard_directory.shard_count ≡ index.options.shard_count
  pub sized : IsSized index.shard_directory

-- `Get` returns a row, or none, for every key of a list.
abbrev pub AllReturn : {Row : Type 0} → ForwardIndex Row → (ℕ → Option Row) → List ℕ → Type 0
AllReturn index row [] = Unit
AllReturn index row (key ∷ keys) = (get index key ≡ returns (row key)) × AllReturn index row keys

module _ {Row : Type 0} where
  pub all_at :
      (index : ForwardIndex Row) (row : ℕ → Option Row) (keys : List ℕ) (j : ℕ)
      → AllReturn index row keys
      → j < length keys
      → get index (get_or keys j 0) ≡ returns (row (get_or keys j 0))
  all_at index row [] j h b = absurd (omega arith)
  all_at index row (key ∷ keys) zero h b = h.0
  all_at index row (key ∷ keys) (suc j) h b = all_at index row keys j h.1 (omega arith)

  pub shard_for-lt :
      (index : ForwardIndex Row) (key : ℕ)
      → is_power_of_two index.options.shard_count ≡ true
      → shard_for index key < index.options.shard_count
  unfolding shard_for
  shard_for-lt index key h =
      let hash = stable_hash64 key index.options.hash_seed index.options.hash_version in
      let power = (is_power_of_two_iff index.options.shard_count).0 h in
      let positive : 0 < index.options.shard_count =
        omega (arith, power.1, native.Mathlib.Nat.one-le-pow power.0 2) in
      ground (arith, power.1, bit_and_mask power.0 hash, mod-lt hash positive)

-- The index after a state was published for a shard, which a load's worker does.
abbrev pub publish_shard : {Row : Type 0} → ForwardIndex Row → ℕ → ShardState Row → ForwardIndex Row
publish_shard index shard_id state = record index {
  shard_directory = (publish index.shard_directory shard_id (some state)).1;
}

-- What `Get` makes of a shard's answer.
abbrev pub thrown_or : {Row : Type 0} → StatusOr (Option Row) → Thrown (Option Row)
thrown_or (ok row) = returns row
thrown_or (error s) = throw_status s

-- After a state was published for a shard of a well-formed index, `Get` of that shard's keys reads the
-- state, and `Get` of every other key is as before.
pub get-publish_shard :
    {Row : Type 0} (index : ForwardIndex Row) (shard_id : ℕ) (state : ShardState Row) (key : ℕ)
    → IsWellFormed index
    → shard_id < index.options.shard_count
    → get (publish_shard index shard_id state) key ≡ (
        if shard_id == shard_for index key
        then thrown_or (ShardState.get state key)
        else get index key)
unfolding get shard_for
get-publish_shard index shard_id state key well h = elim (eq-cases shard_id (shard_for index key)) [
  | inl same ↦ ground (
    arith,
    same,
    ap (λ (t : ℕ). load (publish index.shard_directory shard_id (some state)).1 t) same,
    load-publish_self index.shard_directory shard_id state well.sized
        (omega (arith, well.same_count)),
  )
  | inr other ↦ ground (
    arith,
    other,
    load-publish_ne index.shard_directory shard_id (shard_for index key) (some state) other,
  )
]
