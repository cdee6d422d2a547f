-- ===== src/Runtime/ShardState.antt =====
-- src/runtime/shard_state.cc: a shard's layers, and reads through them.
use kv_index.Prelude.{ℕ, ◌≡◌, refl, Option, none, some, List, [], ◌∷◌, map, arith}
use kv_index.Status.{StatusOr, ok, error, fail, ◌>>=◌}

-- What a shard uses of a layer: `Get` of `RealtimeDeltaAtomicTable` and of `SnapshotView`.
pub record Layer (Row : Type 0) : Type 0 where
  pub get : ℕ → StatusOr (Option Row)

-- A layer that is null or empty is `none`.
pub record ShardState (Row : Type 0) : Type 0 where
  pub shard_id : ℕ
  pub generation : ℕ
  pub realtime_delta : Option (Layer Row)
  pub compact_delta : Option (Layer Row)
  pub full_snapshot : Option (Layer Row)

-- One of the blocks of `Get`, with the blocks behind it: its layer answers, fails, or is passed over.
unfoldable pub get_layer :
    {Row : Type 0} → Option (Layer Row) → ℕ → StatusOr (Option Row) → StatusOr (Option Row)
get_layer none primary_key rest = rest
get_layer (some layer) primary_key rest = elim (layer.get primary_key) [
  | error s ↦ fail s
  | ok none ↦ rest
  | ok (some row) ↦ ok (some row)
]

unfoldable pub get : {Row : Type 0} → ShardState Row → ℕ → StatusOr (Option Row)
unfolding get_layer
get state primary_key = get_layer state.realtime_delta primary_key (
    get_layer state.compact_delta primary_key (get_layer state.full_snapshot primary_key (ok none)))

-- `MGet`.
unfoldable pub mget : {Row : Type 0} → ShardState Row → List ℕ → StatusOr (List (Option Row))
mget state [] = ok []
mget state (primary_key ∷ primary_keys) = do
  row ← get state primary_key
  rows ← mget state primary_keys
  ok (row ∷ rows)

module _ {Row : Type 0} where
  -- A layer as a map from keys to rows, where it has no row for a key that it fails for.
  abbrev pub row_of : StatusOr (Option Row) → Option Row
  row_of (ok row) = row
  row_of (error s) = none

  abbrev pub rows_of : Option (Layer Row) → ℕ → Option Row
  rows_of none key = none
  rows_of (some layer) key = row_of (layer.get key)

  -- A layer that is absent, or that answers a key without an error.
  abbrev pub Answers : Option (Layer Row) → ℕ → Type 0
  Answers none key = Unit
  Answers (some layer) key = layer.get key ≡ ok (row_of (layer.get key))

  -- The first row of two.
  abbrev pub first : Option Row → Option Row → Option Row
  first none b = b
  first (some a) b = some a

  get_layer-eq-first :
      (layer : Option (Layer Row)) (key : ℕ) (below : Option Row)
      → Answers layer key
      → get_layer layer key (ok below) ≡ ok (first (rows_of layer key) below)
  unfolding get_layer
  get_layer-eq-first none key below h = refl
  get_layer-eq-first (some layer) key below h = ground arith

  -- Where no layer fails for a key, `Get` shows the realtime delta's row, without one the compacted
  -- delta's, without one the full snapshot's.
  pub get-eq-first :
      (state : ShardState Row) (key : ℕ)
      → Answers state.realtime_delta key
      → Answers state.compact_delta key
      → Answers state.full_snapshot key
      → get state key
        ≡ ok (
            first
              (rows_of state.realtime_delta key)
              (first (rows_of state.compact_delta key) (rows_of state.full_snapshot key)))
  unfolding get
  get-eq-first state key realtime compact full = ground (
    arith,
    get_layer-eq-first state.full_snapshot key none full,
    get_layer-eq-first state.compact_delta key (first (rows_of state.full_snapshot key) none)
        compact,
    get_layer-eq-first state.realtime_delta key
        (first (rows_of state.compact_delta key) (first (rows_of state.full_snapshot key) none))
        realtime,
  )

  -- `Get` of every key, where they all answer.
  abbrev pub AllAnswer : ShardState Row → (ℕ → Option Row) → List ℕ → Type 0
  AllAnswer state row [] = Unit
  AllAnswer state row (key ∷ keys) = (get state key ≡ ok (row key)) × AllAnswer state row keys

  pub mget-eq-map :
      (state : ShardState Row) (row : ℕ → Option Row) (keys : List ℕ)
      → AllAnswer state row keys
      → mget state keys ≡ ok (map row keys)
  unfolding mget
  mget-eq-map state row [] h = refl
  mget-eq-map state row (key ∷ keys) h = ground (arith, h.0, mget-eq-map state row keys h.1)
