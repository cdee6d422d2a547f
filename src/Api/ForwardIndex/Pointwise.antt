-- ===== src/Api/ForwardIndex/Pointwise.antt =====
-- `MGet` is `Get` of every key.
use kv_index.Prelude.{
  ℕ, zero, suc, ◌+◌, ◌<◌, ltb, ◌==◌, ◌≡◌, refl, sym, ap, ◌∙◌, true, false, ◌&&◌, if◌then◌else◌,
  Option, none, some, List, [], ◌∷◌, map, length, get_or, replicate, arith, inl, inr,
  length-replicate, get_or-replicate, eq-cases, subst, Option-cases, ◌⊎◌,
}
use kv_index.Status.{ok}
use kv_index.Runtime.ShardState.{ShardState, AllAnswer, mget-eq-map}
use kv_index.Runtime.ShardState as ShardState
use kv_index.Runtime.ShardDirectory.{load}
use kv_index.Api.ForwardIndex.{
  returns, ForwardIndex, shard_for, get, positions_by_shard, scatter, mget_shard, mget_shards, mget,
  throw_status, is_nil,
}
use kv_index.Api.ForwardIndex.WellFormed.{IsWellFormed, AllReturn, all_at, shard_for-lt}
use kv_index.Prelude.{list_ext, get_or-map, length-map, map-map}
use kv_index.Api.ForwardIndex.Bucket.{mem, falls-at, mem-positions, length-scatter, get_or-scatter}

module _ {Row : Type 0} (index : ForwardIndex Row) (row : ℕ → Option Row) (keys : List ℕ)
    (well : IsWellFormed index) (all : AllReturn index row keys) where
  abbrev shard_at : ℕ → ℕ
  shard_at j = shard_for index (get_or keys j 0)

  -- The rows after the shards below `s`.
  abbrev Filled : ℕ → List (Option Row) → Type 0
  Filled s rows =
      (length rows ≡ length keys)
      × ((j : ℕ)
          → j < length keys
          → get_or rows j none ≡ (if ltb (shard_at j) s then row (get_or keys j 0) else none))

  abbrev buckets : List (List ℕ)
  buckets = positions_by_shard (shard_for index) 0 keys (replicate index.options.shard_count [])

  mem-bucket : (s j : ℕ) → mem j (get_or buckets s []) ≡ ltb j (length keys) && shard_at j == s
  mem-bucket s j = ground (
    arith,
    mem-positions (shard_for index) s j 0 keys (replicate index.options.shard_count []) (λ k.
        omega (
          arith,
          shard_for-lt index k well.power,
          length-replicate {A = List ℕ} index.options.shard_count [],
        )),
    ap (mem j) (get_or-replicate {A = List ℕ} index.options.shard_count s []),
    falls-at (shard_for index) s j 0 keys,
  )

  -- A bucket holds positions of keys of its shard.
  abbrev AllIn : ℕ → List ℕ → Type 0
  AllIn s ps = (j : ℕ) → mem j ps ≡ true → (j < length keys) × (shard_at j ≡ s)

  bucket-AllIn : (s : ℕ) → AllIn s (get_or buckets s [])
  bucket-AllIn s j h = ground (arith, mem-bucket s j)

  -- What `Get` returned for a key of the shard, the shard's state answers.
  answers :
      (s : ℕ) (shard : ShardState Row) (j : ℕ)
      → load index.shard_directory s ≡ ok (some shard)
      → j < length keys
      → shard_at j ≡ s
      → ShardState.get shard (get_or keys j 0) ≡ ok (row (get_or keys j 0))
  unfolding get throw_status
  answers s shard j loaded b here =
      ground
        (arith, all_at index row keys j all b, ap (λ (t : ℕ). load index.shard_directory t) here)

  no_row :
      (s j : ℕ)
      → load index.shard_directory s ≡ ok none
      → j < length keys
      → shard_at j ≡ s
      → row (get_or keys j 0) ≡ none
  unfolding get throw_status
  no_row s j loaded b here =
      ground
        (arith, all_at index row keys j all b, ap (λ (t : ℕ). load index.shard_directory t) here)

  all_answer :
      (s : ℕ) (shard : ShardState Row) (ps : List ℕ)
      → load index.shard_directory s ≡ ok (some shard)
      → AllIn s ps
      → AllAnswer shard row (map (λ (p : ℕ). get_or keys p 0) ps)
  all_answer s shard [] loaded h = tt
  all_answer s shard (p ∷ ps) loaded h =
      let here = h p (ground arith) in
      (
        answers s shard p loaded here.0 here.1,
        all_answer s shard ps loaded (λ j m. h j (ground arith)),
      )

  -- A shard's round fills the rows of its keys.
  abbrev Round : ℕ → List (Option Row) → Type 0
  Round s rows =
      (rows' : List (Option Row)) × (mget_shard index keys (get_or buckets s []) s rows
        ≡ returns rows')
      × Filled (suc s) rows'

  -- Rows to which the round adds nothing, since no key of the shard has a row.
  kept :
      (s : ℕ) (rows : List (Option Row))
      → Filled s rows
      → ((j : ℕ) → j < length keys → shard_at j ≡ s → row (get_or keys j 0) ≡ none)
      → Filled (suc s) rows
  kept s rows filled missing = (
    filled.0,
    λ j b. elim (eq-cases (shard_at j) s) [
      | inl here ↦ ground (arith, filled.1 j b, missing j b here)
      | inr other ↦ ground (arith, filled.1 j b)
    ],
  )

  scatter-Filled :
      (s : ℕ) (rows : List (Option Row))
      → Filled s rows
      → Filled (suc s) (
          scatter rows
            (get_or buckets s [])
            (map (λ (p : ℕ). row (get_or keys p 0)) (get_or buckets s [])))
  scatter-Filled s rows filled = (
    length-scatter (λ (p : ℕ). row (get_or keys p 0)) (get_or buckets s []) rows ∙ filled.0,
    λ j b. ground (
      arith,
      get_or-scatter (λ (p : ℕ). row (get_or keys p 0)) (get_or buckets s []) rows j
          (omega (arith, filled.0)),
      mem-bucket s j,
      filled.1 j b,
    ),
  )

  load-total :
      (s : ℕ)
      → s < index.options.shard_count
      → (o : Option (ShardState Row)) × (load index.shard_directory s ≡ ok o)
  unfolding load
  load-total s h = (get_or index.shard_directory.shards s none, ground (arith, well.same_count))

  nil-cases : (ps : List ℕ) → (ps ≡ []) ⊎ (is_nil ps ≡ false)
  nil-cases [] = inl refl
  nil-cases (p ∷ ps) = inr refl

  round :
      (s : ℕ) (rows : List (Option Row))
      → s < index.options.shard_count
      → Filled s rows
      → Round s rows
  unfolding mget_shard
  round s rows h filled =
      let ps = get_or buckets s [] in
      let loaded = load-total s h in
      elim (nil-cases ps) [
        | inl nobody ↦ (
          rows,
          ground (arith, nobody),
          kept s rows filled
              (λ j b here. absurd (ground (arith, mem-bucket s j, ap (mem j) nobody))),
        )
        | inr some_key ↦ elim (Option-cases loaded.0) [
          | inl empty_shard ↦ (
            rows,
            ground (arith, loaded.1, empty_shard, some_key),
            kept s rows filled (λ j b here. no_row s j (loaded.1 ∙ ap ok empty_shard) b here),
          )
          | inr (shard, e) ↦
              let at = loaded.1 ∙ ap ok e in
              let key_at : ℕ → ℕ = λ p. get_or keys p 0 in
              let read =
                mget-eq-map shard row (map key_at ps) (all_answer s shard ps at (bucket-AllIn s)) in
              (
                scatter rows ps (map (λ (p : ℕ). row (get_or keys p 0)) ps),
                ground (
                  arith,
                  at,
                  some_key,
                  read,
                  map-map row key_at ps,
                  length-map (λ (p : ℕ). row (get_or keys p 0)) ps,
                ),
                scatter-Filled s rows filled,
              )
        ]
      ]

  rounds :
      (left s : ℕ) (rows : List (Option Row))
      → s + left ≡ index.options.shard_count
      → Filled s rows
      → (rows' : List (Option Row)) × (mget_shards index keys buckets left s rows ≡ returns rows')
        × Filled index.options.shard_count rows'
  unfolding mget_shards
  rounds zero s rows e filled = (rows, refl, subst (λ t. Filled t rows) (omega arith) filled)
  rounds (suc left) s rows e filled =
      let first = round s rows (omega arith) filled in
      let rest =
        rounds left (s + 1) (first.0) (omega arith)
          (subst (λ t. Filled t (first.0)) (omega arith) (first.2)) in
      (rest.0, ground (arith, first.1, rest.1), rest.2)

  -- On an index as the constructor sets it up, and where `Get` returns for every key of a list, `MGet`
  -- of the list returns what `Get` returns for each of its keys, in the order of the list.
  pub mget-eq-map_get : mget index keys ≡ returns (map row keys)
  unfolding mget
  mget-eq-map_get =
      let start : Filled 0 (replicate (length keys) none) = (
        length-replicate (length keys) none,
        λ j b. ground (arith, get_or-replicate {A = Option Row} (length keys) j none),
      ) in
      let done =
        rounds index.options.shard_count 0 (replicate (length keys) none) (omega arith) start in
      done.1
      ∙ ap returns (
          list_ext (done.0) (map row keys) none (done.2.0 ∙ sym (length-map row keys)) (λ j b.
            ground (
              arith,
              done.2.0,
              done.2.1 j (omega (arith, done.2.0)),
              shard_for-lt index (get_or keys j 0) well.power,
              get_or-map row keys j 0 none (omega (arith, done.2.0)),
            )))
