-- ===== src/Api/ForwardIndex/Bucket.antt =====
-- The two list passes of `MGet`: which positions `positions_by_shard` puts into a shard's bucket, and
-- what `scatter` writes.
use kv_index.Prelude.{
  ℕ, zero, suc, ◌+◌, ◌<◌, ltb, ◌==◌, ◌≡◌, refl, ap, ◌∙◌, Bool, false, ◌&&◌, ◌||◌, if◌then◌else◌,
  Option, none, List, [], ◌∷◌, ◌++◌, map, length, get_or, set, arith, length-set, get_or-set_self,
  get_or-set_ne, eq-cases, inl, inr,
}
use kv_index.Api.ForwardIndex.{positions_by_shard, scatter}

abbrev pub mem : ℕ → List ℕ → Bool
mem j [] = false
mem j (p ∷ ps) = p == j || mem j ps

mem-append : (j i : ℕ) (ps : List ℕ) → mem j (ps ++ i ∷ []) ≡ mem j ps || i == j
mem-append j i [] = ground arith
mem-append j i (p ∷ ps) = ground (arith, mem-append j i ps)

module _ (shard_of : ℕ → ℕ) where
  -- Position `j` of the keys, the first of which has position `i`, has a key of the shard.
  unfoldable pub falls : (s j i : ℕ) → List ℕ → Bool
  falls s j i [] = false
  falls s j i (key ∷ keys) = (i == j && shard_of key == s) || falls s j (i + 1) keys

  falls_past : (s j i : ℕ) (keys : List ℕ) → j < i → falls s j i keys ≡ false
  unfolding falls
  falls_past s j i [] h = refl
  falls_past s j i (key ∷ keys) h = ground (arith, falls_past s j (i + 1) keys (omega arith))

  pub falls-at :
      (s d i : ℕ) (keys : List ℕ)
      → falls s (i + d) i keys ≡ ltb d (length keys) && shard_of (get_or keys d 0) == s
  unfolding falls
  falls-at s d i [] = ground arith
  falls-at s zero i (key ∷ keys) = ground (arith, falls_past s (i + 0) (i + 1) keys (omega arith))
  falls-at s (suc d) i (key ∷ keys) =
      let shift : i + suc d ≡ i + 1 + d = omega arith in
      ground (arith, ap (λ (t : ℕ). falls s t (i + 1) keys) shift, falls-at s d (i + 1) keys)

  -- The bucket of one shard after a key was put into another's or its own.
  mem-push :
      (s j i key : ℕ) (positions : List (List ℕ))
      → shard_of key < length positions
      → mem j (
          get_or (set positions (shard_of key) (get_or positions (shard_of key) [] ++ i ∷ [])) s [])
        ≡ mem j (get_or positions s []) || (i == j && shard_of key == s)
  mem-push s j i key positions h = elim (eq-cases (shard_of key) s) [
    | inl same ↦ ground (
      arith,
      ap (λ (t : ℕ). mem j (get_or positions t [])) same,
      ap
          (λ (t : ℕ). mem j (
            get_or (set positions (shard_of key) (get_or positions (shard_of key) [] ++ i ∷ [])) t
              []))
          same,
      ap (mem j) (
          get_or-set_self positions (shard_of key) (get_or positions (shard_of key) [] ++ i ∷ []) []
            h),
      mem-append j i (get_or positions (shard_of key) []),
    )
    | inr other ↦ ground (
      arith,
      ap (mem j) (
          get_or-set_ne positions (shard_of key) s (get_or positions (shard_of key) [] ++ i ∷ []) []
            other),
    )
  ]

  pub mem-positions :
      (s j i : ℕ) (keys : List ℕ) (positions : List (List ℕ))
      → ((key : ℕ) → shard_of key < length positions)
      → mem j (get_or (positions_by_shard shard_of i keys positions) s [])
        ≡ mem j (get_or positions s []) || falls s j i keys
  unfolding positions_by_shard falls
  mem-positions s j i [] positions h = ground arith
  mem-positions s j i (key ∷ keys) positions h =
      let pushed : List (List ℕ) =
        set positions (shard_of key) (get_or positions (shard_of key) [] ++ i ∷ []) in
      ground (
        arith,
        mem-positions s j (i + 1) keys pushed (λ k. omega (
          arith,
          h k,
          length-set positions (shard_of key) (get_or positions (shard_of key) [] ++ i ∷ []),
        )),
        mem-push s j i key positions (h key),
      )

module _ {Row : Type 0} (f : ℕ → Option Row) where
  pub length-scatter :
      (ps : List ℕ) (rows : List (Option Row)) → length (scatter rows ps (map f ps)) ≡ length rows
  unfolding scatter
  length-scatter [] rows = refl
  length-scatter (p ∷ ps) rows = length-scatter ps (set rows p (f p)) ∙ length-set rows p (f p)

  pub get_or-scatter :
      (ps : List ℕ) (rows : List (Option Row)) (j : ℕ)
      → j < length rows
      → get_or (scatter rows ps (map f ps)) j none ≡ (if mem j ps then f j else get_or rows j none)
  unfolding scatter
  get_or-scatter [] rows j h = refl
  get_or-scatter (p ∷ ps) rows j h =
      let rest = get_or-scatter ps (set rows p (f p)) j (omega (arith, length-set rows p (f p))) in
      elim (eq-cases p j) [
        | inl same ↦ ground (
          arith,
          rest,
          ap (λ (t : ℕ). get_or (set rows p (f p)) t none) same,
          get_or-set_self rows p (f p) none (omega arith),
          ap f same,
        )
        | inr other ↦ ground (arith, rest, get_or-set_ne rows p j (f p) none other)
      ]
