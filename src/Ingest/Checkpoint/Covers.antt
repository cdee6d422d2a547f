-- ===== src/Ingest/Checkpoint/Covers.antt =====
-- One round of `BuildCommitCheckpoint` on the map of offsets: what it reaches, and what it keeps.
use kv_index.Prelude.{
  ℕ, zero, suc, ℤ, pos, negsuc, ltb_ℤ, eqb_ℤ, ◌<ℤ◌, ◌≤ℤ◌, ◌≡◌, refl, ap, ◌∙◌, subst, sym, true,
  false, if◌then◌else◌, inl, inr, List, [], ◌∷◌, arith, Bool-cases, All, Any,
}
use kv_index.Types.Kafka.{KafkaPartition}
use kv_index.Ingest.Checkpoint.{text_eq, partition_eq, partition_less, raise_offset, suc_ℤ}

pub text_eq_self : (cs : List ℕ) → text_eq cs cs ≡ true
text_eq_self [] = refl
text_eq_self (c ∷ cs) = ground (arith, text_eq_self cs)

pub text_eq_lem : (cs ds : List ℕ) → text_eq cs ds ≡ true → cs ≡ ds
text_eq_lem [] [] h = refl
text_eq_lem [] (d ∷ ds) h = cc
text_eq_lem (c ∷ cs) [] h = cc
text_eq_lem (c ∷ cs) (d ∷ ds) h = ground (arith, text_eq_lem cs ds)

eqb_ℤ_lem : (a b : ℤ) → eqb_ℤ a b ≡ true → a ≡ b
eqb_ℤ_lem a b h = ground arith

eqb_ℤ_self : (a : ℤ) → eqb_ℤ a a ≡ true
eqb_ℤ_self a = ground arith

pub partition_eq_self : (a : KafkaPartition) → partition_eq a a ≡ true
partition_eq_self a = ground (arith, text_eq_self a.topic)

pub partition_eq_lem : (a b : KafkaPartition) → partition_eq a b ≡ true → a ≡ b
partition_eq_lem a b h =
    let topic : a.topic ≡ b.topic = text_eq_lem a.topic b.topic (ground arith) in
    let partition : a.partition ≡ b.partition = eqb_ℤ_lem a.partition b.partition (ground arith) in
    ground (arith, topic, partition)

pub suc_ℤ-lt : (a b : ℤ) → a ≤ℤ b → a <ℤ suc_ℤ b
suc_ℤ-lt a (pos n) h = omega arith
suc_ℤ-lt a (negsuc zero) h = omega arith
suc_ℤ-lt a (negsuc (suc n)) h = omega arith

-- The map of offsets has one of the partition that is at least the offset.
abbrev pub Reaches : KafkaPartition → ℤ → List (KafkaPartition × ℤ) → Type 0
Reaches key offset = Any (λ x. (x.0 ≡ key) × (offset ≤ℤ x.1))

module _ (key : KafkaPartition) (offset : ℤ) where
  -- The first of the three outcomes of a round, as equations.
  pub raise_here :
      (x : KafkaPartition × ℤ) (xs : List (KafkaPartition × ℤ))
      → partition_eq x.0 key ≡ true
      → raise_offset key offset (x ∷ xs) ≡ (x.0, (if ltb_ℤ (x.1) offset then offset else x.1)) ∷ xs
  unfolding raise_offset
  raise_here x xs h = ground arith

  pub raise_before :
      (x : KafkaPartition × ℤ) (xs : List (KafkaPartition × ℤ))
      → partition_eq x.0 key ≡ false
      → partition_less key (x.0) ≡ true
      → raise_offset key offset (x ∷ xs) ≡ (key, offset) ∷ x ∷ xs
  unfolding raise_offset
  raise_before x xs h less = ground arith

  pub raise_after :
      (x : KafkaPartition × ℤ) (xs : List (KafkaPartition × ℤ))
      → partition_eq x.0 key ≡ false
      → partition_less key (x.0) ≡ false
      → raise_offset key offset (x ∷ xs) ≡ x ∷ raise_offset key offset xs
  unfolding raise_offset
  raise_after x xs h more = ground arith

  pub raise-Reaches_self :
      (xs : List (KafkaPartition × ℤ)) → Reaches key offset (raise_offset key offset xs)
  unfolding raise_offset
  raise-Reaches_self [] = inl (refl, omega arith)
  raise-Reaches_self (x ∷ xs) = elim (Bool-cases (partition_eq x.0 key)) [
    | inl here ↦
        subst (Reaches key offset) (sym (raise_here x xs here))
          (inl (partition_eq_lem (x.0) key here, ground arith))
    | inr other ↦ elim (Bool-cases (partition_less key (x.0))) [
      | inl before ↦
          subst (Reaches key offset) (sym (raise_before x xs other before))
            (inl (refl, omega arith))
      | inr after ↦
          subst (Reaches key offset) (sym (raise_after x xs other after))
            (inr (raise-Reaches_self xs))
    ]
  ]

  module _ (k : KafkaPartition) (o : ℤ) where
    -- An offset that was reached stays so.
    pub raise-Reaches_old :
        (xs : List (KafkaPartition × ℤ)) → Reaches k o xs → Reaches k o (raise_offset key offset xs)
    raise-Reaches_old [] h = absurd h
    raise-Reaches_old (x ∷ xs) h = elim (Bool-cases (partition_eq x.0 key)) [
      | inl here ↦
          subst (Reaches k o) (sym (raise_here x xs here))
            (elim h [ inl first ↦ inl (first.0, ground (arith, first.1)) | inr later ↦ inr later ])
      | inr other ↦ elim (Bool-cases (partition_less key (x.0))) [
        | inl before ↦ subst (Reaches k o) (sym (raise_before x xs other before)) (inr h)
        | inr after ↦
            subst (Reaches k o) (sym (raise_after x xs other after))
              (elim h [ inl first ↦ inl first | inr later ↦ inr (raise-Reaches_old xs later) ])
      ]
    ]

  -- What holds of every entry, and of the partition with the new offset, holds of every entry after.
  pub raise-All :
      (P : KafkaPartition × ℤ → Type 0) (xs : List (KafkaPartition × ℤ))
      → All P xs
      → P (key, offset)
      → All P (raise_offset key offset xs)
  unfolding raise_offset
  raise-All P [] h new = (new, tt)
  raise-All P (x ∷ xs) h new = elim (Bool-cases (partition_eq x.0 key)) [
    | inl here ↦
        let same = partition_eq_lem (x.0) key here in
        subst (All P) (sym (raise_here x xs here)) (
          elim (Bool-cases (ltb_ℤ (x.1) offset)) [
            | inl less ↦
                subst P (ap (λ t. (t, offset)) (sym same) ∙ ap (λ (t : ℤ). (x.0, t)) (ground arith))
                  new
            | inr more ↦ subst P (ap (λ (t : ℤ). (x.0, t)) (ground arith)) (h.0)
          ],
          h.1,
        )
    | inr other ↦ elim (Bool-cases (partition_less key (x.0))) [
      | inl before ↦ subst (All P) (sym (raise_before x xs other before)) (new, h)
      | inr after ↦
          subst (All P) (sym (raise_after x xs other after)) (h.0, raise-All P xs (h.1) new)
    ]
  ]
