-- ===== src/Ingest/Checkpoint/Ordered.antt =====
-- The map of offsets stays in the order of its partitions, so it has one offset for each.
use kv_index.Prelude.{
  ℕ, ℤ, ◌≡◌, refl, sym, ap, subst, true, false, List, [], ◌∷◌, arith, All, All-map, Bool-cases, inl,
  inr,
}
use kv_index.Types.Kafka.{KafkaPartition}
use kv_index.Ingest.Checkpoint.{text_eq, text_less, partition_eq, partition_less, raise_offset}
use kv_index.Ingest.Checkpoint.Covers.{
  raise_here, raise_before, raise_after, raise-All, text_eq_lem, text_eq_self,
}

text_less_trans :
    (a b c : List ℕ) → text_less a b ≡ true → text_less b c ≡ true → text_less a c ≡ true
text_less_trans a b [] p q = cc
text_less_trans a [] (z ∷ c) p q = cc
text_less_trans [] (y ∷ b) (z ∷ c) p q = refl
text_less_trans (x ∷ a) (y ∷ b) (z ∷ c) p q = ground (arith, text_less_trans a b c)

text_less_total :
    (a b : List ℕ) → text_eq a b ≡ false → text_less a b ≡ false → text_less b a ≡ true
text_less_total [] [] p q = cc
text_less_total [] (y ∷ b) p q = cc
text_less_total (x ∷ a) [] p q = refl
text_less_total (x ∷ a) (y ∷ b) p q = ground (arith, text_less_total a b)

text_less_irrefl : (a : List ℕ) → text_less a a ≡ false
text_less_irrefl [] = refl
text_less_irrefl (x ∷ a) = ground (arith, text_less_irrefl a)

partition_less_trans :
    (a b c : KafkaPartition)
    → partition_less a b ≡ true
    → partition_less b c ≡ true
    → partition_less a c ≡ true
partition_less_trans a b c p q = elim (Bool-cases (text_eq a.topic b.topic)) [
  | inl ab ↦
      let ab' : a.topic ≡ b.topic = text_eq_lem a.topic b.topic ab in
      elim (Bool-cases (text_eq b.topic c.topic)) [
        | inl bc ↦
            let bc' : b.topic ≡ c.topic = text_eq_lem b.topic c.topic bc in
            ground (
              arith,
              ab,
              bc,
              ap (λ t. text_less t b.topic) ab',
              ap (λ t. text_less t c.topic) bc',
              text_less_irrefl b.topic,
              text_less_irrefl c.topic,
              ap (λ t. text_eq t c.topic) ab',
            )
        | inr bc ↦ ground (arith, ab, bc, ap (λ t. text_less t c.topic) ab')
      ]
  | inr ab ↦ elim (Bool-cases (text_eq b.topic c.topic)) [
    | inl bc ↦
        let bc' : b.topic ≡ c.topic = text_eq_lem b.topic c.topic bc in
        ground (arith, ab, bc, ap (text_less a.topic) bc')
    | inr bc ↦ ground (arith, ab, bc, text_less_trans a.topic b.topic c.topic)
  ]
]

partition_less_total :
    (a b : KafkaPartition)
    → partition_eq a b ≡ false
    → partition_less b a ≡ false
    → partition_less a b ≡ true
partition_less_total a b p q = elim (Bool-cases (text_eq a.topic b.topic)) [
  | inl same ↦
      let e : a.topic ≡ b.topic = text_eq_lem a.topic b.topic same in
      ground (
        arith,
        same,
        ap (λ t. text_eq t a.topic) e,
        ap (λ t. text_eq b.topic t) e,
        text_eq_self b.topic,
      )
  | inr other ↦ elim (Bool-cases (text_less a.topic b.topic)) [
    | inl less ↦ ground (arith, less)
    | inr more ↦ ground (arith, other, more, text_less_total a.topic b.topic)
  ]
]

pub partition_less_irrefl : (a : KafkaPartition) → partition_less a a ≡ false
partition_less_irrefl a = ground (arith, text_less_irrefl a.topic)

-- The keys ascend.
abbrev pub Ascends : List (KafkaPartition × ℤ) → Type 0
Ascends [] = Unit
Ascends (x ∷ xs) = All (λ y. partition_less (x.0) (y.0) ≡ true) xs × Ascends xs

pub raise-Ascends :
    (key : KafkaPartition) (offset : ℤ) (xs : List (KafkaPartition × ℤ))
    → Ascends xs
    → Ascends (raise_offset key offset xs)
unfolding raise_offset
raise-Ascends key offset [] h = (tt, tt)
raise-Ascends key offset (x ∷ xs) h = elim (Bool-cases (partition_eq x.0 key)) [
  | inl here ↦ subst Ascends (sym (raise_here key offset x xs here)) (h.0, h.1)
  | inr other ↦ elim (Bool-cases (partition_less key (x.0))) [
    | inl before ↦
        subst Ascends (sym (raise_before key offset x xs other before)) (
          (before, All-map xs (λ y less. partition_less_trans key (x.0) (y.0) before less) (h.0)),
          h,
        )
    | inr after ↦ subst Ascends (sym (raise_after key offset x xs other after)) (
      raise-All key offset (λ y. partition_less (x.0) (y.0) ≡ true) xs (h.0)
          (partition_less_total (x.0) key other after),
      raise-Ascends key offset xs (h.1),
    )
  ]
]
