-- ===== src/Ingest/Checkpoint/Batch.antt =====
-- `BuildCommitCheckpoint` on a batch: its positions stand behind the batch's messages, and each right
-- behind one of them.
use kv_index.Prelude.{
  subst, ℤ, eqb_ℤ, ◌<ℤ◌, ◌≡◌, ◌≢◌, ap, true, refl, false, List, [], ◌∷◌, map, arith, inl, inr, All,
  Any, All-map, Any-map, map-All, map-Any, All-Any,
}
use kv_index.Status.{ok, StatusOr-cases}
use kv_index.Types.Kafka.{KafkaPartition, KafkaPosition, KafkaUpsertMessage, KafkaCheckpoint}
use kv_index.Ingest.Checkpoint.{
  partition_less, raise_offset, max_offsets, int64_max, suc_ℤ, next_offset, build_commit_checkpoint,
}
use kv_index.Ingest.Checkpoint.Ordered.{Ascends, raise-Ascends, partition_less_irrefl}
use kv_index.Ingest.Checkpoint.Covers.{
  suc_ℤ-lt, Reaches, raise-Reaches_self, raise-Reaches_old, raise-All,
}

-- A position of the message's partition behind its offset.
abbrev pub IsBehind : KafkaUpsertMessage → KafkaPosition → Type 0
IsBehind message position =
    (position.partition ≡ message.metadata.partition) × (message.metadata.offset <ℤ position.offset)

-- The position right behind the message.
abbrev pub IsNext : KafkaPosition → KafkaUpsertMessage → Type 0
IsNext position message =
    (position.partition ≡ message.metadata.partition)
    × (position.offset ≡ suc_ℤ message.metadata.offset)

-- No two positions are of one partition.
abbrev pub AreDistinct : List KafkaPosition → Type 0
AreDistinct [] = Unit
AreDistinct (p ∷ ps) = All (λ q. p.partition ≢ q.partition) ps × AreDistinct ps

-- A checkpoint commits a batch and no more: behind every message of the batch stands a position, every
-- position stands right behind a message of the batch, and a partition has one position.
pub record Commits (messages : List KafkaUpsertMessage) (checkpoint : KafkaCheckpoint)
    : Type 0 where
  pub behind : All (λ message. Any (IsBehind message) checkpoint.next_offsets) messages
  pub exact : All (λ position. Any (IsNext position) messages) checkpoint.next_offsets
  pub one_each : AreDistinct checkpoint.next_offsets

abbrev entry : KafkaUpsertMessage → KafkaPartition × ℤ
entry message = (message.metadata.partition, message.metadata.offset)

abbrev after_message : List (KafkaPartition × ℤ) → KafkaUpsertMessage → List (KafkaPartition × ℤ)
after_message offsets message =
    raise_offset message.metadata.partition message.metadata.offset offsets

-- A round of the loop that succeeds.
max_offsets-next :
    (offsets : List (KafkaPartition × ℤ)) (m : KafkaUpsertMessage) (ms : List KafkaUpsertMessage)
    (out : List (KafkaPartition × ℤ))
    → max_offsets offsets (m ∷ ms) ≡ ok out
    → max_offsets (after_message offsets m) ms ≡ ok out
unfolding max_offsets
max_offsets-next offsets m ms out h = ground arith

max_offsets-kept :
    (ms : List KafkaUpsertMessage) (offsets out : List (KafkaPartition × ℤ)) (k : KafkaPartition)
    (o : ℤ)
    → max_offsets offsets ms ≡ ok out
    → Reaches k o offsets
    → Reaches k o out
unfolding max_offsets
max_offsets-kept [] offsets out k o h r = subst (Reaches k o) (ground arith) r
max_offsets-kept (m ∷ ms) offsets out k o h r =
    max_offsets-kept ms (after_message offsets m) out k o (max_offsets-next offsets m ms out h)
      (raise-Reaches_old m.metadata.partition m.metadata.offset k o offsets r)

max_offsets-reached :
    (ms : List KafkaUpsertMessage) (offsets out : List (KafkaPartition × ℤ))
    → max_offsets offsets ms ≡ ok out
    → All (λ (m : KafkaUpsertMessage). Reaches m.metadata.partition m.metadata.offset out) ms
max_offsets-reached [] offsets out h = tt
max_offsets-reached (m ∷ ms) offsets out h =
    let rest = max_offsets-next offsets m ms out h in
    (
      max_offsets-kept ms (after_message offsets m) out m.metadata.partition m.metadata.offset rest
          (raise-Reaches_self m.metadata.partition m.metadata.offset offsets),
      max_offsets-reached ms (after_message offsets m) out rest,
    )

max_offsets-All :
    (P : KafkaPartition × ℤ → Type 0) (ms : List KafkaUpsertMessage)
    (offsets out : List (KafkaPartition × ℤ))
    → max_offsets offsets ms ≡ ok out
    → All P offsets
    → All (λ (m : KafkaUpsertMessage). P (entry m)) ms
    → All P out
unfolding max_offsets
max_offsets-All P [] offsets out h old new = subst (All P) (ground arith) old
max_offsets-All P (m ∷ ms) offsets out h old new =
    max_offsets-All P ms (after_message offsets m) out (max_offsets-next offsets m ms out h)
      (raise-All m.metadata.partition m.metadata.offset P offsets old (new.0)) (new.1)

max_offsets-Ascends :
    (ms : List KafkaUpsertMessage) (offsets out : List (KafkaPartition × ℤ))
    → max_offsets offsets ms ≡ ok out
    → Ascends offsets
    → Ascends out
unfolding max_offsets
max_offsets-Ascends [] offsets out h old = subst Ascends (ground arith) old
max_offsets-Ascends (m ∷ ms) offsets out h old =
    max_offsets-Ascends ms (after_message offsets m) out (max_offsets-next offsets m ms out h)
      (raise-Ascends m.metadata.partition m.metadata.offset offsets old)

less-ne : (a b : KafkaPartition) → partition_less a b ≡ true → a ≢ b
less-ne a b less same = cc (less, partition_less_irrefl b, ap (λ t. partition_less t b) same)

Ascends-AreDistinct :
    (out : List (KafkaPartition × ℤ)) → Ascends out → AreDistinct (map next_offset out)
Ascends-AreDistinct [] h = tt
Ascends-AreDistinct (x ∷ xs) h = (
  map-All (λ q. x.0 ≢ q.partition) next_offset xs
      (All-map xs (λ y less. less-ne (x.0) (y.0) less) (h.0)),
  Ascends-AreDistinct xs (h.1),
)

-- Unless a message has the greatest offset, the loop succeeds.
max_offsets-total :
    (ms : List KafkaUpsertMessage) (offsets : List (KafkaPartition × ℤ))
    → All (λ (m : KafkaUpsertMessage). eqb_ℤ m.metadata.offset int64_max ≡ false) ms
    → (out : List (KafkaPartition × ℤ)) × (max_offsets offsets ms ≡ ok out)
unfolding max_offsets
max_offsets-total [] offsets h = (offsets, refl)
max_offsets-total (m ∷ ms) offsets h =
    let rest = max_offsets-total ms (after_message offsets m) (h.1) in
    (rest.0, ground (arith, h.0, rest.1))

offsets-Commits :
    (messages : List KafkaUpsertMessage) (out : List (KafkaPartition × ℤ))
    → max_offsets [] messages ≡ ok out
    → Commits messages (record { next_offsets = map next_offset out })
offsets-Commits messages out h = record {
  behind =
      All-map messages
        (λ m reached.
          map-Any (IsBehind m) next_offset out
            (Any-map out (λ x r. (r.0, suc_ℤ-lt m.metadata.offset (x.1) (r.1))) reached))
        (max_offsets-reached messages [] out h);
  exact =
      map-All (λ position. Any (IsNext position) messages) next_offset out
        (max_offsets-All (λ x. Any (IsNext (next_offset x)) messages) messages [] out h tt
          (All-Any (λ (m n : KafkaUpsertMessage). IsNext (next_offset (entry m)) n) messages
            (λ m. (refl, refl))));
  one_each = Ascends-AreDistinct out (max_offsets-Ascends messages [] out h tt);
}

-- For a batch in which no message has the greatest 64-bit offset, `BuildCommitCheckpoint` returns a
-- checkpoint; for every message it has a position of the message's partition behind the message's
-- offset, every position of it is the one right behind some message of the batch, and no two of its
-- positions are of one partition.
pub build_commit_checkpoint-Commits :
    (messages : List KafkaUpsertMessage)
    → All (λ (m : KafkaUpsertMessage). eqb_ℤ m.metadata.offset int64_max ≡ false) messages
    → (checkpoint : KafkaCheckpoint) × (build_commit_checkpoint messages ≡ ok checkpoint)
      × Commits messages checkpoint
unfolding build_commit_checkpoint
build_commit_checkpoint-Commits messages h =
    let r = max_offsets-total messages [] h in
    (
      record { next_offsets = map next_offset (r.0) },
      ground (arith, r.1),
      offsets-Commits messages (r.0) (r.1),
    )

-- The same of any checkpoint that it returns.
pub checkpoint-Commits :
    (messages : List KafkaUpsertMessage) (checkpoint : KafkaCheckpoint)
    → build_commit_checkpoint messages ≡ ok checkpoint
    → Commits messages checkpoint
unfolding build_commit_checkpoint
checkpoint-Commits messages checkpoint h = elim (StatusOr-cases (max_offsets [] messages)) [
  | inl (out, e) ↦ subst (Commits messages) (ground arith) (offsets-Commits messages out e)
  | inr (s, e) ↦ absurd (ground arith)
]
