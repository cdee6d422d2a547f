-- ===== src/Ingest/Coordinator/Order.antt =====
-- The order in which `PollApplyCommitOnce` calls: nothing is committed that was not applied.
use kv_index.Prelude.{
  ◌≡◌, true, false, some, List, [], arith, ◌⊎◌, inl, inr, Bool-cases, Option-cases, subst, sym, ◌∷◌,
}
use kv_index.Status.{
  Status, StatusOr, ok, error, ok_status, is_ok, StatusOr-cases, normalize_status_lem,
}
use kv_index.Types.Kafka.{KafkaUpsertMessage, KafkaCheckpoint}
use kv_index.Ingest.Checkpoint.{max_offsets, build_commit_checkpoint}
use kv_index.Ingest.Checkpoint.Batch.{Commits, checkpoint-Commits}
use kv_index.Ingest.Coordinator.{
  Consumer, Applier, UpdateCoordinator, validate_batch, apply_and_commit, validate_options,
  poll_apply_commit_once,
}

module _ {C A : Type 0} (consumer_calls : Consumer C) (applier_calls : Applier A)
    (coordinator : UpdateCoordinator C A) where
  -- The call ended before it polled.
  abbrev pub NotReady : Status × UpdateCoordinator C A → Type 0
  NotReady result = (is_ok (result.0) ≡ false) × (result.1 ≡ coordinator)

  module _ (consumer : C) (applier : A) where
    abbrev pub polled : StatusOr (List KafkaUpsertMessage) × C
    polled = consumer_calls.poll coordinator.options.poll_options consumer

    -- The batch is empty or was refused: the consumer was polled, and that is all.
    abbrev pub OnlyPolled : Status × UpdateCoordinator C A → Type 0
    OnlyPolled result =
        (result.1 ≡ record coordinator { consumer = some (polled.1) })
        × (((polled.0 ≡ ok []) × (result.0 ≡ ok_status))
            ⊎ ((polled.0 ≡ error (result.0)) ⊎ (is_ok (result.0) ≡ false)))

    -- The applier failed on the batch: nothing is committed.
    abbrev pub NotCommitted : List KafkaUpsertMessage → Status × UpdateCoordinator C A → Type 0
    NotCommitted messages result =
        (is_ok (result.0) ≡ false)
        × (result ≡ (
          (applier_calls.apply_batch messages applier).0,
          record coordinator {
            consumer = some (polled.1);
            applier = some (applier_calls.apply_batch messages applier).1;
          },
        ))

    -- The applier took the whole batch, and then the consumer was told to commit it and no more.
    pub record Committed (messages : List KafkaUpsertMessage)
        (result : Status × UpdateCoordinator C A) : Type 0 where
      pub applied : is_ok (applier_calls.apply_batch messages applier).0 ≡ true
      pub checkpoint : KafkaCheckpoint
      pub commits : Commits messages checkpoint
      pub outcome : result ≡ (
        (consumer_calls.commit checkpoint (polled.1)).0,
        record coordinator {
          consumer = some (consumer_calls.commit checkpoint (polled.1)).1;
          applier = some (applier_calls.apply_batch messages applier).1;
        },
      )

    abbrev pub RunsBatch : Status × UpdateCoordinator C A → Type 0
    RunsBatch result =
        OnlyPolled result
        ⊎ ((messages : List KafkaUpsertMessage) × (polled.0 ≡ ok messages)
            × (NotCommitted messages result ⊎ Committed messages result))

    build-error :
        (messages : List KafkaUpsertMessage) (s : Status)
        → build_commit_checkpoint messages ≡ error s
        → is_ok s ≡ false
    unfolding build_commit_checkpoint
    build-error messages s h = elim (StatusOr-cases (max_offsets [] messages)) [
      | inl (out, e) ↦ absurd (ground arith)
      | inr (t, e) ↦ ground (arith, normalize_status_lem t)
    ]

    apply_and_commit-RunsBatch :
        (messages : List KafkaUpsertMessage)
        → polled.0 ≡ ok messages
        → RunsBatch
            (apply_and_commit consumer_calls applier_calls coordinator (polled.1) applier messages)
    unfolding apply_and_commit
    apply_and_commit-RunsBatch messages p =
        elim (Bool-cases (is_ok (validate_batch coordinator.options.logical_topic messages))) [
          | inr refused ↦ inl (ground arith, inr (inr (ground arith)))
          | inl valid ↦ elim (StatusOr-cases (build_commit_checkpoint messages)) [
            | inr (s, e) ↦ inl (ground arith, inr (inr (ground (arith, build-error messages s e))))
            | inl (checkpoint, e) ↦
                elim (Bool-cases (is_ok (applier_calls.apply_batch messages applier).0)) [
                  | inr failed ↦ inr (messages, p, inl (ground arith, ground arith))
                  | inl applied ↦ inr (
                    messages,
                    p,
                    inr (record {
                      applied = applied;
                      checkpoint = checkpoint;
                      commits = checkpoint-Commits messages checkpoint e;
                      outcome = ground arith;
                    }),
                  )
                ]
          ]
        ]

  abbrev result : Status × UpdateCoordinator C A
  result = poll_apply_commit_once consumer_calls applier_calls coordinator

  ran :
      (consumer : C) (applier : A)
      → coordinator.consumer ≡ some consumer
      → coordinator.applier ≡ some applier
      → is_ok (validate_options coordinator.options) ≡ true
      → RunsBatch consumer applier result
  unfolding poll_apply_commit_once
  ran consumer applier c a valid = elim (StatusOr-cases (polled consumer applier).0) [
    | inr (s, p) ↦ inl (ground arith, inr (inl (ground arith)))
    | inl ([], p) ↦ inl (ground arith, inl (p, ground arith))
    | inl (m ∷ ms, p) ↦
        let same : result
            ≡ apply_and_commit consumer_calls applier_calls coordinator (polled consumer applier).1
                applier (m ∷ ms) =
          ground arith in
        subst (RunsBatch consumer applier) (sym same)
          (apply_and_commit-RunsBatch consumer applier (m ∷ ms) p)
  ]

  -- `PollApplyCommitOnce` has one of four outcomes. It fails before it polls, and changes nothing. Or
  -- it polls, and either the poll failed, the batch was empty, or the batch was refused, and that is
  -- all; or the applier failed on the whole batch, and nothing is committed; or the applier took the
  -- whole batch, and then a checkpoint is committed that has a position behind every message of the
  -- batch, only positions right behind one of its messages, and no two of one partition.
  pub poll_apply_commit_once-Runs :
      NotReady (poll_apply_commit_once consumer_calls applier_calls coordinator)
      ⊎ ((consumer : C) × (applier : A) × (coordinator.consumer ≡ some consumer)
          × (coordinator.applier ≡ some applier)
          × RunsBatch consumer applier
              (poll_apply_commit_once consumer_calls applier_calls coordinator))
  unfolding poll_apply_commit_once
  poll_apply_commit_once-Runs = elim (Option-cases coordinator.consumer) [
    | inl no_consumer ↦ inl (ground arith, ground arith)
    | inr (consumer, c) ↦ elim (Option-cases coordinator.applier) [
      | inl no_applier ↦ inl (ground arith, ground arith)
      | inr (applier, a) ↦ elim (Bool-cases (is_ok (validate_options coordinator.options))) [
        | inr bad ↦ inl (ground arith, ground arith)
        | inl valid ↦ inr (consumer, applier, c, a, ran consumer applier c a valid)
      ]
    ]
  ]
