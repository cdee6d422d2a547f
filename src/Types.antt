-- ===== src/Types.antt =====
-- include/kv_index/types.h: serving modes and source positions.
pub mod Order
pub mod Kafka
use kv_index.Prelude.{ℤ, pos, negsuc, ltb_ℤ, eqb_ℤ, Bool, true, false, not, ◌&&◌, if◌then◌else◌}
use kv_index.Status.{StatusOr, ok, fail, invalid_argument, failed_precondition}

-- `ForwardIndexMode`; `kRealtimeDelta` and `kFullSnapshotWithRealtimeDeltaAndCompaction` are one
-- value.
pub data ForwardIndexMode : Type 0 where
  realtime_delta full_snapshot_only full_snapshot_with_realtime_delta : ForwardIndexMode

unfoldable pub uses_kafka_realtime : ForwardIndexMode → Bool
uses_kafka_realtime full_snapshot_only = false
uses_kafka_realtime _ = true

unfoldable pub uses_compact_delta : ForwardIndexMode → Bool
uses_compact_delta realtime_delta = true
uses_compact_delta _ = false

pub record SourcePosition : Type 0 where
  pub partition : ℤ
  pub offset : ℤ

pub data SourcePositionUpdateDecision : Type 0 where
  stale idempotent newer : SourcePositionUpdateDecision

unfoldable pub is_valid_source_position : SourcePosition → Bool
is_valid_source_position p = not (ltb_ℤ p.partition (pos 0)) && not (ltb_ℤ p.offset (pos 0))

unfoldable pub classify_source_position_update :
    SourcePosition → SourcePosition → StatusOr SourcePositionUpdateDecision
unfolding is_valid_source_position
classify_source_position_update current candidate =
    if not (is_valid_source_position current && is_valid_source_position candidate)
    then fail (invalid_argument "source position is invalid")
    else if not (eqb_ℤ current.partition candidate.partition)
    then fail (failed_precondition "same-key source positions are from different partitions")
    else if ltb_ℤ candidate.offset current.offset
    then ok stale
    else if eqb_ℤ candidate.offset current.offset
    then ok idempotent
    else ok newer
