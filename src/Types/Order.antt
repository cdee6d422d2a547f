-- ===== src/Types/Order.antt =====
-- `ClassifySourcePositionUpdate`: when a position is newer than another.
use kv_index.Prelude.{◌<ℤ◌, ◌≡◌, ◌↔◌, true, arith}
use kv_index.Status.{ok}
use kv_index.Types.{
  SourcePosition, newer, is_valid_source_position, classify_source_position_update,
}

-- Both positions are valid and of one partition.
pub record IsComparable (a b : SourcePosition) : Type 0 where
  pub left : is_valid_source_position a ≡ true
  pub right : is_valid_source_position b ≡ true
  pub partition : a.partition ≡ b.partition

-- A candidate is newer exactly when the positions are comparable and its offset is the greater.
pub classify-newer_iff :
    (a b : SourcePosition)
    → (classify_source_position_update a b ≡ ok newer) ↔ IsComparable a b × (a.offset <ℤ b.offset)
unfolding classify_source_position_update
classify-newer_iff a b = (λ h. ground arith, λ h. ground arith)
