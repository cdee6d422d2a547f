-- ===== src/Runtime.antt =====
-- src/runtime: the state of a shard, and the directory of the published states.
pub mod ShardState
pub mod ShardDirectory
