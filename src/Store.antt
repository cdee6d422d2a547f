-- ===== src/Store.antt =====
-- src/store/: the realtime delta and the snapshots.
pub mod RealtimeMap
pub mod RealtimeTable
pub mod Snapshot
pub mod FrozenIndex
