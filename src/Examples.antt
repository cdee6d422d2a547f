-- ===== src/Examples.antt =====
-- The theorems at concrete inputs, and runs of the operations.
mod Applier
mod ByteIo
mod ForwardIndex
mod FrozenIndex
mod Ingest
mod Loads
mod RealtimeMap
mod RealtimeTable
mod Schema
mod Snapshot
mod Types
mod Update
