-- ===== src/Ingest.antt =====
-- src/ingest: the update stream, from the consumer to the realtime tables.
pub mod Checkpoint
pub mod Coordinator
pub mod Payload
pub mod ScalarField
pub mod ListField
pub mod Encode
pub mod Applier
