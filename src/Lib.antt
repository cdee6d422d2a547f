-- ===== src/Lib.antt =====
-- A forward index: rows of typed fields, encoded by a schema's compiled layout, found by a 64-bit
-- primary key. A shard answers from a realtime table that a stream of updates feeds, then from a
-- compacted delta snapshot, then from a full snapshot; frozen snapshots find their rows through an
-- immutable hash index in a span of bytes.
--
-- Status.antt       include/kv_index/status.h: error values.
-- Types.antt        include/kv_index/types.h: index modes, source positions and which of two is newer.
-- Base.antt         src/base: bit tests, the hash, little-endian integers and references in bytes.
-- Schema.antt       include/kv_index/schema.h, src/model/schema.cc: the schema's history (AddField,
--                   DeleteField), the names of encodings, the layout fingerprint, Compile.
-- Model.antt        include/kv_index/row.h, src/model/row_storage.h: encoded rows, presence bits,
--                   MaterializeRow (Model/Row.antt), the values of a row (Model/Value.antt), the writers
--                   of its fields (Model/Write.antt), Has, Get and GetList (Model/Read.antt).
-- Store/RealtimeMap.antt  src/store/realtime_delta.cc, RealtimeAtomicHashMap: Publish, Get and their
--                   probe loops.
-- Store/RealtimeTable.antt  src/store/realtime_delta.cc, RealtimeDeltaAtomicTable: Publish, Get,
--                   ScanVisibleRows.
-- Store/FrozenIndex.antt  src/store/frozen_primary_key_index.cc: capacity, header, Validate, Lookup,
--                   Entries, Build.
-- Store/Snapshot.antt  src/store/snapshot.cc: rows of a snapshot, Get of a view, enumeration.
-- Runtime/ShardState.antt      src/runtime/shard_state.cc: Get and MGet over a shard's three layers.
-- Runtime/ShardDirectory.antt  src/runtime/shard_directory.cc: publication and reads of shard states.
-- Api/ForwardIndex.antt  src/api/forward_index.cc: the constructor's checks, ShardFor, Get, MGet.
-- Api/Loads.antt    src/api/forward_index.cc: the states of loads, their cancellation.
-- Ingest/Checkpoint.antt   src/ingest/update_coordinator.cc: the checkpoint of a batch.
-- Ingest/Payload.antt      src/ingest/update_applier.cc: the decoder of an update's payload.
-- Ingest/ScalarField.antt, Ingest/ListField.antt, Ingest/Encode.antt  src/ingest/update_applier.cc:
--                   EncodeForLayout, which makes a row of a decoded payload.
-- Ingest/Applier.antt      src/ingest/update_applier.cc: ValidateOptions, Apply, ApplyBatch.
-- Ingest/Coordinator.antt  src/ingest/update_coordinator.cc: PollApplyCommitOnce.
--
-- How the parts meet. ForwardIndex reads shard states through the directory; a load's worker publishes
-- them. A shard state reads its layers by `Layer`, the `Get` of the realtime table and of the snapshot
-- views (`snapshot_layer` makes a layer of a view); the coordinator calls its consumer and its applier by
-- `Consumer` and `Applier`; `applier_of` makes that interface of the update applier, whose state is the
-- store of the realtime tables that its routes point into: a pointer is the number of a table. The rows
-- of the index are a parameter `Row` there.
--
-- Not modelled: the Kafka consumer over librdkafka, allocations that fail,
-- the worker of a load (its steps on the load's state are), artifact files and their memory mapping,
-- snapshot building, compaction and rebase, the offline builder.
--
-- How the code is modelled. A number of a machine type is a natural number; where the code can wrap
-- round, `u64` writes the remainder by 2 ^ 64 out. A signed number is an integer. A span of bytes is a
-- list of numbers. A call that changes an object returns the object after the call beside its result.
-- An exception that a read of a row throws is an error. The bounds checks of a read are those of the
-- code; a vector that the code indexes without a check has the place, or the model's default is read.
-- An operation that other threads cannot interrupt, because a mutex is held around it, is one step.
--
-- The loops over probes and slots run on the number that the code counts down from. The loop of
-- CalculateCapacity runs on 64 rounds: the capacity doubles from 16 on and the code gives up before
-- 2 ^ 64, so no run needs more. The loop of Build that looks for an empty slot runs on as many rounds as
-- there are slots.
--
-- Names: an operation has its C++ name in snake case; a loop of an operation, or the part of it that
-- starts at some line, has the name of the operation with `_loop` or a word for what it does.
mod Prelude
pub mod Status
pub mod Types
pub mod Base
pub mod Schema
pub mod Model
pub mod Store
pub mod Runtime
pub mod Api
pub mod Ingest
mod Examples
