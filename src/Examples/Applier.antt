-- ===== src/Examples/Applier.antt =====
-- An update that is applied to a table, and a coordinator that commits it.
use kv_index.Prelude.{arith, ℕ, pos, ◌≡◌, refl, true, some, List, [], ◌∷◌, ◌⊎◌, All, get_elem?}
use kv_index.Status.{ok, ok_status, is_ok}
use kv_index.Types.{is_valid_source_position, classify_source_position_update, SourcePosition}
use kv_index.Types.Kafka.{KafkaUpsertMessage, KafkaPosition}
use kv_index.Schema.Layout.{compile}
use kv_index.Store.RealtimeTable.{create, RealtimeDeltaAtomicTable}
use kv_index.Store.RealtimeTable.Consistent.{create-Consistent}
use kv_index.Ingest.Applier.{
  UpdateTargetRoute, UpdateApplierOptions, Tables, active, apply, apply_batch, prepare_message,
}
use kv_index.Ingest.Applier.Stored.{AllConsistent, ShowsFrom}
use kv_index.Ingest.Applier.Prepared.{IsRejected, IsAccepted, apply-PreparesFirst}
use kv_index.Ingest.Applier.Updates.{
  ShowsMessage, apply_batch-keeps, apply_batch-ShowsMessages, apply-other_keys,
}
use kv_index.Ingest.Applier.{
  prepare_all, prepare, publish_all, publish_to, validate_options, check_routes, check_route,
  check_shards, validate_message_metadata, shard_for,
}
use kv_index.Ingest.Payload.{
  decode_payload, decode_fields, read_field, contains, wire_kind, decode_value, read_exact_integer,
  read_integer,
}
use kv_index.Base.ByteIo.{
  read_little_endian, check_span_bounds, write_value_ref16, write_little_endian,
}
use kv_index.Model.Value.{signed_of, scalar_type, scalar_bits, unsigned_of}
use kv_index.Schema.Layout.{
  build_fingerprint, fingerprint_fields, fingerprint_field, layout_of, sort_by_id, insert_by_id,
  place_fixed, place_refs, field_layouts, field_layout, is_ref_field, find_layout,
}
use kv_index.Schema.Fingerprint.{
  fingerprint_byte, fingerprint_bytes, fingerprint_uint64, fingerprint_chars, fingerprint_string,
  fingerprint_alternative, fingerprint_default, index,
}
use kv_index.Schema.{field_type_alignment, field_type_size, has_default}
use kv_index.Ingest.Encode.{encode_for_layout, encode_fields, encode_field}
use kv_index.Model.Write.{
  create_encoded_row, write_scalar_field, write_arena_string_field, write_value_ref_field,
  finish_write, set_field_present,
}
use kv_index.Ingest.ScalarField.{
  write_scalar_field_value, get_scalar, write_scalar, write_string_value,
}
use kv_index.Model.Row.{materialize_row, check_required, field_present}
use kv_index.Ingest.ListField.{write_list_field_value}
use kv_index.Store.RealtimeTable.{publish, publish_row, build_row_ref}
use kv_index.Store.RealtimeMap.{
  publish_and_report, publish_loop, init, probe_index, publish_existing,
}
use kv_index.Base.Hash.{stable_hash64}
use kv_index.Base.Bits.{is_power_of_two}
use kv_index.Ingest.Payload as Payload
use kv_index.Base.ByteIo as ByteIo
use kv_index.Store.RealtimeMap.View.{view}
use kv_index.Ingest.Applier.{applier_of}
use kv_index.Ingest.Checkpoint.{build_commit_checkpoint, max_offsets, raise_offset}
use kv_index.Ingest.Coordinator.{
  Consumer, UpdateCoordinator, apply_and_commit, validate_batch, validate_message,
  poll_apply_commit_once,
}
use kv_index.Ingest.Coordinator as Coordinator
use kv_index.Ingest.Coordinator.Delivers.{Delivers, poll_apply_commit_once-Delivers}
use kv_index.Examples.Schema.{two_fields}
use kv_index.Examples.Update.{payload_bytes}

abbrev update : ℕ → KafkaUpsertMessage
update offset = record {
  metadata = record {
    partition = record { topic = 0x74 ∷ []; partition = pos 3 };
    offset = pos offset;
    key = [];
    timestamp_millis = pos 0;
  };
  primary_key = 5;
  payload = payload_bytes;
}

abbrev route : UpdateTargetRoute
route = record {
  role = active;
  generation_id = 1;
  shard_count = 1;
  hash_seed = 0;
  hash_version = 1;
  layout = some (compile two_fields);
  realtime_shards = some 0 ∷ [];
}

abbrev options : UpdateApplierOptions
options = record { logical_topic = 0x74 ∷ []; targets = route ∷ [] }

abbrev tables : Tables
tables = create (some (compile two_fields)) 4 0 1 ∷ []

tables-AllConsistent : AllConsistent tables
tables-AllConsistent = (create-Consistent (some (compile two_fields)) 4 0 1, tt)

apply-PreparesFirst_example :
    IsRejected tables (apply options (update 8) tables)
    ⊎ IsAccepted options (update 8) tables (apply options (update 8) tables)
apply-PreparesFirst_example = apply-PreparesFirst options (update 8) tables

applied : is_ok (apply_batch options (update 8 ∷ update 9 ∷ []) tables).0 ≡ true
unfolding apply_batch apply prepare_message prepare_all prepare publish_all publish_to
    validate_options check_routes check_route check_shards validate_message_metadata shard_for
    decode_payload decode_fields read_field contains wire_kind decode_value read_exact_integer
    read_integer Payload.read_bytes read_little_endian ByteIo.read_bytes check_span_bounds signed_of
    build_fingerprint fingerprint_fields fingerprint_field fingerprint_byte fingerprint_bytes
    fingerprint_uint64 fingerprint_chars fingerprint_string fingerprint_alternative
    fingerprint_default index compile layout_of sort_by_id insert_by_id ByteIo.align_up place_fixed
    place_refs field_layouts field_layout is_ref_field field_type_alignment field_type_size
    encode_for_layout encode_fields encode_field create_encoded_row find_layout
    write_scalar_field_value get_scalar write_scalar write_string_value write_scalar_field
    write_arena_string_field write_value_ref_field finish_write set_field_present write_value_ref16
    write_little_endian ByteIo.write_bytes scalar_type scalar_bits unsigned_of materialize_row
    check_required field_present has_default write_list_field_value publish publish_row
    build_row_ref create publish_and_report publish_loop init probe_index publish_existing
    classify_source_position_update is_valid_source_position stable_hash64 is_power_of_two
applied = refl

apply_batch-ShowsMessages_example :
    AllConsistent (apply_batch options (update 8 ∷ update 9 ∷ []) tables).1
    × All
        (ShowsMessage options (apply_batch options (update 8 ∷ update 9 ∷ []) tables).1)
        (update 8 ∷ update 9 ∷ [])
apply_batch-ShowsMessages_example =
    apply_batch-ShowsMessages options (update 8 ∷ update 9 ∷ []) tables tables-AllConsistent applied

abbrev updates : List KafkaUpsertMessage
updates = update 8 ∷ update 9 ∷ []

abbrev updated : Tables
updated = (apply_batch options updates tables).1

abbrev at_8 : SourcePosition
at_8 = record { partition = pos 3; offset = pos 8 }

in_shard : ShowsFrom updated (some 0) 5 at_8
unfolding shard_for stable_hash64
in_shard = (apply_batch-ShowsMessages options updates tables tables-AllConsistent applied).1.0.2.0.1

apply_batch-keeps_example :
    ShowsFrom (apply_batch options (update 4 ∷ []) updated).1 (some 0) 5 at_8
apply_batch-keeps_example =
    apply_batch-keeps options (update 4 ∷ []) updated (some 0) 5 at_8
      (apply_batch-ShowsMessages options updates tables tables-AllConsistent applied).0 in_shard

apply-other_keys_example :
    (after : RealtimeDeltaAtomicTable) × (get_elem? (apply options (update 8) tables).1 0
      ≡ some after)
    × (view after.rows_by_key 6 ≡ view (create (some (compile two_fields)) 4 0 1).rows_by_key 6)
apply-other_keys_example =
    apply-other_keys options (update 8) tables 6 0 (create (some (compile two_fields)) 4 0 1)
      tables-AllConsistent (omega arith) refl

-- A consumer that polls the updates and keeps what is committed.
abbrev consumer_calls : Consumer (List KafkaPosition)
consumer_calls = record {
  poll = λ poll_options committed. (ok updates, committed);
  commit = λ checkpoint committed. (ok_status, checkpoint.next_offsets);
}

abbrev coordinator : UpdateCoordinator (List KafkaPosition) Tables
coordinator = record {
  consumer = some [];
  applier = some tables;
  options = record {
    logical_topic = 0x74 ∷ [];
    poll_options = record { timeout_ms = pos 100; max_messages = 3 };
  };
}

-- The batch is applied and then committed, behind its last message.
batch_committed :
    (poll_apply_commit_once consumer_calls (applier_of options) coordinator).1.consumer
    ≡ some (
        record { partition = record { topic = 0x74 ∷ []; partition = pos 3 }; offset = pos 10 }
        ∷ [])
unfolding applier_of poll_apply_commit_once apply_and_commit Coordinator.validate_options
    validate_batch validate_message build_commit_checkpoint max_offsets raise_offset apply_batch
    apply prepare_message prepare_all prepare publish_all publish_to validate_options check_routes
    check_route check_shards validate_message_metadata shard_for decode_payload decode_fields
    read_field contains wire_kind decode_value read_exact_integer read_integer Payload.read_bytes
    read_little_endian ByteIo.read_bytes check_span_bounds signed_of build_fingerprint
    fingerprint_fields fingerprint_field fingerprint_byte fingerprint_bytes fingerprint_uint64
    fingerprint_chars fingerprint_string fingerprint_alternative fingerprint_default index compile
    layout_of sort_by_id insert_by_id ByteIo.align_up place_fixed place_refs field_layouts
    field_layout is_ref_field field_type_alignment field_type_size encode_for_layout encode_fields
    encode_field create_encoded_row find_layout write_scalar_field_value get_scalar write_scalar
    write_string_value write_scalar_field write_arena_string_field write_value_ref_field
    finish_write set_field_present write_value_ref16 write_little_endian ByteIo.write_bytes
    scalar_type scalar_bits unsigned_of materialize_row check_required field_present has_default
    write_list_field_value publish publish_row build_row_ref create publish_and_report publish_loop
    init probe_index publish_existing classify_source_position_update is_valid_source_position
    stable_hash64 is_power_of_two
batch_committed = refl

poll_apply_commit_once-Delivers_example :
    Delivers consumer_calls options coordinator []
      (poll_apply_commit_once consumer_calls (applier_of options) coordinator).1
poll_apply_commit_once-Delivers_example =
    poll_apply_commit_once-Delivers consumer_calls options coordinator [] tables refl refl
      tables-AllConsistent
