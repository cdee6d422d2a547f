-- ===== src/Examples/RealtimeTable.antt =====
-- Two publications of one key in a table, of which the second is older.
use kv_index.Store.RealtimeTable.Boundary.{scan_visible_rows-later}
use kv_index.Prelude.{ℕ, pos, ◌≡◌, refl, some, List, [], ◌∷◌}
use kv_index.Status.{ok}
use kv_index.Types.{is_valid_source_position, classify_source_position_update}
use kv_index.Base.Bits.{is_power_of_two}
use kv_index.Base.Hash.{stable_hash64}
use kv_index.Schema.Layout.{CompiledRowLayout}
use kv_index.Model.EncodedRow.{EncodedRow}
use kv_index.Model.Row.{materialize_row, check_required}
use kv_index.Store.RealtimeMap.{
  publish_and_report, publish_loop, get_loop, init, probe_index, publish_existing,
}
use kv_index.Store.RealtimeMap as RealtimeMap
use kv_index.Store.RealtimeTable.{
  create, build_row_ref, publish_row, publish, get, scan_visible_rows, capture_compaction_boundary,
  RealtimeDeltaAtomicTable,
}
use kv_index.Store.RealtimeTable.Consistent.{Publication, after_publications}
use kv_index.Store.RealtimeTable.Reads.{ScansWhatGetShows, after_publications-ScansWhatGetShows}

abbrev layout : CompiledRowLayout
layout = record {
  schema_version = 1;
  layout_fingerprint = 77;
  presence_bitmap_bytes = 8;
  fixed_area_offset = 8;
  ref_area_offset = 8;
  row_slot_size = 2;
  fields = [];
}

abbrev encoded_row : ℕ → EncodedRow
encoded_row n = record {
  schema_version = 1;
  layout_fingerprint = 77;
  row_slot = 0 ∷ n ∷ [];
  arena = [];
  string_dictionary = [];
  scalar_list_dictionary = [];
  string_list_dictionary = [];
  string_element_dictionary = [];
}

abbrev publication : ℕ → ℕ → Publication
publication key offset = record {
  primary_key = key;
  position = record { partition = pos 0; offset = pos offset };
  encoded = encoded_row offset;
}

abbrev calls : List Publication
calls = publication 5 9 ∷ publication 5 3 ∷ []

after_publications-ScansWhatGetShows_example :
    ScansWhatGetShows layout (after_publications (create (some layout) 4 0 1) calls)
after_publications-ScansWhatGetShows_example =
    after_publications-ScansWhatGetShows layout 4 0 1 calls

newest_row_shown :
    get (after_publications (create (some layout) 4 0 1) calls) 5
    ≡ ok (some (record { layout = layout; encoded = encoded_row 9 }))
unfolding get after_publications publish publish_row build_row_ref create materialize_row
    check_required publish_and_report publish_loop RealtimeMap.get get_loop init probe_index
    publish_existing classify_source_position_update is_valid_source_position stable_hash64
    is_power_of_two
newest_row_shown = refl

abbrev table : RealtimeDeltaAtomicTable
table = after_publications (create (some layout) 4 0 1) calls

scan_visible_rows-later_example :
    scan_visible_rows
      (after_publications table (publication 5 11 ∷ []))
      (capture_compaction_boundary table)
    ≡ scan_visible_rows table (capture_compaction_boundary table)
scan_visible_rows-later_example = scan_visible_rows-later table (publication 5 11 ∷ [])
