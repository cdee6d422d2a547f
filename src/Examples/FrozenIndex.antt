-- ===== src/Examples/FrozenIndex.antt =====
-- The capacity of a frozen index of a hundred rows, and the header of one of three.
use kv_index.Prelude.{ℕ, ◌≡◌, refl, arith, List, replicate}
use kv_index.Status.{ok, ok_status}
use kv_index.Store.FrozenIndex.{default_group_width, FrozenPrimaryKeyIndexMetadata}
use kv_index.Store.FrozenIndex.Header.{write_header, read_metadata}
use kv_index.Store.FrozenIndex.Build.Sections.{LaysOut, build_metadata-LaysOut}
use kv_index.Store.FrozenIndex.Header.RoundTrip.{read_metadata-write_header}
use kv_index.Store.FrozenIndex.Capacity.{
  calculate_capacity, capacity_loop, IsCapacity, calculate_capacity-IsCapacity,
}

calculate_capacity-IsCapacity_example :
    (c : ℕ) × (calculate_capacity 100 default_group_width ≡ ok c) × IsCapacity 100 c
calculate_capacity-IsCapacity_example = calculate_capacity-IsCapacity 100 (omega arith)

hundred_rows : calculate_capacity 100 default_group_width ≡ ok 128
unfolding calculate_capacity capacity_loop
hundred_rows = refl

abbrev metadata : FrozenPrimaryKeyIndexMetadata
metadata = record {
  row_count = 3;
  capacity = 16;
  hash_seed = 5;
  hash_version = 1;
  group_width = 16;
  control_offset = 80;
  key_offset = 112;
  row_offset_offset = 240;
  total_size = 368;
}

abbrev span : List ℕ
span = replicate 100 0

read_metadata-write_header_example :
    ((write_header span metadata).0 ≡ ok_status)
    × (read_metadata (write_header span metadata).1 ≡ ok metadata)
read_metadata-write_header_example =
    read_metadata-write_header metadata span
      (record {
        row_count_fits = omega arith;
        capacity_fits = omega arith;
        hash_seed_fits = omega arith;
        hash_version_fits = omega arith;
        group_width_fits = omega arith;
        control_offset_fits = omega arith;
        key_offset_fits = omega arith;
        row_offset_offset_fits = omega arith;
        total_size_fits = omega arith;
      })
      (omega arith)

build_metadata-LaysOut_example : LaysOut 100 5 1
build_metadata-LaysOut_example =
    build_metadata-LaysOut 100 5 1 (omega arith) (omega arith) (omega arith)
