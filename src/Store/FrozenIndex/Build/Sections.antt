-- ===== src/Store/FrozenIndex/Build/Sections.antt =====
-- The sections that the builder lays out are those that `Validate` accepts.
use native.Mathlib.Nat.{pow-suc, le-div_iff_mul-le}
use kv_index.Prelude.{
  ℕ, zero, suc, ◌%◌, ap, ◌∙◌, subst, ◌+◌, ◌*◌, ◌/◌, ◌^◌, ◌≤◌, ◌<◌, ◌≡◌, true, arith,
}
use kv_index.Status.{ok, ok_status}
use kv_index.Base.Bits.{is_power_of_two, is_power_of_two_iff}
use kv_index.Store.FrozenIndex.{
  FrozenPrimaryKeyIndexMetadata, FrozenPrimaryKeyIndexBuildOptions, has_bytes, u64_max,
  default_group_width, checked_add, checked_mul,
}
use kv_index.Store.FrozenIndex.Capacity.{
  IsCapacity, calculate_capacity, calculate_capacity-IsCapacity,
}
use kv_index.Store.FrozenIndex.Header.RoundTrip.{FitsHeader}
use kv_index.Store.FrozenIndex.Validate.{check_metadata, validate_metadata}
use kv_index.Store.FrozenIndex.Build.{build_metadata}

-- A power of two from 16 on is a multiple of eight.
eighth : (e : ℕ) → 16 ≤ 2 ^ e → 2 ^ e % 8 ≡ 0
eighth zero h = absurd (omega arith)
eighth (suc zero) h = absurd (omega arith)
eighth (suc (suc zero)) h = absurd (omega arith)
eighth (suc (suc (suc e))) h =
    omega (arith, pow-suc 2 e, pow-suc 2 (suc e), pow-suc 2 (suc (suc e)))

module _ (rows seed version capacity : ℕ) where
  abbrev pub options : FrozenPrimaryKeyIndexBuildOptions
  options = record { hash_seed = seed; hash_version = version; group_width = 16 }

  abbrev pub sections : FrozenPrimaryKeyIndexMetadata
  sections = record {
    row_count = rows;
    capacity = capacity;
    hash_seed = seed;
    hash_version = version;
    group_width = 16;
    control_offset = 80;
    key_offset = 80 + (capacity + 16);
    row_offset_offset = 80 + (capacity + 16) + capacity * 8;
    total_size = 80 + (capacity + 16) + capacity * 8 + capacity * 8;
  }

  module _ (good : IsCapacity rows capacity) (small : capacity ≤ 2 ^ 58) where
    adds : (a b : ℕ) → a + b < 2 ^ 64 → checked_add a b ≡ ok (a + b)
    unfolding checked_add
    adds a b h = ground arith

    times : checked_mul capacity 8 ≡ ok (capacity * 8)
    unfolding checked_mul
    times =
        let positive : 0 < capacity = omega (arith, good.group) in
        let room : 8 ≤ u64_max / capacity = (le-div_iff_mul-le positive).1 (omega arith) in
        ground (arith, room)

    -- For a capacity as `CalculateCapacity` finds it, of at most 2 ^ 58 slots, the builder computes the
    -- sections of the index without overflow.
    build_metadata-sections : build_metadata rows options capacity ≡ ok sections
    unfolding build_metadata
    build_metadata-sections = ground (
      arith,
      times,
      adds capacity 16 (omega arith),
      adds 80 (capacity + 16) (omega arith),
      adds (80 + (capacity + 16)) (capacity * 8) (omega arith),
      adds (80 + (capacity + 16) + capacity * 8) (capacity * 8) (omega arith),
    )

    power : is_power_of_two capacity ≡ true
    power = (is_power_of_two_iff capacity).1 (good.exponent, good.power)

    load : rows ≤ capacity / 8 * 7
    load =
        let whole : capacity % 8 ≡ 0 =
          ap (λ (t : ℕ). t % 8) good.power
          ∙ eighth good.exponent (subst (λ t. 16 ≤ t) good.power good.group) in
        omega (arith, whole, good.room)

    accepted : validate_metadata sections sections.total_size ≡ ok_status
    unfolding validate_metadata check_metadata has_bytes
    accepted = ground (
      arith,
      times,
      power,
      load,
      good.group,
      adds capacity 16 (omega arith),
      adds 80 (capacity + 16) (omega arith),
      adds (80 + (capacity + 16)) (capacity * 8) (omega arith),
      adds (80 + (capacity + 16) + capacity * 8) (capacity * 8) (omega arith),
    )

-- What `BuildFrozenPrimaryKeyIndex` lays out before it writes.
pub record LaysOut (rows seed version : ℕ) : Type 0 where
  pub capacity : ℕ
  pub metadata : FrozenPrimaryKeyIndexMetadata
  pub calculated : calculate_capacity rows default_group_width ≡ ok capacity
  pub built : build_metadata rows (options rows seed version capacity) capacity ≡ ok metadata
  pub valid : validate_metadata metadata metadata.total_size ≡ ok_status
  pub fits : FitsHeader metadata

-- For at most 2 ^ 56 rows, a 64-bit seed, a 32-bit hash version and the group width of 16, the builder
-- finds a capacity and computes the sections of the index without overflow; the checks of `Validate`
-- on the metadata accept them for a span of the total size, and the metadata fits the header.
pub build_metadata-LaysOut :
    (rows seed version : ℕ)
    → rows ≤ 2 ^ 56
    → seed < 2 ^ 64
    → version < 2 ^ 32
    → LaysOut rows seed version
build_metadata-LaysOut rows seed version few seed_fits version_fits =
    let (c, found, good) = calculate_capacity-IsCapacity rows (omega arith) in
    let small : c ≤ 2 ^ 58 = omega (arith, good.least) in
    record {
      capacity = c;
      metadata = sections rows seed version c;
      calculated = found;
      built = build_metadata-sections rows seed version c good small;
      valid = accepted rows seed version c good small;
      fits = record {
        row_count_fits = omega arith;
        capacity_fits = omega arith;
        hash_seed_fits = omega arith;
        hash_version_fits = omega arith;
        group_width_fits = omega arith;
        control_offset_fits = omega arith;
        key_offset_fits = omega arith;
        row_offset_offset_fits = omega arith;
        total_size_fits = omega arith;
      };
    }
