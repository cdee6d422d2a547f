-- ===== src/Store/FrozenIndex/Capacity.antt =====
-- `CalculateCapacity`: the least power of two from 16 on that a load of 7/8 leaves room in.
use native.Mathlib.Nat.{pow-suc, pow-le-pow_right}
use kv_index.Prelude.{
  ℕ, zero, suc, ◌+◌, ◌-◌, ◌*◌, ◌/◌, ◌^◌, ◌≤◌, ◌<◌, ltb, ◌==◌, ◌≡◌, refl, ◌⊎◌, inl, inr, not, ◌||◌,
  if◌then◌else◌, arith, Bool-cases, eq-cases, subst, ltb→lt,
}
use kv_index.Status.{StatusOr, ok, fail, invalid_argument}
use kv_index.Store.FrozenIndex.{default_group_width, u64_max}

-- The loop, on fuel: 64 doublings of 16 would pass 2 ^ 64, and the loop stops before.
unfoldable pub capacity_loop : (fuel capacity min_for_load : ℕ) → StatusOr ℕ
capacity_loop zero capacity min_for_load =
    fail (invalid_argument "frozen index capacity is too large")
capacity_loop (suc fuel) capacity min_for_load =
    let rest = capacity_loop fuel (capacity * 2) min_for_load in
    if not (ltb capacity min_for_load)
    then ok capacity
    else if ltb (u64_max / 2) capacity
    then fail (invalid_argument "frozen index capacity is too large")
    else rest

unfoldable pub calculate_capacity : (row_count group_width : ℕ) → StatusOr ℕ
calculate_capacity row_count group_width =
    if group_width == 0 || not (group_width == default_group_width)
    then fail (invalid_argument "unsupported frozen index group width")
    else if ltb ((u64_max - 6) / 8) row_count
    then fail (invalid_argument "frozen index row count is too large")
    else capacity_loop 64 group_width ((row_count * 8 + 6) / 7)

-- A power of two from 16 on, with room for the rows at a load of 7/8; it is 16, or its half has no room
-- for them.
pub record IsCapacity (row_count capacity : ℕ) : Type 0 where
  pub exponent : ℕ
  pub power : capacity ≡ 2 ^ exponent
  pub group : 16 ≤ capacity
  pub small : capacity ≤ 2 ^ 62
  pub room : row_count * 8 ≤ capacity * 7
  pub least : (capacity ≡ 16) ⊎ (capacity * 7 < row_count * 8 * 2)

module _ (rows : ℕ) (few : rows ≤ (u64_max - 6) / 8) where
  abbrev min_load : ℕ
  min_load = (rows * 8 + 6) / 7

  -- A capacity that is still too small is at most 2 ^ 61.
  room_to_grow : (k : ℕ) → k ≤ 62 → 2 ^ k < min_load → k ≤ 61
  room_to_grow k h less = elim (eq-cases k 62) [
    | inl top ↦
        let full : 2 ^ 62 < min_load = subst (λ t. 2 ^ t < min_load) top less in
        absurd (omega arith)
    | inr other ↦ omega arith
  ]

  loop_stops :
      (fuel k : ℕ)
      → 62 < k + fuel
      → k ≤ 62
      → 16 ≤ 2 ^ k
      → (2 ^ k ≡ 16) ⊎ (2 ^ k * 7 < rows * 8 * 2)
      → (c : ℕ) × (capacity_loop fuel (2 ^ k) min_load ≡ ok c) × IsCapacity rows c
  unfolding capacity_loop
  loop_stops zero k enough small from least = absurd (omega arith)
  loop_stops (suc fuel) k enough small from least = elim (Bool-cases (ltb (2 ^ k) min_load)) [
    | inr stops ↦ (
      2 ^ k,
      ground arith,
      record {
        exponent = k;
        power = refl;
        group = from;
        small = pow-le-pow_right (omega arith) small;
        room = ground arith;
        least = least;
      },
    )
    | inl grows ↦
        let more : k ≤ 61 = room_to_grow k small (ltb→lt _ _ grows) in
        let bound : 2 ^ k ≤ 2 ^ 61 = pow-le-pow_right (omega arith) more in
        let r =
          loop_stops fuel (suc k) (omega arith) (omega arith) (omega (arith, pow-suc 2 k))
            (inr (omega (arith, pow-suc 2 k, ltb→lt _ _ grows))) in
        (r.0, ground (arith, bound, pow-suc 2 k, r.1), r.2)
  ]

  -- For the group width of 16 and a row count whose size does not overflow a capacity is found: the
  -- least power of two from 16 on whose load is at most 7/8.
  pub calculate_capacity-IsCapacity :
      (c : ℕ) × (calculate_capacity rows default_group_width ≡ ok c) × IsCapacity rows c
  unfolding calculate_capacity
  calculate_capacity-IsCapacity =
      let r = loop_stops 64 4 (omega arith) (omega arith) (omega arith) (inl refl) in
      (r.0, ground (arith, r.1), r.2)
