-- ===== src/Store/RealtimeMap/Probe.antt =====
-- Every probe of `RealtimeAtomicHashMap` reads a slot of the table.
use native.Mathlib.Nat.{mod-lt}
use kv_index.Prelude.{
  ℕ, ◌-◌, ◌%◌, ◌^◌, ◌≤◌, ◌<◌, ◌+◌, u64, bit_and, ◌≡◌, subst, sym, true, arith, Bool-cases, inl, inr,
}
use kv_index.Base.Bits.{is_power_of_two, bit_and_mask, is_power_of_two_iff}
use kv_index.Store.RealtimeMap.{RealtimeAtomicHashMap, reduce_hash, probe_index}

pow_pos : (k : ℕ) → 0 < 2 ^ k
pow_pos k = omega (arith, native.Mathlib.Nat.one-le-pow k 2)

-- A capacity is a power of two or not; either way the hash is reduced by a remainder.
pub reduce_hash-eq-mod :
    (capacity hash probe : ℕ) → reduce_hash capacity hash probe ≡ u64 (hash + probe) % capacity
unfolding reduce_hash
reduce_hash-eq-mod capacity hash probe = elim (Bool-cases (is_power_of_two capacity)) [
  | inl pow ↦
      let power : (k : ℕ) × (capacity ≡ 2 ^ k) = (is_power_of_two_iff capacity).0 pow in
      ground (arith, power.1, bit_and_mask power.0 (u64 (hash + probe)))
  | inr other ↦ ground arith
]

pub probe_index-lt :
    (m : RealtimeAtomicHashMap) (key probe : ℕ)
    → 0 < m.capacity
    → probe_index m key probe < m.capacity
unfolding probe_index
probe_index-lt m key probe h =
    kv_index.Prelude.subst (λ t. t < m.capacity) (sym (reduce_hash-eq-mod m.capacity _ probe))
      (mod-lt _ h)
