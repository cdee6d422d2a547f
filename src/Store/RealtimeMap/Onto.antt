-- ===== src/Store/RealtimeMap/Onto.antt =====
-- The probe sequence of a table whose capacity is a power of two visits every slot.
use native.Mathlib.Nat.{
  mul_assoc, mod-lt, mod-add-mod, mod-eq_of_lt, pow-suc, one-le-pow, div-add-mod,
  add-mul-mod_self_left, add-mod_right,
}
use kv_index.Prelude.{
  ℕ, ◌+◌, ◌-◌, ◌*◌, ◌/◌, ◌%◌, ◌^◌, ◌≤◌, ◌<◌, ◌≡◌, zero, suc, sym, ap, ◌∙◌, u64, ltb, arith, inl,
  inr, Bool-cases,
}
use kv_index.Base.Hash.{stable_hash64}
use kv_index.Store.RealtimeMap.{RealtimeAtomicHashMap, probe_index}
use kv_index.Store.RealtimeMap.Probe.{reduce_hash-eq-mod}

pow_add : (a b : ℕ) → 2 ^ (a + b) ≡ 2 ^ a * 2 ^ b
pow_add a zero = let same : a + zero ≡ a = omega arith in ap (λ (t : ℕ). 2 ^ t) same ∙ omega arith
pow_add a (suc b) =
    let next : a + suc b ≡ suc (a + b) = omega arith in
    ap (λ (t : ℕ). 2 ^ t) next ∙ grind (arith, pow-suc 2 (a + b), pow-suc 2 b, pow_add a b)

module _ (k : ℕ) (small : k ≤ 64) where
  -- A number that wraps round at 2 ^ 64 has the remainder that it had.
  u64_mod : (x : ℕ) → u64 x % 2 ^ k ≡ x % 2 ^ k
  u64_mod x =
      let exponent : 64 ≡ k + (64 - k) = omega arith in
      let factor : 2 ^ 64 ≡ 2 ^ k * 2 ^ (64 - k) =
        ap (λ (t : ℕ). 2 ^ t) exponent ∙ pow_add k (64 - k) in
      let split : x ≡ x % 2 ^ 64 + 2 ^ k * (2 ^ (64 - k) * (x / 2 ^ 64)) =
        let q : ℕ = x / 2 ^ 64 in
        let high : 2 ^ 64 * q ≡ 2 ^ k * (2 ^ (64 - k) * q) =
          ap (λ (t : ℕ). t * q) factor ∙ mul_assoc (2 ^ k) (2 ^ (64 - k)) q in
        omega (arith, div-add-mod x (2 ^ 64), high) in
      sym (add-mul-mod_self_left (x % 2 ^ 64) (2 ^ k) (2 ^ (64 - k) * (x / 2 ^ 64)))
      ∙ ap (λ (t : ℕ). t % 2 ^ k) (sym split)

  -- From a hash every slot is some number of probes away.
  offset_to : (hash i : ℕ) → i < 2 ^ k → (p : ℕ) × (p < 2 ^ k) × ((hash + p) % 2 ^ k ≡ i)
  offset_to hash i h =
      let a : ℕ = hash % 2 ^ k in
      let a_small : a < 2 ^ k = mod-lt hash (omega (arith, one-le-pow k 2)) in
      elim (Bool-cases (ltb i a)) [
        | inr ahead ↦
            let fits : a ≤ i = ground arith in
            let sum : a + (i - a) ≡ i = omega arith in
            (
              i - a,
              omega arith,
              sym (mod-add-mod hash (2 ^ k) (i - a))
                  ∙ ap (λ (t : ℕ). t % 2 ^ k) sum
                  ∙ mod-eq_of_lt h,
            )
        | inl behind ↦
            let less : i < a = ground arith in
            let sum : a + (i + 2 ^ k - a) ≡ i + 2 ^ k = omega arith in
            (
              i + 2 ^ k - a,
              omega arith,
              sym (mod-add-mod hash (2 ^ k) (i + 2 ^ k - a))
                  ∙ ap (λ (t : ℕ). t % 2 ^ k) sum
                  ∙ add-mod_right i (2 ^ k)
                  ∙ mod-eq_of_lt h,
            )
      ]

-- In a table whose capacity is a power of two of at most 2 ^ 64, the probes of a key below the
-- capacity visit every slot, so the loops of the table pass over none.
pub probe_index-onto :
    (m : RealtimeAtomicHashMap) (key k i : ℕ)
    → m.capacity ≡ 2 ^ k
    → k ≤ 64
    → i < m.capacity
    → (p : ℕ) × (p < m.capacity) × (probe_index m key p ≡ i)
unfolding probe_index
probe_index-onto m key k i power small inside =
    let hash = stable_hash64 key m.hash_seed m.hash_version in
    let r = offset_to k small hash i (omega arith) in
    (
      r.0,
      omega (arith, r.1),
      reduce_hash-eq-mod m.capacity hash (r.0)
          ∙ ap (λ (t : ℕ). u64 (hash + r.0) % t) power
          ∙ u64_mod k small (hash + r.0)
          ∙ r.2,
    )
