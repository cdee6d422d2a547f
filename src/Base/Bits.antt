-- ===== src/Base/Bits.antt =====
-- The bit tests and masks of src/store/realtime_delta.cc, src/api/forward_index.cc and
-- src/base/: `x & (2^k - 1)` as a remainder, `x | 2^k * q` as a sum, and `IsPowerOfTwo`.
pub mod Step
pub mod Single
use native.Mathlib.Nat.{pow-suc, one-le-pow, mod_self}
use kv_index.Prelude.{
  ℕ, zero, suc, ◌+◌, ◌-◌, ◌*◌, ◌/◌, ◌%◌, ◌^◌, ◌≤◌, ◌<◌, ◌==◌, bit_and, bit_or, ◌≡◌, refl, ap, Bool,
  true, false, ◌&&◌, not, ◌≢◌, eq-cases, inl, inr, ◌↔◌, arith,
}
use Step.{bit_and_step, bit_or_step, bit_and-zero, bit_and_self, zero-bit_or}

-- `IsPowerOfTwo`.
unfoldable pub is_power_of_two : ℕ → Bool
is_power_of_two value = not (value == 0) && (bit_and value (value - 1) == 0)

module _ (q k : ℕ) where
  mul-pow-suc : q * 2 ^ suc k ≡ 2 * (q * 2 ^ k)
  mul-pow-suc = omega (arith, ap (λ (t : ℕ). q * t) (pow-suc 2 k))

bit_and_split : (k q r : ℕ) → r < 2 ^ k → bit_and (q * 2 ^ k + r) (2 ^ k - 1) ≡ r
bit_and_split zero q r h = ground (arith, bit_and-zero (q * 2 ^ 0 + r))
bit_and_split (suc k) q r h = ground (
  arith,
  bit_and_step (q * 2 ^ suc k + r) (2 ^ suc k - 1),
  mul-pow-suc q k,
  pow-suc 2 k,
  bit_and_split k q (r / 2) (omega (arith, pow-suc 2 k)),
)

pub bit_and_mask : (k a : ℕ) → bit_and a (2 ^ k - 1) ≡ a % 2 ^ k
bit_and_mask k a = ground (arith, one-le-pow k 2, bit_and_split k (a / 2 ^ k) (a % 2 ^ k))

pub bit_or_disjoint : (k q r : ℕ) → r < 2 ^ k → bit_or r (q * 2 ^ k) ≡ q * 2 ^ k + r
bit_or_disjoint zero q zero h = ground (arith, zero-bit_or (q * 2 ^ 0))
bit_or_disjoint zero q (suc r) h = absurd (omega arith)
bit_or_disjoint (suc k) q r h = ground (
  arith,
  bit_or_step r (q * 2 ^ suc k),
  mul-pow-suc q k,
  bit_or_disjoint k q (r / 2) (omega (arith, pow-suc 2 k)),
)

-- A number that shares no bit with its predecessor is a power of two.
no_carry-half :
    (v : ℕ) → 0 < v → v % 2 ≡ 0 → bit_and v (v - 1) ≡ 0 → bit_and (v / 2) (v / 2 - 1) ≡ 0
no_carry-half v p even e =
    let halves : (v - 1) / 2 ≡ v / 2 - 1 = omega arith in
    omega (arith, bit_and_step v (v - 1), ap (bit_and (v / 2)) halves)

no_carry-odd : (v : ℕ) → v % 2 ≢ 0 → bit_and v (v - 1) ≡ 0 → v ≡ 1
no_carry-odd v odd e =
    let halves : (v - 1) / 2 ≡ v / 2 = omega arith in
    omega (arith, bit_and_step v (v - 1), ap (bit_and (v / 2)) halves, bit_and_self (v / 2))

pow_of_no_carry : (n v : ℕ) → v ≤ n → 0 < v → bit_and v (v - 1) ≡ 0 → (k : ℕ) × (v ≡ 2 ^ k)
pow_of_no_carry zero v h p e = absurd (omega arith)
pow_of_no_carry (suc n) v h p e = elim (eq-cases (v % 2) 0) [
  | inl even ↦
      let half : (k : ℕ) × (v / 2 ≡ 2 ^ k) =
        pow_of_no_carry n (v / 2) (omega arith) (omega arith) (no_carry-half v p even e) in
      (suc half.0, omega (arith, half.1, pow-suc 2 half.0))
  | inr odd ↦ (0, no_carry-odd v odd e)
]

-- Conversely 2 ^ k and its predecessor share no bit.
no_carry_pow : (k : ℕ) → bit_and (2 ^ k) (2 ^ k - 1) ≡ 0
no_carry_pow k = omega (arith, bit_and_mask k (2 ^ k), mod_self (2 ^ k))

-- `IsPowerOfTwo` accepts exactly the powers of two.
pub is_power_of_two_iff : (v : ℕ) → (is_power_of_two v ≡ true) ↔ ((k : ℕ) × (v ≡ 2 ^ k))
unfolding is_power_of_two
is_power_of_two_iff v = (
  λ h. pow_of_no_carry v v (omega arith) (ground arith) (ground arith),
  λ h. rw (h.1) (ground (arith, no_carry_pow h.0, one-le-pow h.0 2)),
)
