-- ===== src/Base/Bits/Single.antt =====
-- One bit of a byte, as the presence bitmap of src/model/row_storage.cc sets and tests it.
use native.Mathlib.Nat.{pow-suc, one-le-pow}
use kv_index.Prelude.{
  ℕ, zero, suc, ◌+◌, ◌*◌, ◌/◌, ◌%◌, ◌^◌, ◌≤◌, bit_and, bit_or, ◌≡◌, ◌≢◌, refl, ap, arith,
}
use kv_index.Base.Bits.Step.{bit_and_step, bit_or_step, bit_and-zero}

or-zero_upto : (n a : ℕ) → a ≤ n → bit_or a 0 ≡ a
or-zero_upto n zero h = refl
or-zero_upto zero (suc a) h = absurd (omega arith)
or-zero_upto (suc n) (suc a) h =
    omega (arith, bit_or_step (suc a) 0, or-zero_upto n (suc a / 2) (omega arith))

bit_or-zero : (a : ℕ) → bit_or a 0 ≡ a
bit_or-zero a = or-zero_upto a a (omega arith)

module _ (k x : ℕ) where
  half_or : bit_or x (2 ^ suc k) ≡ bit_or (x / 2) (2 ^ k) * 2 + x % 2
  half_or =
      let half : 2 ^ suc k / 2 ≡ 2 ^ k = omega (arith, pow-suc 2 k) in
      omega (arith, bit_or_step x (2 ^ suc k), pow-suc 2 k, ap (bit_or (x / 2)) half)

  half_and : bit_and x (2 ^ suc k) ≡ bit_and (x / 2) (2 ^ k) * 2
  half_and =
      let half : 2 ^ suc k / 2 ≡ 2 ^ k = omega (arith, pow-suc 2 k) in
      omega (arith, bit_and_step x (2 ^ suc k), pow-suc 2 k, ap (bit_and (x / 2)) half)

pub bit_and-bit_or_self : (k x : ℕ) → bit_and (bit_or x (2 ^ k)) (2 ^ k) ≡ 2 ^ k
bit_and-bit_or_self zero x =
    let half : bit_or x 1 / 2 ≡ bit_or (x / 2) 0 = omega (arith, bit_or_step x 1) in
    omega (
      arith,
      bit_or_step x 1,
      bit_and_step (bit_or x 1) 1,
      ap (λ (t : ℕ). bit_and t 0) half,
      bit_and-zero (bit_or (x / 2) 0),
    )
bit_and-bit_or_self (suc k) x =
    let half : bit_or x (2 ^ suc k) / 2 ≡ bit_or (x / 2) (2 ^ k) = omega (arith, half_or k x) in
    omega (
      arith,
      half_and k (bit_or x (2 ^ suc k)),
      ap (λ (t : ℕ). bit_and t (2 ^ k)) half,
      bit_and-bit_or_self k (x / 2),
      pow-suc 2 k,
    )

pub bit_and-bit_or_ne : (k m x : ℕ) → k ≢ m → bit_and (bit_or x (2 ^ k)) (2 ^ m) ≡ bit_and x (2 ^ m)
bit_and-bit_or_ne zero zero x h = absurd (h refl)
bit_and-bit_or_ne zero (suc m) x h =
    let half : bit_or x 1 / 2 ≡ x / 2 = omega (arith, bit_or_step x 1, bit_or-zero (x / 2)) in
    omega (arith, half_and m (bit_or x 1), half_and m x, ap (λ (t : ℕ). bit_and t (2 ^ m)) half)
bit_and-bit_or_ne (suc k) zero x h = omega (
  arith,
  half_or k x,
  bit_and_step (bit_or x (2 ^ suc k)) 1,
  bit_and_step x 1,
  bit_and-zero (bit_or x (2 ^ suc k) / 2),
  bit_and-zero (x / 2),
)
bit_and-bit_or_ne (suc k) (suc m) x h =
    let half : bit_or x (2 ^ suc k) / 2 ≡ bit_or (x / 2) (2 ^ k) = omega (arith, half_or k x) in
    omega (
      arith,
      half_and m (bit_or x (2 ^ suc k)),
      half_and m x,
      ap (λ (t : ℕ). bit_and t (2 ^ m)) half,
      bit_and-bit_or_ne k m (x / 2) (λ e. h (ap suc e)),
    )

pub pow_ne_zero : (k : ℕ) → 2 ^ k ≢ 0
pow_ne_zero k e = absurd (omega (arith, one-le-pow k 2))
