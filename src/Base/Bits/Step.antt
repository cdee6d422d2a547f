-- ===== src/Base/Bits/Step.antt =====
-- `bit_and` and `bit_or` by halving: the last binary digit, and the rest.
use Prim.Native.Nat.{digits, bitwise, bit_and-bitwise, bit_or-bitwise}
use kv_index.Prelude.{
  ℕ, zero, suc, ◌+◌, ◌-◌, ◌*◌, ◌/◌, ◌%◌, ◌≤◌, min, max, bit_and, bit_or, ◌≡◌, refl, ap, sym, ◌∙◌,
  arith,
}

-- A digit-wise operation with `last` on digits, and `rest` where the first number is exhausted.
module _ (rest : ℕ → ℕ) (last : ℕ → ℕ → ℕ) where
  one_more :
      (x y : ℕ) (fuel : ℕ) → x ≤ fuel → digits rest last (suc fuel) x y ≡ digits rest last fuel x y
  one_more zero y zero enough = refl
  one_more zero y (suc fuel) enough = refl
  one_more (suc x) y zero enough = absurd (omega arith)
  one_more (suc x) y (suc fuel) enough =
      ap (λ (t : ℕ). t * 2 + last (suc x % 2) (y % 2))
        (one_more (suc x / 2) (y / 2) fuel (omega arith))

  -- The fuel that `bitwise` starts with is as good as any more.
  spare : (x y extra : ℕ) → digits rest last (extra + x) x y ≡ bitwise rest last x y
  spare x y zero = ap (λ (t : ℕ). digits rest last t x y) (omega arith)
  spare x y (suc extra) =
      let count : suc extra + x ≡ suc (extra + x) = omega arith in
      ap (λ (t : ℕ). digits rest last t x y) count
      ∙ one_more x y (extra + x) (omega arith)
      ∙ spare x y extra

  -- Where the operation on an exhausted number is digit-wise too, so it is on any.
  module _ (even : (y : ℕ) → rest y ≡ rest (y / 2) * 2 + last 0 (y % 2)) where
    halved :
        (x y : ℕ)
        → bitwise rest last x y ≡ bitwise rest last (x / 2) (y / 2) * 2 + last (x % 2) (y % 2)
    halved zero y = even y
    halved (suc x) y =
        let fuel : x - suc x / 2 + suc x / 2 ≡ x = omega arith in
        ap (λ (t : ℕ). digits rest last t (suc x / 2) (y / 2) * 2 + last (suc x % 2) (y % 2))
          (sym fuel)
        ∙ ap (λ (t : ℕ). t * 2 + last (suc x % 2) (y % 2))
            (spare (suc x / 2) (y / 2) (x - suc x / 2))

pub bit_or_step : (x y : ℕ) → bit_or x y ≡ bit_or (x / 2) (y / 2) * 2 + max (x % 2) (y % 2)
bit_or_step x y = simp bit_or-bitwise (halved (λ t. t) max (λ t. omega arith) x y)

pub bit_and_step : (x y : ℕ) → bit_and x y ≡ bit_and (x / 2) (y / 2) * 2 + min (x % 2) (y % 2)
bit_and_step x y = simp bit_and-bitwise (halved (λ t. 0) min (λ t. omega arith) x y)

pub zero-bit_or : (b : ℕ) → bit_or 0 b ≡ b
zero-bit_or b = bit_or-bitwise 0 b

pub zero-bit_and : (b : ℕ) → bit_and 0 b ≡ 0
zero-bit_and b = bit_and-bitwise 0 b

and-zero_upto : (n a : ℕ) → a ≤ n → bit_and a 0 ≡ 0
and-zero_upto n zero h = refl
and-zero_upto zero (suc a) h = absurd (omega arith)
and-zero_upto (suc n) (suc a) h =
    omega (arith, bit_and_step (suc a) 0, and-zero_upto n (suc a / 2) (omega arith))

pub bit_and-zero : (a : ℕ) → bit_and a 0 ≡ 0
bit_and-zero a = and-zero_upto a a (omega arith)

and_self_upto : (n a : ℕ) → a ≤ n → bit_and a a ≡ a
and_self_upto n zero h = refl
and_self_upto zero (suc a) h = absurd (omega arith)
and_self_upto (suc n) (suc a) h =
    omega (arith, bit_and_step (suc a) (suc a), and_self_upto n (suc a / 2) (omega arith))

pub bit_and_self : (a : ℕ) → bit_and a a ≡ a
bit_and_self a = and_self_upto a a (omega arith)
