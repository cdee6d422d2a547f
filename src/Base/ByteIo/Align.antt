-- ===== src/Base/ByteIo/Align.antt =====
-- `AlignUp` by a power of two that the code uses, where it does not wrap round.
use native.Mathlib.Nat.{mod-lt, div-add-mod, mul-mod_right}
use kv_index.Prelude.{
  ℕ, eq-cases, inl, inr, u64, ◌*◌, ◌/◌, ◌+◌, ◌-◌, ◌%◌, ◌^◌, ◌≤◌, ◌<◌, ◌≡◌, arith,
}
use kv_index.Base.ByteIo.{align_up}

-- The result is the least multiple of the alignment from the value on.
pub record IsAlignedUp (value alignment result : ℕ) : Type 0 where
  pub multiple : result % alignment ≡ 0
  pub from : value ≤ result
  pub least : result < value + alignment

-- For a positive alignment, and where their sum does not pass 2 ^ 64, `AlignUp` returns the least
-- multiple of the alignment from the value on.
pub align_up-IsAlignedUp :
    (value alignment : ℕ)
    → 0 < alignment
    → value + alignment ≤ 2 ^ 64
    → IsAlignedUp value alignment (align_up value alignment)
unfolding align_up
align_up-IsAlignedUp value alignment pos fits = elim (eq-cases (value % alignment) 0) [
  | inl even ↦ ground arith
  | inr odd ↦
      let below : value % alignment < alignment = mod-lt value pos in
      let next : value + (alignment - value % alignment) ≡ alignment * (value / alignment + 1) =
        grind (arith, div-add-mod value alignment) in
      let whole : (value + (alignment - value % alignment)) % alignment ≡ 0 =
        rw next (mul-mod_right alignment (value / alignment + 1)) in
      let small : u64 (value + (alignment - value % alignment))
          ≡ value + (alignment - value % alignment) =
        omega arith in
      ground arith
]
