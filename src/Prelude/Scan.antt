-- ===== src/Prelude/Scan.antt =====
-- A bounded search: the first number from `start` on, of `left` many, at which a test fails. The
-- probe loops of the hash tables are such searches.
use Prim.Native.Nat.{ℕ, zero, suc, ◌+◌, ◌≤◌, ◌<◌}
use mathlib.Core.Path.{◌≡◌, refl, subst, sym}
use mathlib.Core.Logic.{inl, inr}
use mathlib.Core.Bool.{Bool, true, false}
use mathlib.Core.Option.{Option, none, some}
use native.Mathlib.Omega.{arith}
use kv_index.Prelude.Tests.{if◌then◌else◌, Bool-cases, eq-cases}

unfoldable pub scan : (ℕ → Bool) → ℕ → ℕ → Option ℕ
scan passes zero start = none
scan passes (suc left) start =
    let rest = scan passes left (start + 1) in if passes start then rest else some start

-- Where `scan` stops: in range, the first number that does not pass.
pub record StopsAt (passes : ℕ → Bool) (left start p : ℕ) : Type 0 where
  pub from : start ≤ p
  pub below : p < start + left
  pub before : (q : ℕ) → start ≤ q → q < p → passes q ≡ true
  pub at : passes p ≡ false

abbrev pub AllPass : (ℕ → Bool) → ℕ → ℕ → Type 0
AllPass passes left start = (q : ℕ) → start ≤ q → q < start + left → passes q ≡ true

module _ (passes : ℕ → Bool) where
  from_rest :
      (start q end : ℕ)
      → passes start ≡ true
      → ((q : ℕ) → start + 1 ≤ q → q < end → passes q ≡ true)
      → start ≤ q
      → q < end
      → passes q ≡ true
  from_rest start q end here rest a b = elim (eq-cases start q) [
    | inl same ↦ subst (λ t. passes t ≡ true) same here
    | inr later ↦ rest q (omega arith) b
  ]

  pub scan-StopsAt :
      (left start p : ℕ) → scan passes left start ≡ some p → StopsAt passes left start p
  unfolding scan
  scan-StopsAt zero start p e = cc
  scan-StopsAt (suc left) start p e = elim (Bool-cases (passes start)) [
    | inl goes_on ↦
        let rest = scan-StopsAt left (start + 1) p (ground arith) in
        record {
          from = omega (arith, rest.from);
          below = omega (arith, rest.below);
          before = λ q a b. from_rest start q p goes_on rest.before a b;
          at = rest.at;
        }
    | inr stops ↦
        let here : start ≡ p = ground arith in
        record {
          from = omega arith;
          below = omega arith;
          before = λ q a b. absurd (omega arith);
          at = subst (λ t. passes t ≡ false) here stops;
        }
  ]

  pub StopsAt-scan :
      (left start p : ℕ) → StopsAt passes left start p → scan passes left start ≡ some p
  unfolding scan
  StopsAt-scan zero start p s = absurd (omega (arith, s.from, s.below))
  StopsAt-scan (suc left) start p s = elim (eq-cases start p) [
    | inl here ↦ ground (arith, s.at, subst (λ t. passes t ≡ false) (sym here) s.at)
    | inr later ↦
        let rest : StopsAt passes left (start + 1) p = record {
          from = omega (arith, s.from);
          below = omega (arith, s.below);
          before = λ q a b. s.before q (omega arith) b;
          at = s.at;
        } in
        ground (
          arith,
          s.before start (omega arith) (omega (arith, s.from)),
          StopsAt-scan left (start + 1) p rest,
        )
  ]

  pub scan-none : (left start : ℕ) → scan passes left start ≡ none → AllPass passes left start
  unfolding scan
  scan-none zero start e q a b = absurd (omega arith)
  scan-none (suc left) start e q a b = elim (Bool-cases (passes start)) [
    | inl goes_on ↦
        from_rest start q (start + suc left) goes_on
          (λ r c d. scan-none left (start + 1) (ground arith) r c (omega arith)) a b
    | inr stops ↦ absurd (ground arith)
  ]

  pub none-scan : (left start : ℕ) → AllPass passes left start → scan passes left start ≡ none
  unfolding scan
  none-scan zero start all = refl
  none-scan (suc left) start all = ground (
    arith,
    all start (omega arith) (omega arith),
    none-scan left (start + 1) (λ q a b. all q (omega arith) (omega arith)),
  )

-- A test that passes wherever another does stops no earlier.
pub scan_mono :
    (passes more : ℕ → Bool) (left start p : ℕ)
    → scan passes left start ≡ some p
    → ((q : ℕ) → passes q ≡ true → more q ≡ true)
    → more p ≡ false
    → scan more left start ≡ some p
scan_mono passes more left start p e implies stops =
    let s = scan-StopsAt passes left start p e in
    StopsAt-scan more left start p (record {
      from = s.from;
      below = s.below;
      before = λ q a b. implies q (s.before q a b);
      at = stops;
    })
