-- ===== src/Prelude/Assoc.antt =====
-- Maps by number, as lists of pairs.
use Prim.Native.Nat.{ℕ}
use mathlib.Core.Path.{◌≡◌, refl}
use mathlib.Core.Logic.{◌≢◌}
use mathlib.Core.Option.{Option, none, some}
use mathlib.Core.List.{List, [], ◌∷◌}
use native.Mathlib.Omega.{arith}
use kv_index.Prelude.Tests.{◌==◌, if◌then◌else◌}

-- `std::unordered_map`: `find`, `emplace` (nothing where the key is there), `it->second = v`, `erase`.
unfoldable pub find {ℓ} : {A : Type ℓ} → ℕ → List (ℕ × A) → Option A
find id [] = none
find id (x ∷ xs) = if x.0 == id then some (x.1) else find id xs

unfoldable pub emplace {ℓ} : {A : Type ℓ} → ℕ → A → List (ℕ × A) → List (ℕ × A)
emplace id a [] = (id, a) ∷ []
emplace id a (x ∷ xs) = if x.0 == id then x ∷ xs else x ∷ emplace id a xs

unfoldable pub assign {ℓ} : {A : Type ℓ} → ℕ → A → List (ℕ × A) → List (ℕ × A)
assign id a [] = []
assign id a (x ∷ xs) = if x.0 == id then (x.0, a) ∷ xs else x ∷ assign id a xs

unfoldable pub erase {ℓ} : {A : Type ℓ} → ℕ → List (ℕ × A) → List (ℕ × A)
erase id [] = []
erase id (x ∷ xs) = if x.0 == id then xs else x ∷ erase id xs

module _ {ℓ} {A : Type ℓ} where
  pub find-assign_self :
      (id : ℕ) (a old : A) (xs : List (ℕ × A))
      → find id xs ≡ some old
      → find id (assign id a xs) ≡ some a
  unfolding find assign
  find-assign_self id a old [] h = cc
  find-assign_self id a old (x ∷ xs) h = ground (arith, find-assign_self id a old xs)

  pub find-assign_ne :
      (id j : ℕ) (a : A) (xs : List (ℕ × A)) → id ≢ j → find j (assign id a xs) ≡ find j xs
  unfolding find assign
  find-assign_ne id j a [] h = refl
  find-assign_ne id j a (x ∷ xs) h = ground (arith, find-assign_ne id j a xs h)

  pub find-emplace_old :
      (id j : ℕ) (a old : A) (xs : List (ℕ × A))
      → find j xs ≡ some old
      → find j (emplace id a xs) ≡ some old
  unfolding find emplace
  find-emplace_old id j a old [] h = cc
  find-emplace_old id j a old (x ∷ xs) h = ground (arith, find-emplace_old id j a old xs)

  pub find-emplace_new :
      (id : ℕ) (a : A) (xs : List (ℕ × A)) → find id xs ≡ none → find id (emplace id a xs) ≡ some a
  unfolding find emplace
  find-emplace_new id a [] h = ground arith
  find-emplace_new id a (x ∷ xs) h = ground (arith, find-emplace_new id a xs)

  pub find-emplace_ne :
      (id j : ℕ) (a : A) (xs : List (ℕ × A)) → id ≢ j → find j (emplace id a xs) ≡ find j xs
  unfolding find emplace
  find-emplace_ne id j a [] h = ground arith
  find-emplace_ne id j a (x ∷ xs) h = ground (arith, find-emplace_ne id j a xs h)
