-- ===== src/Prelude/Bytes.antt =====
-- Lists of bytes, and of entries, that grow.
use Prim.Native.Nat.{ℕ, zero, suc, ◌+◌, ◌≤◌, ◌<◌}
use mathlib.Core.Path.{◌≡◌, refl, ap, ◌∙◌}
use mathlib.Core.Option.{some}
use mathlib.Core.List.{List, [], ◌∷◌, ◌++◌}
use native.Mathlib.Omega.{arith}
use kv_index.Prelude.Lists.{length, get_or, get_elem?, take, drop, length-append}

-- The bytes of `a` are the first of `b`.
pub record Extends (a b : List ℕ) : Type 0 where
  pub longer : length a ≤ length b
  pub same : (j : ℕ) → j < length a → get_or b j 0 ≡ get_or a j 0

pub Extends-refl : (a : List ℕ) → Extends a a
Extends-refl a = record { longer = omega arith; same = λ j h. refl }

pub Extends-trans : {a b c : List ℕ} → Extends a b → Extends b c → Extends a c
Extends-trans ab bc = record {
  longer = omega (arith, ab.longer, bc.longer);
  same = λ j h. bc.same j (omega (arith, ab.longer)) ∙ ab.same j h;
}

pub get_or-append_left {ℓ} :
    {A : Type ℓ} (xs ys : List A) (j : ℕ) (d : A)
    → j < length xs
    → get_or (xs ++ ys) j d ≡ get_or xs j d
get_or-append_left [] ys j d h = absurd (omega arith)
get_or-append_left (x ∷ xs) ys zero d h = refl
get_or-append_left (x ∷ xs) ys (suc j) d h = get_or-append_left xs ys j d (omega arith)

pub get_or-append_right {ℓ} :
    {A : Type ℓ} (xs ys : List A) (j : ℕ) (d : A)
    → get_or (xs ++ ys) (length xs + j) d ≡ get_or ys j d
get_or-append_right [] ys j d = ap (λ (t : ℕ). get_or ys t d) (omega arith)
get_or-append_right (x ∷ xs) ys j d =
    let step : suc (length xs) + j ≡ suc (length xs + j) = omega arith in
    ap (λ (t : ℕ). get_or (x ∷ (xs ++ ys)) t d) step ∙ get_or-append_right xs ys j d

pub Extends-append : (a b : List ℕ) → Extends a (a ++ b)
Extends-append a b = record {
  longer = omega (arith, length-append a b);
  same = λ j h. get_or-append_left a b j 0 h;
}

-- Where two lists agree from `o` to `o + n`, they have one part there.
pub take-drop-eq :
    (o n : ℕ) (a b : List ℕ)
    → o + n ≤ length a
    → o + n ≤ length b
    → ((j : ℕ) → o ≤ j → j < o + n → get_or b j 0 ≡ get_or a j 0)
    → take n (drop o b) ≡ take n (drop o a)
take-drop-eq zero zero a b p q h = refl
take-drop-eq zero (suc n) [] b p q h = absurd (omega arith)
take-drop-eq zero (suc n) (x ∷ a) [] p q h = absurd (omega arith)
take-drop-eq zero (suc n) (x ∷ a) (y ∷ b) p q h =
    ap (λ (t : ℕ). t ∷ take n b) (h 0 (omega arith) (omega arith))
    ∙ ap (◌∷◌ x) (
        take-drop-eq zero n a b (omega arith) (omega arith)
          (λ j u v. h (suc j) (omega arith) (omega arith)))
take-drop-eq (suc o) n [] b p q h = absurd (omega arith)
take-drop-eq (suc o) n (x ∷ a) [] p q h = absurd (omega arith)
take-drop-eq (suc o) n (x ∷ a) (y ∷ b) p q h =
    take-drop-eq o n a b (omega arith) (omega arith)
      (λ j u v. h (suc j) (omega arith) (omega arith))

-- What is appended is the part behind the list.
pub take-drop-append : (a b : List ℕ) → take (length b) (drop (length a) (a ++ b)) ≡ b
take-drop-append [] b = take-all b
  where
    take-all : (b : List ℕ) → take (length b) b ≡ b
    take-all [] = refl
    take-all (x ∷ b) = ap (◌∷◌ x) (take-all b)
take-drop-append (x ∷ a) b = take-drop-append a b

-- Every entry of `xs` is found in `ys` at its place.
abbrev pub KeepsEntries {ℓ} : {A : Type ℓ} → List A → List A → Type ℓ
KeepsEntries {A = A} xs ys = (i : ℕ) (v : A) → get_elem? xs i ≡ some v → get_elem? ys i ≡ some v

pub KeepsEntries-append {ℓ} : {A : Type ℓ} (xs ys : List A) → KeepsEntries xs (xs ++ ys)
KeepsEntries-append [] ys i v h = cc
KeepsEntries-append (x ∷ xs) ys zero v h = h
KeepsEntries-append (x ∷ xs) ys (suc i) v h = KeepsEntries-append xs ys i v h

pub get_elem?-append_last {ℓ} :
    {A : Type ℓ} (xs : List A) (v : A) → get_elem? (xs ++ v ∷ []) (length xs) ≡ some v
get_elem?-append_last [] v = refl
get_elem?-append_last (x ∷ xs) v = get_elem?-append_last xs v
