-- ===== src/Prelude/Map.antt =====
-- Lists by their elements, and mapped lists.
use Prim.Native.Nat.{ℕ, zero, suc, ◌<◌}
use mathlib.Core.Path.{◌≡◌, refl, ap, ◌∙◌}
use mathlib.Core.Logic.{◌⊎◌, inl, inr}
use mathlib.Core.List.{List, [], ◌∷◌, map}
use native.Mathlib.Omega.{arith}
use kv_index.Prelude.Lists.{length, get_or}

module _ {ℓ} {A : Type ℓ} where
  -- Lists of one length with the same elements are equal.
  pub list_ext :
      (xs ys : List A) (d : A)
      → length xs ≡ length ys
      → ((j : ℕ) → j < length xs → get_or xs j d ≡ get_or ys j d)
      → xs ≡ ys
  list_ext [] [] d same h = refl
  list_ext [] (y ∷ ys) d same h = absurd (omega arith)
  list_ext (x ∷ xs) [] d same h = absurd (omega arith)
  list_ext (x ∷ xs) (y ∷ ys) d same h =
      ap (λ t. t ∷ xs) (h 0 (omega arith))
      ∙ ap (◌∷◌ y) (list_ext xs ys d (omega arith) (λ j b. h (suc j) (omega arith)))

module _ {ℓ κ} {A : Type ℓ} {B : Type κ} where
  pub get_or-map :
      (f : A → B) (xs : List A) (j : ℕ) (a : A) (b : B)
      → j < length xs
      → get_or (map f xs) j b ≡ f (get_or xs j a)
  get_or-map f [] j a b h = absurd (omega arith)
  get_or-map f (x ∷ xs) zero a b h = refl
  get_or-map f (x ∷ xs) (suc j) a b h = get_or-map f xs j a b (omega arith)

  pub length-map : (f : A → B) (xs : List A) → length (map f xs) ≡ length xs
  length-map f [] = refl
  length-map f (x ∷ xs) = ap suc (length-map f xs)

pub map-map {ℓ κ μ} :
    {A : Type ℓ} {B : Type κ} {C : Type μ} (f : B → C) (g : A → B) (xs : List A)
    → map f (map g xs) ≡ map (λ (x : A). f (g x)) xs
map-map f g [] = refl
map-map f g (x ∷ xs) = ap (◌∷◌ (f (g x))) (map-map f g xs)

abbrev pub All {ℓ κ} : {A : Type ℓ} → (A → Type κ) → List A → Type κ
All P [] = Unit
All P (x ∷ xs) = P x × All P xs

pub All-map {ℓ κ} :
    {A : Type ℓ} {P Q : A → Type κ} (xs : List A) → ((x : A) → P x → Q x) → All P xs → All Q xs
All-map [] f h = tt
All-map (x ∷ xs) f h = (f x h.0, All-map xs f h.1)

abbrev pub Any {ℓ} : {A : Type ℓ} → (A → Type 0) → List A → Type 0
Any P [] = ⊥
Any P (x ∷ xs) = P x ⊎ Any P xs

pub Any-map {ℓ} :
    {A : Type ℓ} {P Q : A → Type 0} (xs : List A) → ((x : A) → P x → Q x) → Any P xs → Any Q xs
Any-map [] f h = absurd h
Any-map (x ∷ xs) f (inl h) = inl (f x h)
Any-map (x ∷ xs) f (inr h) = inr (Any-map xs f h)

-- A list mapped: what holds of the images.
pub map-All {ℓ κ} :
    {A : Type ℓ} {B : Type κ} (P : B → Type 0) (f : A → B) (xs : List A)
    → All (λ (x : A). P (f x)) xs
    → All P (map f xs)
map-All P f [] h = tt
map-All P f (x ∷ xs) h = (h.0, map-All P f xs h.1)

pub map-Any {ℓ κ} :
    {A : Type ℓ} {B : Type κ} (P : B → Type 0) (f : A → B) (xs : List A)
    → Any (λ (x : A). P (f x)) xs
    → Any P (map f xs)
map-Any P f [] h = absurd h
map-Any P f (x ∷ xs) (inl h) = inl h
map-Any P f (x ∷ xs) (inr h) = inr (map-Any P f xs h)

-- Each element of a list is among its elements.
pub All-Any {ℓ} :
    {A : Type ℓ} (P : A → A → Type 0) (xs : List A)
    → ((x : A) → P x x)
    → All (λ (x : A). Any (P x) xs) xs
All-Any P [] h = tt
All-Any P (x ∷ xs) h = (inl (h x), All-map xs (λ y p. inr p) (All-Any P xs h))

pub All-every {ℓ κ} : {A : Type ℓ} {P : A → Type κ} (xs : List A) → ((x : A) → P x) → All P xs
All-every [] h = tt
All-every (x ∷ xs) h = (h x, All-every xs h)

pub All-get_or {ℓ κ} :
    {A : Type ℓ} (P : A → Type κ) (xs : List A) (k : ℕ) (d : A)
    → All P xs
    → k < length xs
    → P (get_or xs k d)
All-get_or P [] k d h b = absurd (omega arith)
All-get_or P (x ∷ xs) zero d h b = h.0
All-get_or P (x ∷ xs) (suc k) d h b = All-get_or P xs k d h.1 (omega arith)

-- What one function undoes of the other on the elements, it undoes on the list.
pub map-map_self {ℓ κ} :
    {A : Type ℓ} {B : Type κ} (g : B → A) (f : A → B) (xs : List A)
    → All (λ (x : A). g (f x) ≡ x) xs
    → map g (map f xs) ≡ xs
map-map_self g f [] h = refl
map-map_self g f (x ∷ xs) h =
    ap (λ t. t ∷ map g (map f xs)) (h.0) ∙ ap (◌∷◌ x) (map-map_self g f xs (h.1))
