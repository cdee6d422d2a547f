-- ===== src/Ingest/Encode/Usable.antt =====
-- The fields of a layout that `Compile` (src/model/schema.cc) made can be written and read apart.
use kv_index.Prelude.{
  All, All-map, ℕ, suc, ◌+◌, ◌/◌, ◌^◌, ◌≤◌, ◌<◌, ◌==◌, u64, ◌≡◌, ◌≢◌, ◌||◌, refl, sym, subst, inl,
  inr, List, [], ◌∷◌, length, arith, Bool-cases, some,
}
use kv_index.Schema.{FieldSpec, RuntimeSchema, is_string}
use kv_index.Schema.Layout.{
  FieldLayout, CompiledRowLayout, sort_by_id, field_layout, field_layouts, place_fixed, place_refs,
  layout_of, compile, find_layout, is_ref_field,
}
use kv_index.Schema.Layout.Placement.{
  Apart, AreApart, HasWidth, placed, start_of, placed_ref, placed_fixed,
}
use kv_index.Schema.Layout.Compile.{IsLaidOut, IsInSlot, Numbered, compile-IsLaidOut}
use kv_index.Ingest.Encode.Round.{IsUsable}

-- What `field_layout` gives a field, whatever its place.
pub record IsShaped (f : FieldLayout) : Type 0 where
  pub width : HasWidth f
  pub by_ref : f.uses_ref ≡ (f.is_list || is_string f.type)

at_place :
    (f : FieldLayout) (offset : ℕ) → IsShaped f → IsShaped (record f { slot_offset = offset })
at_place f offset s = record { width = s.width; by_ref = s.by_ref }

placed-IsShaped : (c r : ℕ) (fs : List FieldLayout) → All IsShaped fs → All IsShaped (placed c r fs)
unfolding place_fixed place_refs
placed-IsShaped c r [] h = tt
placed-IsShaped c r (f ∷ fs) h = elim (Bool-cases f.uses_ref) [
  | inl e ↦
      subst (All IsShaped) (sym (placed_ref c r f fs e).0)
        (at_place f r h.0, placed-IsShaped c (u64 (r + 16)) fs h.1)
  | inr e ↦
      subst (All IsShaped) (sym (placed_fixed c r f fs e).0) (
        at_place f (start_of c f) h.0,
        placed-IsShaped (u64 (start_of c f + f.value_width)) r fs h.1,
      )
]

field_layouts-IsShaped : (i : ℕ) (fs : List FieldSpec) → All IsShaped (field_layouts i fs)
unfolding field_layouts field_layout is_ref_field
field_layouts-IsShaped i [] = tt
field_layouts-IsShaped i (f ∷ fs) =
    (record { width = refl; by_ref = refl }, field_layouts-IsShaped (i + 1) fs)

compile-IsShaped : (schema : RuntimeSchema) → All IsShaped (compile schema).fields
unfolding compile layout_of
compile-IsShaped schema =
    placed-IsShaped _ _ (field_layouts 0 (sort_by_id schema.active_fields))
      (field_layouts-IsShaped 0 (sort_by_id schema.active_fields))

-- What holds of all fields holds of the one that is found.
find_layout-All :
    (P : FieldLayout → Type 0) (id : ℕ) (fs : List FieldLayout) (f : FieldLayout)
    → All P fs
    → find_layout id fs ≡ some f
    → P f
unfolding find_layout
find_layout-All P id [] f h found = cc
find_layout-All P id (x ∷ xs) f h found = elim (Bool-cases (x.field_id == id)) [
  | inl here ↦ let same : x ≡ f = ground (arith, here) in subst P same (h.0)
  | inr later ↦ find_layout-All P id xs f (h.1) (rw later at found)
]

-- What holds of any two fields of a list, one before the other, holds of two that are found.
module _ (R : FieldLayout → FieldLayout → Type 0) (flip : (f g : FieldLayout) → R f g → R g f) where
  abbrev Pairs : List FieldLayout → Type 0
  Pairs [] = Unit
  Pairs (f ∷ fs) = All (R f) fs × Pairs fs

  find_layout-Pairs :
      (i j : ℕ) (fs : List FieldLayout) (f g : FieldLayout)
      → i ≢ j
      → Pairs fs
      → find_layout i fs ≡ some f
      → find_layout j fs ≡ some g
      → R f g
  unfolding find_layout
  find_layout-Pairs i j [] f g ne h a b = cc
  find_layout-Pairs i j (x ∷ xs) f g ne h a b = elim (Bool-cases (x.field_id == i)) [
    | inl is_f ↦
        let same : x ≡ f = ground (arith, is_f) in
        let rest : find_layout j xs ≡ some g = ground (arith, is_f) in
        subst (λ t. R t g) same (find_layout-All (R x) j xs g (h.0) rest)
    | inr no_f ↦
        let rest : find_layout i xs ≡ some f = ground (arith, no_f) in
        elim (Bool-cases (x.field_id == j)) [
          | inl is_g ↦
              let same : x ≡ g = ground (arith, is_g) in
              subst (λ t. R f t) same (flip x f (find_layout-All (R x) i xs f (h.0) rest))
          | inr no_g ↦ find_layout-Pairs i j xs f g ne (h.1) rest (rw no_g at b)
        ]
  ]

-- Presence bits that are numbered are below the number of fields, and differ.
Numbered-below :
    (i : ℕ) (fs : List FieldLayout)
    → Numbered i fs
    → All (λ f. (i ≤ f.presence_bit_index) × (f.presence_bit_index < i + length fs)) fs
Numbered-below i [] h = tt
Numbered-below i (f ∷ fs) h = (
  (omega (arith, h.0), omega (arith, h.0)),
  All-map fs (λ g p. (omega (arith, p.0), omega (arith, p.1))) (Numbered-below (suc i) fs h.1),
)

abbrev OwnBits : FieldLayout → FieldLayout → Type 0
OwnBits f g = f.presence_bit_index ≢ g.presence_bit_index

flip_bits : (f g : FieldLayout) → OwnBits f g → OwnBits g f
flip_bits f g h e = h (sym e)

flip_apart : (f g : FieldLayout) → AreApart f g → AreApart g f
flip_apart f g (inl h) = inr h
flip_apart f g (inr h) = inl h

Numbered-OwnBits : (i : ℕ) (fs : List FieldLayout) → Numbered i fs → Pairs OwnBits flip_bits fs
Numbered-OwnBits i [] h = tt
Numbered-OwnBits i (f ∷ fs) h = (
  All-map fs (λ g p e. absurd (omega (arith, h.0, p.0, e))) (Numbered-below (suc i) fs h.1),
  Numbered-OwnBits (suc i) fs h.1,
)

Apart-Pairs : (fs : List FieldLayout) → Apart fs → Pairs AreApart flip_apart fs
Apart-Pairs [] h = tt
Apart-Pairs (f ∷ fs) h = (h.0, Apart-Pairs fs h.1)

-- The fields of a layout that is laid out, with the shapes that `Compile` gives them.
IsLaidOut-IsUsable :
    (layout : CompiledRowLayout)
    → IsLaidOut layout
    → All IsShaped layout.fields
    → IsUsable layout.fields
IsLaidOut-IsUsable layout l shaped =
    let bit : (id : ℕ) (f : FieldLayout)
        → find_layout id layout.fields ≡ some f
        → f.presence_bit_index / 8 < layout.presence_bitmap_bytes =
      λ id f found.
        let b =
          find_layout-All
            (λ f. (0 ≤ f.presence_bit_index) × (f.presence_bit_index < 0 + length layout.fields)) id
            layout.fields f (Numbered-below 0 layout.fields l.own_bits) found in
        omega (arith, b.1, l.has_bits) in
    let place : (id : ℕ) (f : FieldLayout)
        → find_layout id layout.fields ≡ some f
        → layout.presence_bitmap_bytes ≤ f.slot_offset =
      λ id f found.
        (find_layout-All (IsInSlot layout.presence_bitmap_bytes layout.row_slot_size) id
          layout.fields f l.in_slot found).0 in
    record {
      placed = λ id f found.
          let s = find_layout-All IsShaped id layout.fields f shaped found in
          record {
            width = s.width;
            by_ref = s.by_ref;
            bit_before = omega (arith, bit id f found, place id f found);
          };
      separate = λ i j f g ne a b. record {
        apart =
            find_layout-Pairs AreApart flip_apart i j layout.fields f g ne
              (Apart-Pairs layout.fields l.own_bytes) a b;
        own_bits =
            find_layout-Pairs OwnBits flip_bits i j layout.fields f g ne
              (Numbered-OwnBits 0 layout.fields l.own_bits) a b;
        bit_before = omega (arith, bit i f a, place j g b);
        other_bit_before = omega (arith, bit j g b, place i f a);
      };
    }

-- The fields of a compiled layout, of at most 2 ^ 32, are placed and apart.
pub compile-IsUsable :
    (schema : RuntimeSchema)
    → length schema.active_fields ≤ 2 ^ 32
    → IsUsable (compile schema).fields
compile-IsUsable schema few =
    IsLaidOut-IsUsable (compile schema) (compile-IsLaidOut schema few).1 (compile-IsShaped schema)
