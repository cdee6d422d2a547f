-- ===== src/Schema/Layout/Placement.antt =====
-- The two loops of `Compile` that give fields their places: the fixed-width fields stand between one
-- cursor and its end, those behind references between the other and its end, and no two overlap.
use kv_index.Prelude.{
  All, ℕ, ◌+◌, ◌≤◌, u64, ◌≡◌, ◌⊎◌, true, false, List, [], ◌∷◌, if◌then◌else◌, arith,
}
use kv_index.Base.ByteIo.{align_up}
use kv_index.Schema.{field_type_size, field_type_alignment, FieldType}
use kv_index.Schema.Layout.{FieldLayout, place_fixed, place_refs}

-- Two fields share no byte.
abbrev pub AreApart : FieldLayout → FieldLayout → Type 0
AreApart f g =
    (f.slot_offset + f.value_width ≤ g.slot_offset)
    ⊎ (g.slot_offset + g.value_width ≤ f.slot_offset)

-- No two fields of a list share a byte.
abbrev pub Apart : List FieldLayout → Type 0
Apart [] = Unit
Apart (f ∷ fs) = All (AreApart f) fs × Apart fs

abbrev pub alignment_of : FieldLayout → ℕ
alignment_of f = if f.uses_ref then 8 else field_type_alignment f.type

-- What `Compile` gives each field before it places it.
abbrev pub HasWidth : FieldLayout → Type 0
HasWidth f = f.value_width ≡ (if f.uses_ref then 16 else field_type_size f.type)

pub size_bounds : (t : FieldType) → (1 ≤ field_type_size t) × (field_type_size t ≤ 16)
unfolding field_type_size
size_bounds t = ground arith

pub alignment_bounds : (t : FieldType) → (1 ≤ field_type_alignment t) × (field_type_alignment t ≤ 8)
unfolding field_type_alignment
alignment_bounds t = ground arith

-- Both loops, one after the other.
abbrev pub placed : ℕ → ℕ → List FieldLayout → List FieldLayout
placed c r fs = (place_refs r (place_fixed c fs).0).0

abbrev pub fixed_end : ℕ → List FieldLayout → ℕ
fixed_end c fs = (place_fixed c fs).1

abbrev pub ref_end : ℕ → ℕ → List FieldLayout → ℕ
ref_end c r fs = (place_refs r (place_fixed c fs).0).1

abbrev pub start_of : ℕ → FieldLayout → ℕ
start_of c f = align_up c (field_type_alignment f.type)

module _ (c r : ℕ) (f : FieldLayout) (fs : List FieldLayout) where
  pub placed_ref :
      f.uses_ref ≡ true
      → (placed c r (f ∷ fs) ≡ record f { slot_offset = r } ∷ placed c (u64 (r + 16)) fs)
        × (fixed_end c (f ∷ fs) ≡ fixed_end c fs)
        × (ref_end c r (f ∷ fs) ≡ ref_end c (u64 (r + 16)) fs)
  unfolding place_fixed place_refs
  placed_ref e = ground arith

  pub placed_fixed :
      f.uses_ref ≡ false
      → (placed c r (f ∷ fs)
          ≡ record f { slot_offset = start_of c f }
            ∷ placed (u64 (start_of c f + f.value_width)) r fs)
        × (fixed_end c (f ∷ fs) ≡ fixed_end (u64 (start_of c f + f.value_width)) fs)
        × (ref_end c r (f ∷ fs) ≡ ref_end (u64 (start_of c f + f.value_width)) r fs)
  unfolding place_fixed place_refs
  placed_fixed e = ground arith
