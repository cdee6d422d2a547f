-- ===== src/Schema/Layout/Bounds.antt =====
-- Where the two placement loops put the fields: in order, aligned, and apart.

use kv_index.Prelude.{
  All, All-map, ℕ, ◌+◌, ◌*◌, ◌%◌, ◌^◌, ◌≤◌, u64, ◌≡◌, sym, ap, ◌∙◌, ◌⊎◌, inl, inr, true, false,
  List, [], ◌∷◌, length, arith, Bool-cases, subst,
}
use kv_index.Base.ByteIo.Align.{IsAlignedUp, align_up-IsAlignedUp}
use kv_index.Schema.{field_type_size, field_type_alignment, FieldType}
use kv_index.Schema.Layout.{FieldLayout}
use kv_index.Schema.Layout.Placement.{
  Apart, AreApart, HasWidth, alignment_of, size_bounds, alignment_bounds, placed, fixed_end,
  ref_end, start_of, placed_ref, placed_fixed,
}

-- A field stands in one of two ranges of the slot, at a multiple of its alignment.
pub record IsPlaced (c fixed_end r ref_end : ℕ) (f : FieldLayout) : Type 0 where
  pub area :
      ((c ≤ f.slot_offset) × (f.slot_offset + f.value_width ≤ fixed_end))
      ⊎ ((r ≤ f.slot_offset) × (f.slot_offset + f.value_width ≤ ref_end))
  pub aligned : f.slot_offset % alignment_of f ≡ 0

pub IsPlaced-widen :
    {c c' e e' r r' u u' : ℕ} (f : FieldLayout)
    → c' ≤ c
    → e ≤ e'
    → r' ≤ r
    → u ≤ u'
    → IsPlaced c e r u f
    → IsPlaced c' e' r' u' f
IsPlaced-widen f p q s t h = record { area = ground (arith, h.area); aligned = h.aligned }

-- What the loops make of `n` fields: the placed fields and the ends of both cursors.
pub record Outcome (c r n : ℕ) (fields : List FieldLayout) (fixed_to ref_to : ℕ) : Type 0 where
  pub fixed_from : c ≤ fixed_to
  pub fixed_bound : fixed_to ≤ c + 24 * n
  pub ref_from : r ≤ ref_to
  pub ref_bound : ref_to ≤ r + 16 * n
  pub all : All (IsPlaced c fixed_to r ref_to) fields

abbrev pub OutcomeOf : ℕ → ℕ → List FieldLayout → Type 0
OutcomeOf c r fs = Outcome c r (length fs) (placed c r fs) (fixed_end c fs) (ref_end c r fs)

-- The cursors do not wrap round.
abbrev pub Fits : ℕ → ℕ → List FieldLayout → Type 0
Fits c r fs = (c + 24 * length fs ≤ 2 ^ 63) × (r + 16 * length fs ≤ 2 ^ 63) × (r % 8 ≡ 0)

module _ (c r : ℕ) (f : FieldLayout) (fs : List FieldLayout) (w : HasWidth f)
    (h : Fits c r (f ∷ fs)) where
  module _ (e : f.uses_ref ≡ true) where
    ref_next : u64 (r + 16) ≡ r + 16
    ref_next = omega (arith, h.1)

    ref_Fits : Fits c (r + 16) fs
    ref_Fits = (omega (arith, h.0), omega (arith, h.1), omega (arith, h.2))

    ref_Outcome : OutcomeOf c (r + 16) fs → OutcomeOf c r (f ∷ fs)
    ref_Outcome o =
        let s = placed_ref c r f fs e in
        rw (s.0, s.1, s.2, ref_next)
          (record {
            fixed_from = o.fixed_from;
            fixed_bound = omega (arith, o.fixed_bound);
            ref_from = omega (arith, o.ref_from);
            ref_bound = omega (arith, o.ref_bound);
            all = (
              record { area = inr (omega arith, ground (arith, o.ref_from)); aligned = rw e (h.2) },
              All-map (placed c (r + 16) fs)
                  (λ g. IsPlaced-widen g (omega arith) (omega arith) (omega arith) (omega arith))
                  o.all,
            );
          })

  module _ (e : f.uses_ref ≡ false) where
    start : IsAlignedUp c (field_type_alignment f.type) (start_of c f)
    start =
        align_up-IsAlignedUp c (field_type_alignment f.type)
          (omega (arith, alignment_bounds f.type)) (omega (arith, alignment_bounds f.type, h.0))

    width : (1 ≤ f.value_width) × (f.value_width ≤ 16)
    width = ground (arith, w, size_bounds f.type)

    abbrev next : ℕ
    next = start_of c f + f.value_width

    fixed_next : u64 next ≡ next
    fixed_next = omega (arith, h.0, start.least, alignment_bounds f.type, width)

    fixed_Fits : Fits next r fs
    fixed_Fits =
        (omega (arith, h.0, start.least, alignment_bounds f.type, width), omega (arith, h.1), h.2)

    fixed_Outcome : OutcomeOf next r fs → OutcomeOf c r (f ∷ fs)
    fixed_Outcome o =
        let s = placed_fixed c r f fs e in
        rw (s.0, s.1, s.2, fixed_next)
          (record {
            fixed_from = omega (arith, o.fixed_from, start.from);
            fixed_bound = omega (arith, o.fixed_bound, start.least, alignment_bounds f.type, width);
            ref_from = o.ref_from;
            ref_bound = omega (arith, o.ref_bound);
            all = (
              record { area = inl (start.from, o.fixed_from); aligned = rw e start.multiple },
              All-map (placed next r fs)
                  (λ g.
                    IsPlaced-widen g (omega (arith, start.from)) (omega arith) (omega arith)
                      (omega arith))
                  o.all,
            );
          })

-- The places that the loops give, whatever the fields, where no cursor wraps round.
pub placed-Outcome :
    (c r : ℕ) (fs : List FieldLayout) → All HasWidth fs → Fits c r fs → OutcomeOf c r fs
unfolding kv_index.Schema.Layout.place_fixed kv_index.Schema.Layout.place_refs
placed-Outcome c r [] w h = record {
  fixed_from = omega arith;
  fixed_bound = omega arith;
  ref_from = omega arith;
  ref_bound = omega arith;
  all = tt;
}
placed-Outcome c r (f ∷ fs) w h = elim (Bool-cases f.uses_ref) [
  | inl e ↦
      ref_Outcome c r f fs w.0 h e (placed-Outcome c (r + 16) fs w.1 (ref_Fits c r f fs w.0 h e))
  | inr e ↦
      fixed_Outcome c r f fs w.0 h e
        (placed-Outcome (next c r f fs w.0 h e) r fs w.1 (fixed_Fits c r f fs w.0 h e))
]

behind_ref :
    (c r : ℕ) (f g : FieldLayout) {to ref_to : ℕ}
    → HasWidth f
    → f.uses_ref ≡ true
    → to ≤ r
    → IsPlaced c to (r + 16) ref_to g
    → AreApart (record f { slot_offset = r }) g
behind_ref c r f g w e before p = ground (arith, p.area)

behind_fixed :
    (c r : ℕ) (f g : FieldLayout) {to ref_to : ℕ}
    → start_of c f + f.value_width ≤ r
    → IsPlaced (start_of c f + f.value_width) to r ref_to g
    → AreApart (record f { slot_offset = start_of c f }) g
behind_fixed c r f g before p = ground (arith, p.area)

-- With the fixed-width area before the references, no two fields share a byte.
pub placed-Apart :
    (c r : ℕ) (fs : List FieldLayout)
    → All HasWidth fs
    → Fits c r fs
    → fixed_end c fs ≤ r
    → Apart (placed c r fs)
unfolding kv_index.Schema.Layout.place_fixed kv_index.Schema.Layout.place_refs
placed-Apart c r [] w h before = tt
placed-Apart c r (f ∷ fs) w h before = elim (Bool-cases f.uses_ref) [
  | inl e ↦
      let s = placed_ref c r f fs e in
      let fits = ref_Fits c r f fs w.0 h e in
      let o : OutcomeOf c (r + 16) fs = placed-Outcome c (r + 16) fs w.1 fits in
      let eq : placed c r (f ∷ fs) ≡ record f { slot_offset = r } ∷ placed c (r + 16) fs =
        s.0
        ∙ ap (λ (t : ℕ). record f { slot_offset = r } ∷ placed c t fs)
            (ref_next c r f fs w.0 h e) in
      subst Apart (sym eq) (
        All-map (placed c (r + 16) fs) (λ g. behind_ref c r f g w.0 e (omega (arith, s.1))) o.all,
        placed-Apart c (r + 16) fs w.1 fits (omega (arith, s.1)),
      )
  | inr e ↦
      let s = placed_fixed c r f fs e in
      let n : ℕ = next c r f fs w.0 h e in
      let fits = fixed_Fits c r f fs w.0 h e in
      let o : OutcomeOf n r fs = placed-Outcome n r fs w.1 fits in
      let same : fixed_end n fs ≡ fixed_end c (f ∷ fs) =
        sym (s.1 ∙ ap (λ (t : ℕ). fixed_end t fs) (fixed_next c r f fs w.0 h e)) in
      let eq : placed c r (f ∷ fs) ≡ record f { slot_offset = start_of c f } ∷ placed n r fs =
        s.0
        ∙ ap (λ (t : ℕ). record f { slot_offset = start_of c f } ∷ placed t r fs)
            (fixed_next c r f fs w.0 h e) in
      subst Apart (sym eq) (
        All-map (placed n r fs) (λ g. behind_fixed c r f g (omega (arith, same, o.fixed_from)))
            o.all,
        placed-Apart n r fs w.1 fits (omega (arith, same)),
      )
]
