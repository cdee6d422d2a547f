-- ===== src/Schema/Layout/Compile.antt =====
-- The layout that `Compile` makes of a schema: every field has its own presence bit and its own bytes
-- in the slot.
use kv_index.Prelude.{
  All, All-map, ℕ, suc, ◌+◌, ◌*◌, ◌/◌, ◌%◌, ◌^◌, ◌≤◌, u64, ◌≡◌, refl, sym, ap, ◌∙◌, inl, inr, List,
  [], ◌∷◌, length, arith, Bool-cases, subst,
}
use kv_index.Base.ByteIo.{align_up}
use kv_index.Base.ByteIo.Align.{IsAlignedUp, align_up-IsAlignedUp}
use kv_index.Schema.{FieldSpec, RuntimeSchema}
use kv_index.Schema.Layout.{
  FieldLayout, CompiledRowLayout, insert_by_id, sort_by_id, field_layout, field_layouts,
  place_fixed, place_refs, layout_of, compile,
}
use kv_index.Schema.Layout.Fields.{HasFieldsOf, compile-HasFieldsOf}
use kv_index.Schema.Layout.Placement.{
  Apart, HasWidth, alignment_of, placed, fixed_end, ref_end, start_of, placed_ref, placed_fixed,
}
use kv_index.Schema.Layout.Bounds.{Outcome, OutcomeOf, Fits, placed-Outcome, placed-Apart}

-- The presence bits are the fields' positions from `i` on.
abbrev pub Numbered : ℕ → List FieldLayout → Type 0
Numbered i [] = Unit
Numbered i (f ∷ fs) = (f.presence_bit_index ≡ i) × Numbered (suc i) fs

-- A field stands behind the bitmap and in the slot, aligned.
abbrev pub IsInSlot : ℕ → ℕ → FieldLayout → Type 0
IsInSlot bitmap slot f =
    (bitmap ≤ f.slot_offset)
    × (f.slot_offset + f.value_width ≤ slot)
    × (f.slot_offset % alignment_of f ≡ 0)

pub record IsLaidOut (layout : CompiledRowLayout) : Type 0 where
  pub has_bits : length layout.fields ≤ 8 * layout.presence_bitmap_bytes
  pub own_bits : Numbered 0 layout.fields
  pub in_slot : All (IsInSlot layout.presence_bitmap_bytes layout.row_slot_size) layout.fields
  pub own_bytes : Apart layout.fields
  pub whole_words : layout.row_slot_size % 8 ≡ 0

length-insert : (f : FieldSpec) (fs : List FieldSpec) → length (insert_by_id f fs) ≡ suc (length fs)
unfolding insert_by_id
length-insert f [] = refl
length-insert f (g ∷ gs) = ground (arith, length-insert f gs)

length-sort : (fs : List FieldSpec) → length (sort_by_id fs) ≡ length fs
unfolding sort_by_id
length-sort [] = refl
length-sort (f ∷ fs) = length-insert f (sort_by_id fs) ∙ ap suc (length-sort fs)

length-field_layouts : (i : ℕ) (fs : List FieldSpec) → length (field_layouts i fs) ≡ length fs
unfolding field_layouts
length-field_layouts i [] = refl
length-field_layouts i (f ∷ fs) = ap suc (length-field_layouts (i + 1) fs)

field_layouts-HasWidth : (i : ℕ) (fs : List FieldSpec) → All HasWidth (field_layouts i fs)
unfolding field_layouts field_layout
field_layouts-HasWidth i [] = tt
field_layouts-HasWidth i (f ∷ fs) = (refl, field_layouts-HasWidth (i + 1) fs)

field_layouts-Numbered : (i : ℕ) (fs : List FieldSpec) → Numbered i (field_layouts i fs)
unfolding field_layouts field_layout
field_layouts-Numbered i [] = tt
field_layouts-Numbered i (f ∷ fs) = (
  refl,
  subst (λ t. Numbered t (field_layouts (i + 1) fs)) (omega arith)
      (field_layouts-Numbered (i + 1) fs),
)

placed-Numbered : (i c r : ℕ) (fs : List FieldLayout) → Numbered i fs → Numbered i (placed c r fs)
unfolding place_fixed place_refs
placed-Numbered i c r [] h = tt
placed-Numbered i c r (f ∷ fs) h = elim (Bool-cases f.uses_ref) [
  | inl e ↦
      subst (Numbered i) (sym (placed_ref c r f fs e).0)
        (h.0, placed-Numbered (suc i) c (u64 (r + 16)) fs h.1)
  | inr e ↦
      subst (Numbered i) (sym (placed_fixed c r f fs e).0)
        (h.0, placed-Numbered (suc i) (u64 (start_of c f + f.value_width)) r fs h.1)
]

length-placed : (c r : ℕ) (fs : List FieldLayout) → length (placed c r fs) ≡ length fs
unfolding place_fixed place_refs
length-placed c r [] = refl
length-placed c r (f ∷ fs) = elim (Bool-cases f.uses_ref) [
  | inl e ↦ ap length (placed_ref c r f fs e).0 ∙ ap suc (length-placed c (u64 (r + 16)) fs)
  | inr e ↦
      ap length (placed_fixed c r f fs e).0
      ∙ ap suc (length-placed (u64 (start_of c f + f.value_width)) r fs)
]

module _ (version : ℕ) (specs : List FieldSpec) (few : length specs ≤ 2 ^ 32) where
  abbrev layouts : List FieldLayout
  layouts = field_layouts 0 (sort_by_id specs)

  abbrev number : ℕ
  number = length (sort_by_id specs)

  abbrev bitmap : ℕ
  bitmap = align_up ((number + 7) / 8) 8

  abbrev refs : ℕ
  refs = align_up (fixed_end bitmap layouts) 8

  count : length layouts ≡ length specs
  count = length-field_layouts 0 (sort_by_id specs) ∙ length-sort specs

  bitmap_up : IsAlignedUp ((number + 7) / 8) 8 bitmap
  bitmap_up = align_up-IsAlignedUp _ 8 (omega arith) (omega (arith, length-sort specs))

  -- The fixed-width fields end where they do whatever the references' cursor.
  fixed_part :
      Outcome bitmap 0
        (length layouts)
        (placed bitmap 0 layouts)
        (fixed_end bitmap layouts)
        (ref_end bitmap 0 layouts)
  fixed_part =
      placed-Outcome bitmap 0 layouts (field_layouts-HasWidth 0 (sort_by_id specs))
        (omega (arith, bitmap_up.least, length-sort specs, count), omega (arith, count), refl)

  refs_up : IsAlignedUp (fixed_end bitmap layouts) 8 refs
  refs_up =
      align_up-IsAlignedUp _ 8 (omega arith)
        (omega (arith, fixed_part.fixed_bound, bitmap_up.least, length-sort specs, count))

  fits : Fits bitmap refs layouts
  fits = (
    omega (arith, bitmap_up.least, length-sort specs, count),
    omega (arith, refs_up.least, fixed_part.fixed_bound, bitmap_up.least, length-sort specs, count),
    refs_up.multiple,
  )

  outcome : OutcomeOf bitmap refs layouts
  outcome = placed-Outcome bitmap refs layouts (field_layouts-HasWidth 0 (sort_by_id specs)) fits

  slot_up : IsAlignedUp (ref_end bitmap refs layouts) 8 (align_up (ref_end bitmap refs layouts) 8)
  slot_up = align_up-IsAlignedUp _ 8 (omega arith) (
      omega (
        arith,
        outcome.ref_bound,
        refs_up.least,
        fixed_part.fixed_bound,
        bitmap_up.least,
        length-sort specs,
        count,
      ))

  layout_of-IsLaidOut : IsLaidOut (layout_of version specs)
  unfolding layout_of
  layout_of-IsLaidOut = record {
    has_bits =
        omega (arith, length-placed bitmap refs layouts, count, bitmap_up.from, length-sort specs);
    own_bits = placed-Numbered 0 bitmap refs layouts (field_layouts-Numbered 0 (sort_by_id specs));
    in_slot =
        All-map (placed bitmap refs layouts)
          (λ f p. ground (
            arith, p.area, p.aligned, slot_up.from, refs_up.from, outcome.ref_from,
            fixed_part.fixed_from,
          ))
          outcome.all;
    own_bytes =
        placed-Apart bitmap refs layouts (field_layouts-HasWidth 0 (sort_by_id specs)) fits
          refs_up.from;
    whole_words = slot_up.multiple;
  }

-- The layout compiled from a schema of at most 2^32 active fields (their identifiers have 32 bits) has
-- the schema's version and exactly its active fields, each once, by increasing identifier, with the
-- name, type, shape, encoding and default of the schema and the width of their values; the bitmap has
-- a bit for every field, and each field its own; every field stands behind the bitmap and inside the
-- slot, at a multiple of its alignment; no two fields share a byte; the slot is made of whole 8-byte
-- words.
pub compile-IsLaidOut :
    (schema : RuntimeSchema)
    → length schema.active_fields ≤ 2 ^ 32
    → HasFieldsOf schema (compile schema) × IsLaidOut (compile schema)
unfolding compile
compile-IsLaidOut schema few =
    let l = layout_of-IsLaidOut schema.version schema.active_fields few in
    (
      compile-HasFieldsOf schema,
      record {
        has_bits = l.has_bits;
        own_bits = l.own_bits;
        in_slot = l.in_slot;
        own_bytes = l.own_bytes;
        whole_words = l.whole_words;
      },
    )
