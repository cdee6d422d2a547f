-- ===== src/Schema/Layout/Fields.antt =====
-- The fields that `Compile` (src/model/schema.cc) lays out: those of the schema, in the order of their
-- identifiers.
use mathlib.Core.List.{Perm}
use mathlib.Core.List.Perm
use kv_index.Prelude.{
  All, All-map, ℕ, ◌+◌, ◌≤◌, ltb, ◌||◌, u64, ◌≡◌, refl, sym, subst, inl, inr, List, [], ◌∷◌, arith,
  Bool-cases,
}
use kv_index.Schema.{FieldSpec, RuntimeSchema, is_string}
use kv_index.Schema.Layout.{
  FieldLayout, CompiledRowLayout, insert_by_id, sort_by_id, is_ref_field, field_layout,
  field_layouts, place_fixed, place_refs, layout_of, compile,
}
use kv_index.Schema.Layout.Placement.{HasWidth, placed, start_of, placed_ref, placed_fixed}

-- A field of the layout has everything that the schema says of the field, and the width of its values,
-- which are behind a reference in a list or a string.
pub record Describes (field : FieldSpec) (f : FieldLayout) : Type 0 where
  pub same_id : f.field_id ≡ field.field_id
  pub same_name : f.name ≡ field.name
  pub same_type : f.type ≡ field.type
  pub same_shape : f.is_list ≡ field.is_list
  pub same_nullable : f.nullable ≡ field.nullable
  pub same_encoding : f.encoding ≡ field.encoding
  pub same_default : f.default_value ≡ field.default_value
  pub by_ref : f.uses_ref ≡ (field.is_list || is_string field.type)
  pub width : HasWidth f

-- One field of the layout for each of the schema, in order.
abbrev pub AreDescribed : List FieldSpec → List FieldLayout → Type 0
AreDescribed [] [] = Unit
AreDescribed [] (f ∷ fs) = ⊥
AreDescribed (s ∷ ss) [] = ⊥
AreDescribed (s ∷ ss) (f ∷ fs) = Describes s f × AreDescribed ss fs

abbrev pub Ordered : List FieldSpec → Type 0
Ordered [] = Unit
Ordered (s ∷ ss) = All (λ t. s.field_id ≤ t.field_id) ss × Ordered ss

-- The layout has the active fields of the schema, each once and no other, by increasing identifier.
pub record HasFieldsOf (schema : RuntimeSchema) (layout : CompiledRowLayout) : Type 0 where
  pub version : layout.schema_version ≡ schema.version
  pub sorted : List FieldSpec
  pub same_fields : Perm sorted schema.active_fields
  pub ordered : Ordered sorted
  pub described : AreDescribed sorted layout.fields

insert_by_id-perm : (f : FieldSpec) (fs : List FieldSpec) → Perm (insert_by_id f fs) (f ∷ fs)
unfolding insert_by_id
insert_by_id-perm f [] = Perm.refl (f ∷ [])
insert_by_id-perm f (g ∷ gs) = elim (Bool-cases (ltb g.field_id f.field_id)) [
  | inl before ↦ rw before (Perm.trans (Perm.cons g (insert_by_id-perm f gs)) (Perm.swap f g gs))
  | inr here ↦ rw here (Perm.refl (f ∷ g ∷ gs))
]

sort_by_id-perm : (fs : List FieldSpec) → Perm (sort_by_id fs) fs
unfolding sort_by_id
sort_by_id-perm [] = Perm.refl []
sort_by_id-perm (f ∷ fs) =
    Perm.trans (insert_by_id-perm f (sort_by_id fs)) (Perm.cons f (sort_by_id-perm fs))

insert_by_id-All :
    (n : ℕ) (f : FieldSpec) (fs : List FieldSpec)
    → n ≤ f.field_id
    → All (λ t. n ≤ t.field_id) fs
    → All (λ t. n ≤ t.field_id) (insert_by_id f fs)
unfolding insert_by_id
insert_by_id-All n f [] b h = (b, tt)
insert_by_id-All n f (g ∷ gs) b h = elim (Bool-cases (ltb g.field_id f.field_id)) [
  | inl before ↦ rw before (h.0, insert_by_id-All n f gs b (h.1))
  | inr here ↦ rw here (b, h)
]

insert_by_id-Ordered :
    (f : FieldSpec) (fs : List FieldSpec) → Ordered fs → Ordered (insert_by_id f fs)
unfolding insert_by_id
insert_by_id-Ordered f [] h = (tt, tt)
insert_by_id-Ordered f (g ∷ gs) h = elim (Bool-cases (ltb g.field_id f.field_id)) [
  | inl before ↦ rw before (
    insert_by_id-All g.field_id f gs (ground (arith, before)) (h.0),
    insert_by_id-Ordered f gs (h.1),
  )
  | inr here ↦
      let below : f.field_id ≤ g.field_id = ground (arith, here) in
      rw here ((below, All-map gs (λ t p. omega (arith, p, below)) (h.0)), h)
]

sort_by_id-Ordered : (fs : List FieldSpec) → Ordered (sort_by_id fs)
unfolding sort_by_id
sort_by_id-Ordered [] = tt
sort_by_id-Ordered (f ∷ fs) = insert_by_id-Ordered f (sort_by_id fs) (sort_by_id-Ordered fs)

field_layouts-AreDescribed : (i : ℕ) (fs : List FieldSpec) → AreDescribed fs (field_layouts i fs)
unfolding field_layouts field_layout is_ref_field
field_layouts-AreDescribed i [] = tt
field_layouts-AreDescribed i (f ∷ fs) = (
  record {
    same_id = refl;
    same_name = refl;
    same_type = refl;
    same_shape = refl;
    same_nullable = refl;
    same_encoding = refl;
    same_default = refl;
    by_ref = refl;
    width = refl;
  },
  field_layouts-AreDescribed (i + 1) fs,
)

-- A place changes nothing of that.
moved :
    (s : FieldSpec) (f : FieldLayout) (offset : ℕ)
    → Describes s f
    → Describes s (record f { slot_offset = offset })
moved s f offset d = record {
  same_id = d.same_id;
  same_name = d.same_name;
  same_type = d.same_type;
  same_shape = d.same_shape;
  same_nullable = d.same_nullable;
  same_encoding = d.same_encoding;
  same_default = d.same_default;
  by_ref = d.by_ref;
  width = d.width;
}

placed-AreDescribed :
    (c r : ℕ) (ss : List FieldSpec) (fs : List FieldLayout)
    → AreDescribed ss fs
    → AreDescribed ss (placed c r fs)
unfolding place_fixed place_refs
placed-AreDescribed c r [] [] h = tt
placed-AreDescribed c r [] (f ∷ fs) h = absurd h
placed-AreDescribed c r (s ∷ ss) [] h = absurd h
placed-AreDescribed c r (s ∷ ss) (f ∷ fs) h = elim (Bool-cases f.uses_ref) [
  | inl e ↦
      subst (AreDescribed (s ∷ ss)) (sym (placed_ref c r f fs e).0)
        (moved s f r h.0, placed-AreDescribed c (u64 (r + 16)) ss fs h.1)
  | inr e ↦ subst (AreDescribed (s ∷ ss)) (sym (placed_fixed c r f fs e).0) (
    moved s f (start_of c f) h.0,
    placed-AreDescribed (u64 (start_of c f + f.value_width)) r ss fs h.1,
  )
]

pub compile-HasFieldsOf : (schema : RuntimeSchema) → HasFieldsOf schema (compile schema)
unfolding compile layout_of
compile-HasFieldsOf schema = record {
  version = refl;
  sorted = sort_by_id schema.active_fields;
  same_fields = sort_by_id-perm schema.active_fields;
  ordered = sort_by_id-Ordered schema.active_fields;
  described =
      placed-AreDescribed _ _ (sort_by_id schema.active_fields)
        (field_layouts 0 (sort_by_id schema.active_fields))
        (field_layouts-AreDescribed 0 (sort_by_id schema.active_fields));
}
