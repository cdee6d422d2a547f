-- ===== src/Ingest/Encode/Round.antt =====
-- One round of `EncodeForLayout` (src/ingest/update_applier.cc): the field that the value is for shows
-- it, and the other fields are kept.
use kv_index.Prelude.{
  ℕ, ◌^◌, ◌<◌, Bool, true, false, ◌≡◌, ◌≢◌, refl, sym, subst, ◌∙◌, inl, inr, arith, List, [], ◌∷◌,
  length, some, none, Option-cases, Bool-cases,
}
use kv_index.Prelude.Bytes.{Extends-trans}
use kv_index.Status.{is_ok, Status}
use kv_index.Schema.Layout.{FieldLayout, CompiledRowLayout, find_layout}
use kv_index.Model.EncodedRow.{EncodedRow}
use kv_index.Model.Write.Slot.{IsField, Separate}
use kv_index.Model.Write.Effect.{Frames, Grows-refl}
use kv_index.Model.Frame.{Grows, KeepsSlot, read_present_scalar-kept}
use kv_index.Model.Frame.Items.{read_present_list-kept}
use kv_index.Ingest.Payload.{DecodedField, DecodedValue, find_decoded}
use kv_index.Ingest.ScalarField.{get_scalar, write_scalar, write_scalar_field_value}
use kv_index.Ingest.ScalarField.Shows.{write_scalar-Shows}
use kv_index.Ingest.ListField.{get_items, write_items, write_list_field_value}
use kv_index.Ingest.ListField.Shows.{write_items-Shows}
use kv_index.Ingest.Encode.{encode_field}
use kv_index.Ingest.Encode.Grown.{encode_field-longer}
use kv_index.Ingest.Encode.Values.{
  FitsValue, ShowsValue, get_scalar-FitsScalar, get_items-FitsItems,
}

-- The fields of a layout, found by their identifiers: each is placed, and no two share a byte or a bit.
pub record IsUsable (fields : List FieldLayout) : Type 0 where
  pub placed : (id : ℕ) (f : FieldLayout) → find_layout id fields ≡ some f → IsField f
  pub separate :
      (i j : ℕ) (f g : FieldLayout)
      → i ≢ j
      → find_layout i fields ≡ some f
      → find_layout j fields ≡ some g
      → Separate f g

-- No identifier comes twice in the payload.
abbrev pub HasUniqueFields : List DecodedField → Type 0
HasUniqueFields [] = Unit
HasUniqueFields (d ∷ ds) = (find_decoded d.field_id ds ≡ none) × HasUniqueFields ds

-- A field's part of the row is kept, and all that it may refer to.
pub record Keeps (f : FieldLayout) (a b : EncodedRow) : Type 0 where
  pub slot : KeepsSlot f a b
  pub grows : Grows a b

Grows-trans : {a b c : EncodedRow} → Grows a b → Grows b c → Grows a c
Grows-trans ab bc = record {
  arena_grows = Extends-trans ab.arena_grows bc.arena_grows;
  strings = λ i v h. bc.strings i v (ab.strings i v h);
  scalar_lists = λ i v h. bc.scalar_lists i v (ab.scalar_lists i v h);
  string_lists = λ i v h. bc.string_lists i v (ab.string_lists i v h);
  elements = λ i v h. bc.elements i v (ab.elements i v h);
}

pub Keeps-refl : (f : FieldLayout) (a : EncodedRow) → Keeps f a a
Keeps-refl f a = record {
  slot = record { same_length = refl; same_bytes = λ j p q. refl; same_presence = refl };
  grows = Grows-refl a;
}

pub Keeps-trans : {f : FieldLayout} {a b c : EncodedRow} → Keeps f a b → Keeps f b c → Keeps f a c
Keeps-trans ab bc = record {
  slot = record {
    same_length = bc.slot.same_length ∙ ab.slot.same_length;
    same_bytes = λ j p q. bc.slot.same_bytes j p q ∙ ab.slot.same_bytes j p q;
    same_presence = bc.slot.same_presence ∙ ab.slot.same_presence;
  };
  grows = Grows-trans ab.grows bc.grows;
}

-- What a field shows is kept with its part of the row.
pub ShowsValue-kept :
    (is_list : Bool) (f : FieldLayout) (value : DecodedValue) {a b : EncodedRow}
    → f.is_list ≡ is_list
    → IsField f
    → Keeps f a b
    → ShowsValue is_list f value a
    → ShowsValue is_list f value b
ShowsValue-kept false f value same field k (v, alternative, (present, reads)) = (
  v,
  alternative,
  (
    k.slot.same_presence ∙ present,
    read_present_scalar-kept f v k.slot field.width (ground (arith, same, field.by_ref)) k.grows
        reads,
  ),
)
ShowsValue-kept true f value same field k (v, alternative, (present, reads)) = (
  v,
  alternative,
  (
    k.slot.same_presence ∙ present,
    read_present_list-kept f v k.slot field.width (ground (arith, same, field.by_ref)) k.grows
        reads,
  ),
)

-- A value written to the field that it is for.
scalar_value-Shows :
    (f : FieldLayout) (d : DecodedField) (e : EncodedRow)
    → IsField f
    → FitsValue d.value
    → length e.arena < 2 ^ 64
    → is_ok (write_scalar_field_value f d e).0 ≡ true
    → Frames f e (write_scalar_field_value f d e).1
      × ShowsValue false f d.value (write_scalar_field_value f d e).1
unfolding write_scalar_field_value
scalar_value-Shows f d e field fits small done = elim (Option-cases (get_scalar f.type d.value)) [
  | inl bad ↦ ground (arith, bad)
  | inr (v, good) ↦
      let scalar : f.is_list ≡ false = ground arith in
      let same : write_scalar_field_value f d e ≡ write_scalar f v e =
        ground (arith, scalar, good) in
      let shows =
        write_scalar-Shows f v e field (get_scalar-FitsScalar f.type d.value v good fits).0 small
          (subst (λ t. is_ok (t.0) ≡ true) same done) in
      subst (λ t. Frames f e (t.1) × ShowsValue false f d.value (t.1)) (sym same)
        (shows.0, (v, good, shows.1))
]

list_value-Shows :
    (f : FieldLayout) (d : DecodedField) (e : EncodedRow)
    → IsField f
    → FitsValue d.value
    → length e.arena < 2 ^ 64
    → length (write_list_field_value f d e).1.arena < 2 ^ 64
    → is_ok (write_list_field_value f d e).0 ≡ true
    → Frames f e (write_list_field_value f d e).1
      × ShowsValue true f d.value (write_list_field_value f d e).1
unfolding write_list_field_value
list_value-Shows f d e field fits small big done = elim (Option-cases (get_items f.type d.value)) [
  | inl bad ↦ ground (arith, bad)
  | inr (v, good) ↦
      let scalar : f.is_list ≡ true = ground arith in
      let same : write_list_field_value f d e ≡ write_items f v e = ground (arith, scalar, good) in
      let typed = get_items-FitsItems f.type d.value v good fits in
      let shows =
        write_items-Shows f v e field (typed.1) (typed.0) small
          (subst (λ t. length (t.1.arena) < 2 ^ 64) same big)
          (subst (λ t. is_ok (t.0) ≡ true) same done) in
      subst (λ t. Frames f e (t.1) × ShowsValue true f d.value (t.1)) (sym same)
        (shows.0, (v, good, shows.1))
]

-- One round: the field that the value is for shows it, and the others are kept.
module _ (layout : CompiledRowLayout) (usable : IsUsable layout.fields) (d : DecodedField)
    (e : EncodedRow) (fits : FitsValue d.value)
    (big : length (encode_field layout d e).1.arena < 2 ^ 64)
    (done : is_ok (encode_field layout d e).0 ≡ true) where
  abbrev after : EncodedRow
  after = (encode_field layout d e).1

  passed_over : find_layout d.field_id layout.fields ≡ none → after ≡ e
  unfolding encode_field
  passed_over absent = ground (arith, absent)

  module _ (f : FieldLayout) (found : find_layout d.field_id layout.fields ≡ some f) where
    small : length e.arena < 2 ^ 64
    small = omega (arith, encode_field-longer layout d e)

    whole :
        (write : Status × EncodedRow) (is_list : Bool)
        → f.is_list ≡ is_list
        → encode_field layout d e ≡ write
        → Frames f e (write.1) × ShowsValue is_list f d.value (write.1)
        → Frames f e after × ShowsValue f.is_list f d.value after
    whole write is_list shape same h =
        subst (λ b. Frames f e after × ShowsValue b f d.value after) (sym shape)
          (subst (λ t. Frames f e (t.1) × ShowsValue is_list f d.value (t.1)) (sym same) h)

    pub written : Frames f e after × ShowsValue f.is_list f d.value after
    unfolding encode_field
    written = elim (Bool-cases f.is_list) [
      | inl list ↦
          let same : encode_field layout d e ≡ write_list_field_value f d e =
            ground (arith, found, list) in
          whole (write_list_field_value f d e) true list same (
            list_value-Shows f d e (usable.placed d.field_id f found) fits small
              (subst (λ t. length (t.1.arena) < 2 ^ 64) same big)
              (subst (λ t. is_ok (t.0) ≡ true) same done))
      | inr scalar ↦
          let same : encode_field layout d e ≡ write_scalar_field_value f d e =
            ground (arith, found, scalar) in
          whole (write_scalar_field_value f d e) false scalar same (
            scalar_value-Shows f d e (usable.placed d.field_id f found) fits small
              (subst (λ t. is_ok (t.0) ≡ true) same done))
    ]

  pub others :
      (id : ℕ) (g : FieldLayout)
      → find_layout id layout.fields ≡ some g
      → d.field_id ≢ id
      → Keeps g e after
  others id g other ne = elim (Option-cases (find_layout d.field_id layout.fields)) [
    | inl absent ↦ subst (Keeps g e) (sym (passed_over absent)) (Keeps-refl g e)
    | inr (f, found) ↦
        let w = written f found in
        record {
          slot = w.0.others g (usable.separate d.field_id id f g ne found other);
          grows = w.0.grows;
        }
  ]
