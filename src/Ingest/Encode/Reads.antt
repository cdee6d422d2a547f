-- ===== src/Ingest/Encode/Reads.antt =====
-- `EncodeForLayout` (src/ingest/update_applier.cc): every field of the layout shows in the row what the
-- payload has for it.
use kv_index.Prelude.{
  ℕ, ◌^◌, ◌<◌, ◌≤◌, ◌≡◌, refl, sym, ap, subst, inl, inr, arith, All, List, [], ◌∷◌, length, some,
  none, Option, eq-cases,
}
use kv_index.Status.{ok, >>-eq-ok}
use kv_index.Schema.Layout.{FieldLayout, CompiledRowLayout, find_layout}
use kv_index.Model.EncodedRow.{EncodedRow}
use kv_index.Ingest.Payload.{DecodedField, find_decoded}
use kv_index.Ingest.Encode.{encode_field, encode_fields}
use kv_index.Ingest.Encode.Round.{
  IsUsable, HasUniqueFields, Keeps, Keeps-refl, Keeps-trans, ShowsValue-kept, written, others,
}
use kv_index.Ingest.Encode.Grown.{encode_field-longer}
use kv_index.Ingest.Encode.Values.{FitsValue, ShowsValue}

-- What a field shows after the loop: the payload's value for it, and without one what it showed before.
abbrev pub Outcome : FieldLayout → Option DecodedField → EncodedRow → EncodedRow → Type 0
Outcome f none e r = Keeps f e r
Outcome f (some d) e r = ShowsValue f.is_list f d.value r

Outcome-before :
    (f : FieldLayout) (o : Option DecodedField) (e e' r : EncodedRow)
    → Keeps f e e'
    → Outcome f o e' r
    → Outcome f o e r
Outcome-before f none e e' r k rest = Keeps-trans k rest
Outcome-before f (some d) e e' r k rest = rest

abbrev pub AllFit : List DecodedField → Type 0
AllFit ds = All (λ (d : DecodedField). FitsValue d.value) ds

encode_fields-longer :
    (layout : CompiledRowLayout) (ds : List DecodedField) (e r : EncodedRow)
    → encode_fields layout ds e ≡ ok r
    → length e.arena ≤ length r.arena
unfolding encode_fields
encode_fields-longer layout [] e r h =
    let same : e ≡ r = cc in omega (arith, ap (λ (t : EncodedRow). length t.arena) same)
encode_fields-longer layout (d ∷ ds) e r h =
    let written = encode_field layout d e in
    let rest = >>-eq-ok (written.0) (encode_fields layout ds (written.1)) h in
    omega
      (arith, encode_field-longer layout d e, encode_fields-longer layout ds (written.1) r (rest.1))

pub encode_fields-Outcome :
    (layout : CompiledRowLayout) (usable : IsUsable layout.fields) (ds : List DecodedField)
    (e r : EncodedRow)
    → AllFit ds
    → HasUniqueFields ds
    → length r.arena < 2 ^ 64
    → encode_fields layout ds e ≡ ok r
    → (id : ℕ) (f : FieldLayout) → find_layout id layout.fields ≡ some f
    → Outcome f (find_decoded id ds) e r
unfolding encode_fields find_decoded
encode_fields-Outcome layout usable [] e r fit unique big h id f found =
    let same : e ≡ r = cc in subst (Keeps f e) same (Keeps-refl f e)
encode_fields-Outcome layout usable (d ∷ ds) e r fit unique big h id f found =
    let out = encode_field layout d e in
    let split = >>-eq-ok (out.0) (encode_fields layout ds (out.1)) h in
    let small : length (out.1.arena) < 2 ^ 64 =
      omega (arith, encode_fields-longer layout ds (out.1) r (split.1)) in
    let rest =
      encode_fields-Outcome layout usable ds (out.1) r (fit.1) (unique.1) big (split.1) id f
        found in
    elim (eq-cases d.field_id id) [
      | inl same ↦
          let first : find_decoded id (d ∷ ds) ≡ some d = ground (arith, same) in
          let no_more : find_decoded id ds ≡ none =
            subst (λ t. find_decoded t ds ≡ none) same (unique.0) in
          let found_d : find_layout d.field_id layout.fields ≡ some f =
            subst (λ t. find_layout t layout.fields ≡ some f) (sym same) found in
          let kept : Keeps f (out.1) r = subst (λ o. Outcome f o (out.1) r) no_more rest in
          subst (λ o. Outcome f o e r) (sym first)
            (ShowsValue-kept f.is_list f d.value refl (usable.placed id f found) kept
              (written layout usable d e (fit.0) small (split.0) f found_d).1)
      | inr ne ↦
          let later : find_decoded id (d ∷ ds) ≡ find_decoded id ds = ground (arith, ne) in
          subst (λ o. Outcome f o e r) (sym later)
            (Outcome-before f (find_decoded id ds) e (out.1) r
              (others layout usable d e (fit.0) small (split.0) id f found ne) rest)
    ]
