-- ===== src/Ingest/Encode/Shows.antt =====
-- What the program reads of a row that `EncodeForLayout` (src/ingest/update_applier.cc) made: the
-- payload's values, and the defaults of the fields that it does not have.
use kv_index.Prelude.{
  ℕ, ◌^◌, ◌<◌, ◌/◌, ◌%◌, ◌==◌, Bool, true, false, ◌≡◌, refl, ap, subst, ◌∙◌, inl, inr, arith, List,
  length, some, none, Option, Bool-cases, get_or-replicate, ◌∷◌, [],
}
use kv_index.Status.{ok, >>=-eq-ok}
use kv_index.Schema.{FieldType}
use kv_index.Schema.Layout.{FieldLayout, CompiledRowLayout, find_layout}
use kv_index.Model.EncodedRow.{EncodedRow}
use kv_index.Model.Row.{Row, field_present, materialize_row}
use kv_index.Model.Value.{ScalarValue, ListValue, scalar_type, list_type}
use kv_index.Model.Read.{default_scalar_value, default_list_value, resolve_field}
use kv_index.Model.Read.Scalar.{read_scalar_value}
use kv_index.Model.Read.Items.{read_list_value}
use kv_index.Model.Read.Accessor.{typed_scalar, typed_list, get, get_list}
use kv_index.Model.Write.{create_encoded_row, type_eq}
use kv_index.Base.Bits.Step.{zero-bit_and}
use kv_index.Ingest.Payload.{DecodedField, DecodedPayload, find_decoded}
use kv_index.Ingest.ScalarField.{get_scalar}
use kv_index.Ingest.ListField.{get_items}
use kv_index.Ingest.Encode.{encode_fields, encode_for_layout}
use kv_index.Ingest.Encode.Values.{
  FitsValue, ShowsValue, get_scalar-FitsScalar, get_items-FitsItems,
}
use kv_index.Ingest.Encode.Round.{IsUsable, HasUniqueFields}
use kv_index.Ingest.Encode.Reads.{AllFit, Outcome, encode_fields-Outcome}

-- What `Get` and `GetList` return for a field: the value that the payload has for it, and without one
-- what they make of the field's default.
abbrev pub Shown : Bool → Row → ℕ → FieldLayout → Option DecodedField → Type 0
Shown false row id f none = get f.type row id ≡ typed_scalar f.type (default_scalar_value f)
Shown false row id f (some d) =
    (v : ScalarValue) × (get_scalar f.type d.value ≡ some v) × (get f.type row id ≡ ok (some v))
Shown true row id f none = get_list f.type row id ≡ typed_list f.type (default_list_value f)
Shown true row id f (some d) =
    (v : ListValue) × (get_items f.type d.value ≡ some v) × (get_list f.type row id ≡ ok v)

-- In a new row no field is present.
new_row-absent :
    (layout : CompiledRowLayout) (f : FieldLayout)
    → field_present f (create_encoded_row layout) ≡ false
unfolding field_present create_encoded_row
new_row-absent layout f = ground (
  arith,
  get_or-replicate {A = ℕ} layout.row_slot_size (f.presence_bit_index / 8) 0,
  zero-bit_and (2 ^ (f.presence_bit_index % 8)),
)

type_eq_refl : (t : FieldType) → type_eq t t ≡ true
type_eq_refl t = ground arith

module _ (layout : CompiledRowLayout) (encoded : EncodedRow) (id : ℕ) (f : FieldLayout)
    (found : find_layout id layout.fields ≡ some f)
    (same : (encoded.schema_version ≡ layout.schema_version)
      × (encoded.layout_fingerprint ≡ layout.layout_fingerprint)) where
  abbrev row : Row
  row = record { layout = layout; encoded = encoded }

  resolve_scalar : f.is_list ≡ false → resolve_field row id f.type false none ≡ ok f
  unfolding resolve_field
  resolve_scalar scalar = ground (arith, found, same, scalar, type_eq_refl f.type)

  resolve_list : f.is_list ≡ true → resolve_field row id f.type true none ≡ ok f
  unfolding resolve_field
  resolve_list list = ground (arith, found, same, list, type_eq_refl f.type)

  default_seen :
      (is_list : Bool)
      → f.is_list ≡ is_list
      → field_present f encoded ≡ false
      → Shown is_list row id f none
  unfolding get get_list read_scalar_value read_list_value
  default_seen false shape absent = rw (resolve_scalar shape, absent) refl
  default_seen true shape absent = rw (resolve_list shape, absent) refl

  value_seen :
      (is_list : Bool) (d : DecodedField)
      → f.is_list ≡ is_list
      → FitsValue d.value
      → ShowsValue is_list f d.value encoded
      → Shown is_list row id f (some d)
  unfolding get get_list read_scalar_value read_list_value typed_scalar typed_list
  value_seen false d shape fits (v, alternative, (present, reads)) =
      let typed = (get_scalar-FitsScalar f.type d.value v alternative fits).1 in
      (
        v,
        alternative,
        ground (arith, resolve_scalar shape, present, reads, typed, type_eq_refl (scalar_type v)),
      )
  value_seen true d shape fits (v, alternative, (present, reads)) =
      let typed = (get_items-FitsItems f.type d.value v alternative fits).1 in
      (
        v,
        alternative,
        ground (arith, resolve_list shape, present, reads, typed, type_eq_refl (list_type v)),
      )

  shown :
      (o : Option DecodedField) (e : EncodedRow)
      → field_present f e ≡ false
      → ((d : DecodedField) → o ≡ some d → FitsValue d.value)
      → Outcome f o e encoded
      → Shown f.is_list row id f o
  shown none e absent fits kept = default_seen f.is_list refl (kept.slot.same_presence ∙ absent)
  shown (some d) e absent fits shows = value_seen f.is_list d refl (fits d refl) shows

-- The versions that `MaterializeRow` accepts.
materialized :
    (layout : CompiledRowLayout) (encoded : EncodedRow) (r : Row)
    → materialize_row layout encoded ≡ ok r
    → (encoded.schema_version ≡ layout.schema_version)
      × (encoded.layout_fingerprint ≡ layout.layout_fingerprint)
unfolding materialize_row
materialized layout encoded r h = (ground arith, ground arith)

find_decoded-fits :
    (id : ℕ) (ds : List DecodedField) (d : DecodedField)
    → AllFit ds
    → find_decoded id ds ≡ some d
    → FitsValue d.value
unfolding find_decoded
find_decoded-fits id [] d fit h = cc
find_decoded-fits id (x ∷ xs) d fit h = elim (Bool-cases (x.field_id == id)) [
  | inl here ↦
      let same : x ≡ d = ground (arith, here) in
      subst (λ (t : DecodedField). FitsValue t.value) same (fit.0)
  | inr later ↦ find_decoded-fits id xs d (fit.1) (rw later at h)
]

-- A row that `EncodeForLayout` makes of a payload, under a layout with fields that share nothing, where
-- the payload has no field twice and its values are in the range of their types, and where the row's
-- arena is of less than 2 ^ 64 bytes: for every field of the layout, `Get` or `GetList` of the row
-- returns the value that the payload has for it, which is one of the field's type, and where the
-- payload has none what they make of the field's default.
pub encode_for_layout-Shown :
    (payload : DecodedPayload) (layout : CompiledRowLayout) (encoded : EncodedRow)
    → IsUsable layout.fields
    → HasUniqueFields payload.fields
    → AllFit payload.fields
    → length encoded.arena < 2 ^ 64
    → encode_for_layout payload (some layout) ≡ ok encoded
    → (id : ℕ) (f : FieldLayout) → find_layout id layout.fields ≡ some f
    → Shown f.is_list
        (record { layout = layout; encoded = encoded })
        id
        f
        (find_decoded id payload.fields)
unfolding encode_for_layout
encode_for_layout-Shown payload layout encoded usable unique fit small h id f found =
    let fresh = create_encoded_row layout in
    let first = >>=-eq-ok (encode_fields layout payload.fields fresh) _ h in
    let second = >>=-eq-ok (materialize_row layout (first.0)) (λ row. ok (first.0)) (first.2) in
    let same : first.0 ≡ encoded = cc (second.2) in
    let encodes : encode_fields layout payload.fields fresh ≡ ok encoded = first.1 ∙ ap ok same in
    let versions =
      materialized layout encoded (second.0)
        (subst (λ t. materialize_row layout t ≡ ok (second.0)) same (second.1)) in
    shown layout encoded id f found versions (find_decoded id payload.fields) fresh
      (new_row-absent layout f) (λ d e. find_decoded-fits id payload.fields d fit e)
      (encode_fields-Outcome layout usable payload.fields fresh encoded fit unique small encodes id
        f found)
