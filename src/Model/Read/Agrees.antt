-- ===== src/Model/Read/Agrees.antt =====
-- Reads by accessor (include/kv_index/row.h) against reads by identifier.
use kv_index.Prelude.{
  refl, not, ◌||◌, ℕ, ◌==◌, Bool, true, false, ◌≡◌, ◌≢◌, if◌then◌else◌, ap, subst, ◌∙◌, arith, inl,
  inr, ◌⊎◌, List, [], ◌∷◌, some, none, Option-cases, Bool-cases,
}
use kv_index.Status.{failed_precondition, Status, ok, error, is_ok, ◌>>=◌}
use kv_index.Schema.{FieldType, FieldEncoding}
use kv_index.Schema.Layout.{FieldLayout, CompiledRowLayout, find_layout}
use kv_index.Model.Row.{Row, field_present}
use kv_index.Model.Write.{type_eq, encoding_eq}
use kv_index.Model.Read.{
  same_versions, validate_accessor, check_backing, resolve_field, default_scalar_value,
  default_list_value,
}
use kv_index.Model.Read.Scalar.{read_scalar_value, read_present_scalar}
use kv_index.Model.Read.Items.{read_list_value, read_present_list}
use kv_index.Model.Read.Accessor.{
  FieldAccessor, accessor_of, make_field_accessor, make_list_field_accessor, metadata_of, get,
  get_at, get_list, get_list_at, typed_scalar, typed_list,
}

find_layout-id :
    (id : ℕ) (fs : List FieldLayout) (f : FieldLayout)
    → find_layout id fs ≡ some f
    → f.field_id ≡ id
unfolding find_layout
find_layout-id id [] f h = cc
find_layout-id id (g ∷ fs) f h = elim (Bool-cases (g.field_id == id)) [
  | inl here ↦ ground (arith, here)
  | inr later ↦ find_layout-id id fs f (ground (arith, later))
]

encoding_eq_refl : (e : FieldEncoding) → encoding_eq e e ≡ true
encoding_eq_refl e = ground arith

module _ (row : Row) (id : ℕ) (type : FieldType) (is_list : Bool) (f : FieldLayout)
    (found : find_layout id row.layout.fields ≡ some f) (same : type_eq f.type type ≡ true) where
  -- The accessor of a field of the row's own layout resolves to what its identifier resolves to.
  resolve_field-own :
      resolve_field row f.field_id type is_list
        (some (metadata_of (accessor_of row.layout is_list f)))
      ≡ resolve_field row id type is_list none
  unfolding resolve_field check_backing validate_accessor same_versions metadata_of accessor_of
  resolve_field-own =
      let here : find_layout f.field_id row.layout.fields ≡ some f =
        ap (λ (t : ℕ). find_layout t row.layout.fields)
          (find_layout-id id row.layout.fields f found)
        ∙ found in
      ground (arith, found, here, same, encoding_eq_refl f.encoding)

-- What a made accessor is.
IsMadeOf : CompiledRowLayout → ℕ → FieldType → Bool → FieldAccessor → Type 0
IsMadeOf layout id type is_list accessor =
    (f : FieldLayout) × (find_layout id layout.fields ≡ some f)
    × (type_eq f.type type ≡ true)
    × (accessor_of layout is_list f ≡ accessor)

make_field_accessor-IsMadeOf :
    (type : FieldType) (layout : CompiledRowLayout) (id : ℕ) (accessor : FieldAccessor)
    → make_field_accessor type layout id ≡ ok accessor
    → IsMadeOf layout id type false accessor
unfolding make_field_accessor IsMadeOf
make_field_accessor-IsMadeOf type layout id accessor h =
    elim (Option-cases (find_layout id layout.fields)) [
      | inl missing ↦ absurd (ground (arith, missing))
      | inr (f, found) ↦ (f, found, ground (arith, found), ground (arith, found))
    ]

make_list_field_accessor-IsMadeOf :
    (type : FieldType) (layout : CompiledRowLayout) (id : ℕ) (accessor : FieldAccessor)
    → make_list_field_accessor type layout id ≡ ok accessor
    → IsMadeOf layout id type true accessor
unfolding make_list_field_accessor IsMadeOf
make_list_field_accessor-IsMadeOf type layout id accessor h =
    elim (Option-cases (find_layout id layout.fields)) [
      | inl missing ↦ absurd (ground (arith, missing))
      | inr (f, found) ↦ (f, found, ground (arith, found), ground (arith, found))
    ]

-- `Get` by an accessor that `MakeFieldAccessor` made of a row's layout returns what `Get` by the
-- field's identifier returns, errors and missing values included.
pub get_at-eq-get :
    (type : FieldType) (row : Row) (id : ℕ) (accessor : FieldAccessor)
    → make_field_accessor type row.layout id ≡ ok accessor
    → get_at type row accessor ≡ get type row id
unfolding get_at get read_scalar_value IsMadeOf accessor_of
get_at-eq-get type row id accessor h =
    let m = make_field_accessor-IsMadeOf type row.layout id accessor h in
    subst (λ (t : FieldAccessor). get_at type row t ≡ get type row id) (m.3)
      (ap
        (λ r. typed_scalar type (
          r >>= λ field.
          if field_present field row.encoded
          then read_present_scalar field row.encoded
          else default_scalar_value field))
        (resolve_field-own row id type false (m.0) (m.1) (m.2)))

-- `GetList` by an accessor that `MakeListFieldAccessor` made of a row's layout returns what `GetList`
-- by the field's identifier returns, errors and empty lists included.
pub get_list_at-eq-get_list :
    (type : FieldType) (row : Row) (id : ℕ) (accessor : FieldAccessor)
    → make_list_field_accessor type row.layout id ≡ ok accessor
    → get_list_at type row accessor ≡ get_list type row id
unfolding get_list_at get_list read_list_value IsMadeOf accessor_of
get_list_at-eq-get_list type row id accessor h =
    let m = make_list_field_accessor-IsMadeOf type row.layout id accessor h in
    subst (λ (t : FieldAccessor). get_list_at type row t ≡ get_list type row id) (m.3)
      (ap
        (λ r. typed_list type (
          r >>= λ field.
          if field_present field row.encoded
          then read_present_list field row.encoded
          else default_list_value field))
        (resolve_field-own row id type true (m.0) (m.1) (m.2)))

stale-differs :
    (layout : CompiledRowLayout) (row : Row) (f : FieldLayout)
    → (layout.schema_version ≢ row.layout.schema_version)
      ⊎ (layout.layout_fingerprint ≢ row.layout.layout_fingerprint)
    → same_versions (metadata_of (accessor_of layout false f)) row.encoded row.layout ≡ false
unfolding same_versions metadata_of accessor_of
stale-differs layout row f (inl other) = ground (arith, other)
stale-differs layout row f (inr other) = ground (arith, other)

-- What differs from the row's versions is refused before the field is looked up.
differs-refused :
    (type : FieldType) (row : Row) (accessor : FieldAccessor)
    → same_versions (metadata_of accessor) row.encoded row.layout ≡ false
    → (s : Status) × (get_at type row accessor ≡ error s) × (is_ok s ≡ false)
unfolding get_at read_scalar_value resolve_field check_backing typed_scalar
differs-refused type row accessor e =
    elim (Bool-cases (
      not (row.encoded.schema_version == row.layout.schema_version)
      || not (row.encoded.layout_fingerprint == row.layout.layout_fingerprint))) [
        | inl apart ↦ (
          failed_precondition "row backing does not match compiled layout",
          ground (arith, apart),
          refl,
        )
        | inr agree ↦ (
          failed_precondition "field accessor does not match this row layout",
          ground (arith, agree, e),
          refl,
        )
      ]

-- An accessor of a layout with another version or fingerprint than the row's layout is refused by
-- `Get` of the row, which fails and returns no value.
pub stale_accessor-refused :
    (type : FieldType) (layout : CompiledRowLayout) (row : Row) (id : ℕ) (accessor : FieldAccessor)
    → make_field_accessor type layout id ≡ ok accessor
    → (layout.schema_version ≢ row.layout.schema_version)
      ⊎ (layout.layout_fingerprint ≢ row.layout.layout_fingerprint)
    → (s : Status) × (get_at type row accessor ≡ error s) × (is_ok s ≡ false)
unfolding IsMadeOf
stale_accessor-refused type layout row id accessor h other =
    let m = make_field_accessor-IsMadeOf type layout id accessor h in
    differs-refused type row accessor (
      subst (λ (t : FieldAccessor). same_versions (metadata_of t) row.encoded row.layout ≡ false)
        (m.3) (stale-differs layout row (m.0) other))
