-- ===== src/Ingest/Encode/Values.antt =====
-- Decoded values in the range of their types, and what a field shows of one.
use kv_index.Prelude.{◌^◌, ◌<◌, Bool, true, false, ◌≡◌, refl, subst, length, some}
use kv_index.Schema.{
  FieldType, monostate, int8_value, int32_value, int64_value, uint64_value, bool_value,
  string_value, int8_list, int32_list, int64_list, uint64_list, bool_list, string_list, int8, int32,
  int64, uint64, bool, string,
}
use kv_index.Schema.Layout.{FieldLayout}
use kv_index.Model.EncodedRow.{EncodedRow}
use kv_index.Model.Value.{
  ScalarValue, ListValue, int8_items, int32_items, int64_items, uint64_items, bool_items,
  string_items, list_type, int8_scalar, int32_scalar, int64_scalar, uint64_scalar, bool_scalar,
  string_scalar, scalar_type,
}
use kv_index.Model.Value.RoundTrip.{FitsSigned, FitsScalar}
use kv_index.Model.Value.Lists.{FitsItems}
use kv_index.Model.Write.Scalars.{ShowsScalar}
use kv_index.Model.Write.ListRefs.{ShowsItems}
use kv_index.Ingest.Payload.{DecodedValue}
use kv_index.Ingest.ScalarField.{get_scalar}
use kv_index.Ingest.ListField.{get_items}

-- A value in the range of its type, of a size that the payload's 32-bit lengths allow.
abbrev pub FitsValue : DecodedValue → Type 0
FitsValue monostate = Unit
FitsValue (int8_value v) = FitsSigned 8 v
FitsValue (int32_value v) = FitsSigned 32 v
FitsValue (int64_value v) = FitsSigned 64 v
FitsValue (uint64_value v) = v < 2 ^ 64
FitsValue (bool_value v) = Unit
FitsValue (string_value v) = length v < 2 ^ 32
FitsValue (int8_list vs) = FitsItems (int8_items vs)
FitsValue (int32_list vs) = FitsItems (int32_items vs)
FitsValue (int64_list vs) = FitsItems (int64_items vs)
FitsValue (uint64_list vs) = FitsItems (uint64_items vs)
FitsValue (bool_list vs) = FitsItems (bool_items vs)
FitsValue (string_list vs) = FitsItems (string_items vs)

-- The field reads as the value: a scalar field as a scalar of its type, a list field as a list.
abbrev pub ShowsValue : Bool → FieldLayout → DecodedValue → EncodedRow → Type 0
ShowsValue false f value r =
    (v : ScalarValue) × (get_scalar f.type value ≡ some v) × ShowsScalar f v r
ShowsValue true f value r = (v : ListValue) × (get_items f.type value ≡ some v) × ShowsItems f v r

some_inj : {A : Type 0} (x y : A) → some x ≡ some y → x ≡ y
some_inj x y h = cc

pub get_scalar-FitsScalar :
    (t : FieldType) (value : DecodedValue) (v : ScalarValue)
    → get_scalar t value ≡ some v
    → FitsValue value
    → FitsScalar v × (t ≡ scalar_type v)
unfolding get_scalar scalar_type
get_scalar-FitsScalar int8 (int8_value x) v h fits =
    subst (λ w. FitsScalar w × (int8 ≡ scalar_type w)) (some_inj (int8_scalar x) v h) (fits, refl)
get_scalar-FitsScalar int32 (int32_value x) v h fits =
    subst (λ w. FitsScalar w × (int32 ≡ scalar_type w)) (some_inj (int32_scalar x) v h) (fits, refl)
get_scalar-FitsScalar int64 (int64_value x) v h fits =
    subst (λ w. FitsScalar w × (int64 ≡ scalar_type w)) (some_inj (int64_scalar x) v h) (fits, refl)
get_scalar-FitsScalar uint64 (uint64_value x) v h fits =
    subst (λ w. FitsScalar w × (uint64 ≡ scalar_type w)) (some_inj (uint64_scalar x) v h)
      (fits, refl)
get_scalar-FitsScalar bool (bool_value x) v h fits =
    subst (λ w. FitsScalar w × (bool ≡ scalar_type w)) (some_inj (bool_scalar x) v h) (fits, refl)
get_scalar-FitsScalar string (string_value x) v h fits =
    subst (λ w. FitsScalar w × (string ≡ scalar_type w)) (some_inj (string_scalar x) v h)
      (fits, refl)
get_scalar-FitsScalar _ _ v h fits = cc

pub get_items-FitsItems :
    (t : FieldType) (value : DecodedValue) (v : ListValue)
    → get_items t value ≡ some v
    → FitsValue value
    → FitsItems v × (t ≡ list_type v)
unfolding get_items list_type
get_items-FitsItems int8 (int8_list x) v h fits =
    subst (λ w. FitsItems w × (int8 ≡ list_type w)) (some_inj (int8_items x) v h) (fits, refl)
get_items-FitsItems int32 (int32_list x) v h fits =
    subst (λ w. FitsItems w × (int32 ≡ list_type w)) (some_inj (int32_items x) v h) (fits, refl)
get_items-FitsItems int64 (int64_list x) v h fits =
    subst (λ w. FitsItems w × (int64 ≡ list_type w)) (some_inj (int64_items x) v h) (fits, refl)
get_items-FitsItems uint64 (uint64_list x) v h fits =
    subst (λ w. FitsItems w × (uint64 ≡ list_type w)) (some_inj (uint64_items x) v h) (fits, refl)
get_items-FitsItems bool (bool_list x) v h fits =
    subst (λ w. FitsItems w × (bool ≡ list_type w)) (some_inj (bool_items x) v h) (fits, refl)
get_items-FitsItems string (string_list x) v h fits =
    subst (λ w. FitsItems w × (string ≡ list_type w)) (some_inj (string_items x) v h) (fits, refl)
get_items-FitsItems _ _ v h fits = cc
