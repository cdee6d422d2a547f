-- ===== src/Schema/History.antt =====
-- The schema's history (src/model/schema.cc): which identifiers active and deleted fields have used.
use kv_index.Prelude.{
  ℕ, ◌≤◌, ap, Bool-cases, ◌+◌, ◌≡◌, refl, ◌==◌, Bool, true, false, some, List, [], ◌∷◌, ◌++◌, arith,
  if◌then◌else◌, inl, inr, Option-cases,
}
use kv_index.Status.{is_ok}
use kv_index.Schema.{
  FieldSpec, RuntimeSchema, find_field, erase_field, add_field, delete_field, is_some,
}

-- How many fields of a list have an identifier.
pub count : ℕ → List FieldSpec → ℕ
count field_id [] = 0
count field_id (f ∷ fs) = (if f.field_id == field_id then 1 else 0) + count field_id fs

-- How often an identifier stands in the history.
unfoldable pub uses_of : ℕ → RuntimeSchema → ℕ
uses_of field_id schema = count field_id schema.active_fields + count field_id schema.deleted_fields

abbrev pub one_if : Bool → ℕ
one_if b = if b then 1 else 0

count-append :
    (i : ℕ) (f : FieldSpec) (fs : List FieldSpec)
    → count i (fs ++ f ∷ []) ≡ count i fs + one_if (f.field_id == i)
unfolding count
count-append i f [] = ground arith
count-append i f (g ∷ fs) = ground (arith, count-append i f fs)

find_field-count :
    (i : ℕ) (fs : List FieldSpec) → is_some (find_field i fs) ≡ false → count i fs ≡ 0
unfolding count find_field
find_field-count i [] h = refl
find_field-count i (f ∷ fs) h = ground (arith, find_field-count i fs)

find_field-id :
    (i : ℕ) (fs : List FieldSpec) (f : FieldSpec) → find_field i fs ≡ some f → f.field_id ≡ i
unfolding find_field
find_field-id i [] f h = cc
find_field-id i (g ∷ fs) f h = ground (arith, find_field-id i fs f)

count-erase :
    (i j : ℕ) (fs : List FieldSpec) (f : FieldSpec)
    → find_field i fs ≡ some f
    → count j (erase_field i fs) + one_if (i == j) ≡ count j fs
unfolding count find_field erase_field
count-erase i j [] f h = cc
count-erase i j (g ∷ fs) f h = ground (arith, count-erase i j fs f)

-- `AddField` uses a new identifier once more, and no other; on an error the schema is as it was.
pub add_field-uses :
    (schema : RuntimeSchema) (field : FieldSpec) (i : ℕ)
    → (is_ok (add_field schema field).0 ≡ true
        → (uses_of field.field_id schema ≡ 0)
          × (uses_of i (add_field schema field).1
              ≡ uses_of i schema + one_if (field.field_id == i)))
      × (is_ok (add_field schema field).0 ≡ false → (add_field schema field).1 ≡ schema)
unfolding add_field uses_of
add_field-uses schema field i = (
  λ h. ground (
    arith,
    count-append i field schema.active_fields,
    find_field-count field.field_id schema.active_fields,
    find_field-count field.field_id schema.deleted_fields,
  ),
  λ h. ground arith,
)

-- `DeleteField` frees no identifier and uses none again: every identifier stands in the history, as an
-- active or a deleted field's, as often as before.
pub delete_field-uses :
    (schema : RuntimeSchema) (field_id i : ℕ)
    → uses_of i (delete_field schema field_id).1 ≡ uses_of i schema
unfolding delete_field uses_of
delete_field-uses schema field_id i =
    elim (Option-cases (find_field field_id schema.active_fields)) [
      | inl missing ↦ ground arith
      | inr (f, e) ↦ ground (
        arith,
        count-append i (record f { deleted = true }) schema.deleted_fields,
        count-erase field_id i schema.active_fields f,
        find_field-id field_id schema.active_fields f,
      )
    ]

-- A call that changes a schema.
pub data SchemaCall : Type 0 where
  add : FieldSpec → SchemaCall
  delete : ℕ → SchemaCall

pub after_calls : RuntimeSchema → List SchemaCall → RuntimeSchema
after_calls schema [] = schema
after_calls schema (add field ∷ calls) = after_calls (add_field schema field).1 calls
after_calls schema (delete field_id ∷ calls) = after_calls (delete_field schema field_id).1 calls

-- An identifier that stands in the history stands there after any calls.
after_calls-uses :
    (calls : List SchemaCall) (schema : RuntimeSchema) (i : ℕ)
    → uses_of i schema ≤ uses_of i (after_calls schema calls)
unfolding after_calls
after_calls-uses [] schema i = omega arith
after_calls-uses (add field ∷ calls) schema i =
    let added = (add_field schema field).1 in
    let rest = after_calls-uses calls added i in
    elim (Bool-cases (is_ok (add_field schema field).0)) [
      | inl done ↦ omega (arith, rest, ((add_field-uses schema field i).0 done).1)
      | inr refused ↦
          omega (arith, rest, ap (uses_of i) ((add_field-uses schema field i).1 refused))
    ]
after_calls-uses (delete field_id ∷ calls) schema i =
    let rest = after_calls-uses calls (delete_field schema field_id).1 i in
    omega (arith, rest, delete_field-uses schema field_id i)

-- After `AddField` accepted a field, and whatever fields are added and deleted then, that field or
-- others, `AddField` refuses every field of the same identifier, and leaves the schema as it was.
pub after_calls-never_reuses :
    (schema : RuntimeSchema) (field : FieldSpec) (calls : List SchemaCall) (later : FieldSpec)
    → is_ok (add_field schema field).0 ≡ true
    → later.field_id ≡ field.field_id
    → (is_ok (add_field (after_calls (add_field schema field).1 calls) later).0 ≡ false)
      × ((add_field (after_calls (add_field schema field).1 calls) later).1
          ≡ after_calls (add_field schema field).1 calls)
after_calls-never_reuses schema field calls later accepted same =
    let added = (add_field schema field).1 in
    let end = after_calls added calls in
    let once = ((add_field-uses schema field field.field_id).0 accepted).1 in
    let kept = after_calls-uses calls added field.field_id in
    let used : 1 ≤ uses_of later.field_id end =
      ground (arith, once, kept, ap (λ (t : ℕ). uses_of t end) same) in
    elim (Bool-cases (is_ok (add_field end later).0)) [
      | inl again ↦
          absurd (omega (arith, used, ((add_field-uses end later later.field_id).0 again).0))
      | inr refused ↦ (refused, (add_field-uses end later later.field_id).1 refused)
    ]
