-- ===== src/Schema/Layout.antt =====
-- include/kv_index/schema.h and src/model/schema.cc: `CompiledRowLayout`, the places of a schema's
-- active fields in a row slot: a presence bitmap, the fixed-width values, the value references.
pub mod Placement
pub mod Bounds
pub mod Fields
pub mod Compile
use kv_index.Prelude.{
  ℕ, zero, suc, ◌+◌, ◌*◌, ◌/◌, u64, ltb, ◌==◌, Bool, true, false, ◌||◌, Option, none, some, List,
  [], ◌∷◌, map, length, if◌then◌else◌,
}
use kv_index.Base.ByteIo.{align_up}
use kv_index.Schema.{
  FieldType, FieldEncoding, FieldDefaultValue, FieldSpec, RuntimeSchema, is_string, field_type_size,
  field_type_alignment, value_ref16_size,
}
use kv_index.Schema.Fingerprint.{
  fingerprint_byte, fingerprint_uint64, fingerprint_string, fingerprint_default, to_byte, type_code,
  encoding_code, fnv_offset_basis,
}

pub record FieldLayout : Type 0 where
  pub field_id : ℕ
  pub name : List ℕ
  pub type : FieldType
  pub is_list : Bool
  pub nullable : Bool
  pub encoding : FieldEncoding
  pub default_value : FieldDefaultValue
  pub presence_bit_index : ℕ
  pub slot_offset : ℕ
  pub value_width : ℕ
  pub uses_ref : Bool

pub record CompiledRowLayout : Type 0 where
  pub schema_version : ℕ
  pub layout_fingerprint : ℕ
  pub presence_bitmap_bytes : ℕ
  pub fixed_area_offset : ℕ
  pub ref_area_offset : ℕ
  pub row_slot_size : ℕ
  pub fields : List FieldLayout

unfoldable pub is_ref_field : FieldSpec → Bool
is_ref_field field = field.is_list || is_string field.type

unfoldable pub fingerprint_field : ℕ → FieldLayout → ℕ
unfolding fingerprint_byte fingerprint_uint64 fingerprint_string fingerprint_default
fingerprint_field hash field =
    let h1 = fingerprint_uint64 hash field.field_id in
    let h2 = fingerprint_string h1 field.name in
    let h3 = fingerprint_uint64 h2 (type_code field.type) in
    let h4 = fingerprint_byte h3 (to_byte field.is_list) in
    let h5 = fingerprint_byte h4 (to_byte field.nullable) in
    let h6 = fingerprint_uint64 h5 (encoding_code field.encoding) in
    let h7 = fingerprint_default h6 field.default_value in
    let h8 = fingerprint_uint64 h7 field.presence_bit_index in
    let h9 = fingerprint_uint64 h8 field.slot_offset in
    let h10 = fingerprint_uint64 h9 field.value_width in
    fingerprint_byte h10 (to_byte field.uses_ref)

unfoldable pub fingerprint_fields : ℕ → List FieldLayout → ℕ
unfolding fingerprint_field
fingerprint_fields hash [] = hash
fingerprint_fields hash (f ∷ fs) = fingerprint_fields (fingerprint_field hash f) fs

-- The bytes of "kv_index_row_layout_v1".
abbrev row_layout_tag : List ℕ
row_layout_tag =
    0x6b ∷ 0x76 ∷ 0x5f ∷ 0x69 ∷ 0x6e ∷ 0x64 ∷ 0x65 ∷ 0x78 ∷ 0x5f ∷ 0x72 ∷ 0x6f ∷ 0x77 ∷ 0x5f ∷ 0x6c
    ∷ 0x61 ∷ 0x79 ∷ 0x6f ∷ 0x75 ∷ 0x74 ∷ 0x5f ∷ 0x76 ∷ 0x31 ∷ []

unfoldable pub build_fingerprint : CompiledRowLayout → ℕ
unfolding fingerprint_uint64 fingerprint_string fingerprint_fields
build_fingerprint layout =
    let h1 = fingerprint_string fnv_offset_basis row_layout_tag in
    let h2 = fingerprint_uint64 h1 layout.schema_version in
    let h3 = fingerprint_uint64 h2 layout.presence_bitmap_bytes in
    let h4 = fingerprint_uint64 h3 layout.fixed_area_offset in
    let h5 = fingerprint_uint64 h4 layout.ref_area_offset in
    let h6 = fingerprint_uint64 h5 layout.row_slot_size in
    let h7 = fingerprint_uint64 h6 (length layout.fields) in fingerprint_fields h7 layout.fields

-- `std::sort` by field identifier. (Equal identifiers, which no schema has, would keep their order.)
unfoldable pub insert_by_id : FieldSpec → List FieldSpec → List FieldSpec
insert_by_id f [] = f ∷ []
insert_by_id f (g ∷ gs) = if ltb g.field_id f.field_id then g ∷ insert_by_id f gs else f ∷ g ∷ gs

unfoldable pub sort_by_id : List FieldSpec → List FieldSpec
unfolding insert_by_id
sort_by_id [] = []
sort_by_id (f ∷ fs) = insert_by_id f (sort_by_id fs)

-- The layout of the field at a position, before it has a place.
unfoldable pub field_layout : ℕ → FieldSpec → FieldLayout
unfolding is_ref_field
field_layout i field = record {
  field_id = field.field_id;
  name = field.name;
  type = field.type;
  is_list = field.is_list;
  nullable = field.nullable;
  encoding = field.encoding;
  default_value = field.default_value;
  presence_bit_index = i;
  slot_offset = 0;
  value_width = if is_ref_field field then value_ref16_size else field_type_size field.type;
  uses_ref = is_ref_field field;
}

unfoldable pub field_layouts : ℕ → List FieldSpec → List FieldLayout
field_layouts i [] = []
field_layouts i (f ∷ fs) = field_layout i f ∷ field_layouts (i + 1) fs

-- The loop over the fixed-width fields: the fields, and the cursor after them.
unfoldable pub place_fixed : ℕ → List FieldLayout → List FieldLayout × ℕ
place_fixed fixed_cursor [] = ([], fixed_cursor)
place_fixed fixed_cursor (f ∷ fs) =
    let start = align_up fixed_cursor (field_type_alignment f.type) in
    let (rest, end) =
      place_fixed (if f.uses_ref then fixed_cursor else u64 (start + f.value_width)) fs in
    ((if f.uses_ref then f else record f { slot_offset = start }) ∷ rest, end)

-- The loop over the fields behind references.
unfoldable pub place_refs : ℕ → List FieldLayout → List FieldLayout × ℕ
place_refs ref_cursor [] = ([], ref_cursor)
place_refs ref_cursor (f ∷ fs) =
    let (rest, end) =
      place_refs (if f.uses_ref then u64 (ref_cursor + value_ref16_size) else ref_cursor) fs in
    ((if f.uses_ref then record f { slot_offset = ref_cursor } else f) ∷ rest, end)

-- `Compile`, which never fails; the fingerprint is that of the other fields.
unfoldable pub layout_of : ℕ → List FieldSpec → CompiledRowLayout
layout_of version active_fields =
    let sorted = sort_by_id active_fields in
    let bitmap = align_up ((length sorted + 7) / 8) 8 in
    let (with_fixed, fixed_cursor) = place_fixed bitmap (field_layouts 0 sorted) in
    let ref_area_offset = align_up fixed_cursor 8 in
    let (placed, ref_cursor) = place_refs ref_area_offset with_fixed in
    record {
      schema_version = version;
      layout_fingerprint = 0;
      presence_bitmap_bytes = bitmap;
      fixed_area_offset = bitmap;
      ref_area_offset = ref_area_offset;
      row_slot_size = align_up ref_cursor 8;
      fields = placed;
    }

unfoldable pub compile : RuntimeSchema → CompiledRowLayout
compile schema =
    let layout = layout_of schema.version schema.active_fields in
    record layout { layout_fingerprint = build_fingerprint layout }

-- `CompiledRowLayout::FindField`.
unfoldable pub find_layout : ℕ → List FieldLayout → Option FieldLayout
find_layout field_id [] = none
find_layout field_id (f ∷ fs) = if f.field_id == field_id then some f else find_layout field_id fs
