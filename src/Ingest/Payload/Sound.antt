-- ===== src/Ingest/Payload/Sound.antt =====
-- `DecodePayload` (src/ingest/update_applier.cc): a payload has no field twice, and its values are in the
-- range of their types.
use kv_index.Prelude.{
  ℕ, zero, suc, ltb, ◌==◌, ◌&&◌, ◌≡◌, refl, sym, ap, subst, inl, inr, arith, true, false, not, List,
  [], ◌∷◌, length, drop, Bool-cases, none,
}
use kv_index.Status.{ok, >>=-eq-ok, >>-eq-ok, require, invalid_argument}
use kv_index.Ingest.Payload.{
  WireKind, DecodedValue, DecodedField, DecodedPayload, ByteReader, remaining, find_decoded,
  read_integer, read_exact_integer, read_bool, read_scalar_list, read_bool_list, read_string_list,
  decode_value, wire_kind, contains, read_field, decode_fields, decode_payload, has_magic,
  null_kind, int8_kind, int32_kind, int64_kind, uint64_kind, bool_kind, string_kind, int8_list_kind,
  int32_list_kind, int64_list_kind, uint64_list_kind, bool_list_kind, string_list_kind,
}
use kv_index.Ingest.Payload as Payload
use kv_index.Ingest.Payload.Bounds.{IsBytes, drop-IsBytes, read_integer-Moves, read_bytes-Moves}
use kv_index.Ingest.Payload.Lists.{still_bytes}
use kv_index.Ingest.Encode.Values.{FitsValue}
use kv_index.Ingest.Encode.Round.{HasUniqueFields}
use kv_index.Ingest.Encode.Reads.{AllFit}
use kv_index.Ingest.Payload.Values.{decode_value-FitsValue}

-- A field: its identifier is the one that was read, its value is in range, and bytes are left.
read_field-Sound :
    (id : ℕ) (r : ByteReader) (x : DecodedField × ByteReader)
    → IsBytes r.bytes
    → read_field id r ≡ ok x
    → (x.0.field_id ≡ id) × FitsValue (x.0.value) × IsBytes (x.1.bytes)
unfolding read_field
read_field-Sound id r x h e =
    let kind_byte = >>=-eq-ok (read_integer 1 r) _ e in
    let m = read_integer-Moves 1 r (kind_byte.0) h (kind_byte.1) in
    let h1 = still_bytes r (kind_byte.0.1) (m.1) h in
    let size = >>=-eq-ok (read_integer 4 (kind_byte.0.1)) _ (kind_byte.2) in
    let n = read_integer-Moves 4 (kind_byte.0.1) (size.0) h1 (size.1) in
    let h2 = still_bytes (kind_byte.0.1) (size.0.1) (n.1) h1 in
    let raw = >>=-eq-ok (Payload.read_bytes (size.0.0) (size.0.1)) _ (size.2) in
    let o = read_bytes-Moves (size.0.0) (size.0.1) (raw.0) h2 (raw.1) in
    let h3 = still_bytes (size.0.1) (raw.0.1) (o.2) h2 in
    let kind = >>=-eq-ok (wire_kind (kind_byte.0.0)) _ (raw.2) in
    let value = >>=-eq-ok (decode_value (kind.0) (raw.0.0)) _ (kind.2) in
    let same : (record { field_id = id; kind = kind.0; value = value.0 }, raw.0.1) ≡ x =
      cc (value.2) in
    subst
      (λ (t : DecodedField × ByteReader).
        (t.0.field_id ≡ id) × FitsValue (t.0.value) × IsBytes (t.1.bytes))
      same
      (
        refl,
        decode_value-FitsValue (raw.0.0) (o.0) (omega (arith, o.1, n.0)) (kind.0) (value.0)
            (value.1),
        h3,
      )

-- No field of the list has an identifier that was seen.
abbrev NoneSeen : List ℕ → List DecodedField → Type 0
NoneSeen seen ds = (id : ℕ) → contains id seen ≡ true → find_decoded id ds ≡ none

-- A seen identifier is not that of a new field, and so it is looked for in the rest.
later :
    (seen : List ℕ) (j id : ℕ) (d : DecodedField) (ds : List DecodedField)
    → d.field_id ≡ id
    → contains id seen ≡ false
    → contains j seen ≡ true
    → (contains j (id ∷ seen) ≡ true → find_decoded j ds ≡ none)
    → find_decoded j (d ∷ ds) ≡ none
unfolding contains find_decoded
later seen j id d ds same unseen s ih = elim (Bool-cases (d.field_id == j)) [
  | inl e ↦
      let equal : id ≡ j = ground (arith, e, same) in
      absurd (ground (arith, ap (λ (t : ℕ). contains t seen) equal, unseen, s))
  | inr e ↦ let t : contains j (id ∷ seen) ≡ true = ground (arith, s) in ground (arith, e, ih t)
]

decode_fields-Sound :
    (left : ℕ) (seen : List ℕ) (r : ByteReader) (x : List DecodedField × ByteReader)
    → IsBytes r.bytes
    → decode_fields left seen r ≡ ok x
    → HasUniqueFields (x.0) × AllFit (x.0) × NoneSeen seen (x.0)
unfolding decode_fields find_decoded contains
decode_fields-Sound zero seen r x h e =
    let same : ([], r) ≡ x = cc in
    subst
      (λ (t : List DecodedField × ByteReader).
        HasUniqueFields (t.0) × AllFit (t.0) × NoneSeen seen (t.0))
      same (tt, tt, λ id s. refl)
decode_fields-Sound (suc left) seen r x h e =
    let id = >>=-eq-ok (read_integer 4 r) _ e in
    let m = read_integer-Moves 4 r (id.0) h (id.1) in
    let h1 = still_bytes r (id.0.1) (m.1) h in
    let fresh =
      >>-eq-ok
        (require (not (contains (id.0.0) seen))
          (invalid_argument "payload contains duplicate field id"))
        _ (id.2) in
    let unseen : contains (id.0.0) seen ≡ false = ground (arith, fresh.0) in
    let field = >>=-eq-ok (read_field (id.0.0) (id.0.1)) _ (fresh.1) in
    let f = read_field-Sound (id.0.0) (id.0.1) (field.0) h1 (field.1) in
    let rest = >>=-eq-ok (decode_fields left (id.0.0 ∷ seen) (field.0.1)) _ (field.2) in
    let ih = decode_fields-Sound left (id.0.0 ∷ seen) (field.0.1) (rest.0) (f.2) (rest.1) in
    let same : (field.0.0 ∷ rest.0.0, rest.0.1) ≡ x = cc (rest.2) in
    subst
      (λ (t : List DecodedField × ByteReader).
        HasUniqueFields (t.0) × AllFit (t.0) × NoneSeen seen (t.0))
      same
      (
        (
          subst (λ (j : ℕ). find_decoded j (rest.0.0) ≡ none) (sym (f.0))
              (ih.2 (id.0.0) (ground arith)),
          ih.0,
        ),
        (f.1, ih.1),
        λ j s. later seen j (id.0.0) (field.0.0) (rest.0.0) (f.0) unseen s (ih.2 j),
      )

-- A payload that `DecodePayload` makes of a list of bytes has no field twice, and every value is in the
-- range of its type.
pub decode_payload-Sound :
    (bytes : List ℕ) (payload : DecodedPayload)
    → IsBytes bytes
    → decode_payload bytes ≡ ok payload
    → HasUniqueFields payload.fields × AllFit payload.fields
unfolding decode_payload
decode_payload-Sound bytes payload h e =
    let start : ByteReader = record { bytes = drop 4 bytes; offset = 0 } in
    let magic =
      >>-eq-ok
        (require (not (ltb (length bytes) 12) && has_magic bytes)
          (invalid_argument "payload magic is invalid"))
        _ e in
    let h0 = drop-IsBytes 4 bytes h in
    let version = >>=-eq-ok (read_integer 2 start) _ (magic.1) in
    let h1 =
      still_bytes start (version.0.1) (read_integer-Moves 2 start (version.0) h0 (version.1)).1
        h0 in
    let known =
      >>-eq-ok (require (version.0.0 == 1) (invalid_argument "payload version is unsupported")) _
        (version.2) in
    let flags = >>=-eq-ok (read_integer 2 (version.0.1)) _ (known.1) in
    let h2 =
      still_bytes (version.0.1) (flags.0.1)
        (read_integer-Moves 2 (version.0.1) (flags.0) h1 (flags.1)).1 h1 in
    let none_set =
      >>-eq-ok (require (flags.0.0 == 0) (invalid_argument "payload flags are unsupported")) _
        (flags.2) in
    let count = >>=-eq-ok (read_integer 4 (flags.0.1)) _ (none_set.1) in
    let h3 =
      still_bytes (flags.0.1) (count.0.1)
        (read_integer-Moves 4 (flags.0.1) (count.0) h2 (count.1)).1 h2 in
    let fields = >>=-eq-ok (decode_fields (count.0.0) [] (count.0.1)) _ (count.2) in
    let sound = decode_fields-Sound (count.0.0) [] (count.0.1) (fields.0) h3 (fields.1) in
    let all =
      >>-eq-ok
        (require (remaining (fields.0.1) == 0) (invalid_argument "payload has trailing bytes")) _
        (fields.2) in
    let same : record { fields = fields.0.0 } ≡ payload = cc (all.1) in
    subst (λ (t : DecodedPayload). HasUniqueFields t.fields × AllFit t.fields) same
      (sound.0, sound.1)
