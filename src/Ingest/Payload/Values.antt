-- ===== src/Ingest/Payload/Values.antt =====
-- `DecodeValue` (src/ingest/update_applier.cc): a decoded value is in the range of its type.
use kv_index.Prelude.{
  ℕ, ◌*◌, ◌^◌, ◌<◌, ◌==◌, ◌≡◌, refl, sym, ap, subst, arith, All, All-map, map-All, List, length,
  length-map, map,
}
use kv_index.Status.{StatusOr, ok, >>=-eq-ok, >>-eq-ok, require, invalid_argument, ◌>>=◌}
use kv_index.Schema.{
  monostate, int8_value, int32_value, int64_value, uint64_value, bool_value, string_value,
  int8_list, int32_list, int64_list, uint64_list, bool_list, string_list, is_empty,
}
use kv_index.Model.Value.{signed_of}
use kv_index.Model.Value.RoundTrip.{FitsSigned}
use kv_index.Ingest.Payload.{
  WireKind, DecodedValue, read_exact_integer, read_bool, read_scalar_list, read_bool_list,
  read_string_list, decode_value, null_kind, int8_kind, int32_kind, int64_kind, uint64_kind,
  bool_kind, string_kind, int8_list_kind, int32_list_kind, int64_list_kind, uint64_list_kind,
  bool_list_kind, string_list_kind,
}
use kv_index.Ingest.Payload.Bounds.{
  IsBytes, read_little_endian-lt, signed_of-FitsSigned_8, signed_of-FitsSigned_32,
  signed_of-FitsSigned_64,
}
use kv_index.Ingest.Payload.Lists.{
  read_scalar_list-lt, read_bool_list-length, read_string_list-length,
}
use kv_index.Ingest.Encode.Values.{FitsValue}

exact_integer-lt :
    (width : ℕ) (bytes : List ℕ) (u : ℕ)
    → IsBytes bytes
    → read_exact_integer width bytes ≡ ok u
    → u < 2 ^ (width * 8)
unfolding read_exact_integer
exact_integer-lt width bytes u h e =
    read_little_endian-lt width bytes 0 u h (>>-eq-ok (require (length bytes == width) _) _ e).1

-- A value that a read of one kind makes.
made :
    {A : Type 0} (m : StatusOr A) (f : A → DecodedValue) (value : DecodedValue)
    → (m >>= λ a. ok (f a)) ≡ ok value
    → ((a : A) → m ≡ ok a → FitsValue (f a))
    → FitsValue value
made m f value e fits =
    let r = >>=-eq-ok m (λ a. ok (f a)) e in
    let same : f (r.0) ≡ value = cc (r.2) in subst FitsValue same (fits (r.0) (r.1))

module _ (bytes : List ℕ) (h : IsBytes bytes) (sized : length bytes < 2 ^ 32) where
  -- A list of signed integers, of a width and its number of bits.
  signed_items :
      (bits width : ℕ) (us : List ℕ)
      → read_scalar_list width bytes ≡ ok us
      → bits ≡ width * 8
      → ((u : ℕ) → u < 2 ^ bits → FitsSigned bits (signed_of bits u))
      → All (FitsSigned bits) (map (signed_of bits) us)
        × (length (map (signed_of bits) us) * width < 2 ^ 32)
  signed_items bits width us e same range =
      let all = read_scalar_list-lt bytes h width us e in
      (
        map-All (FitsSigned bits) (signed_of bits) us
            (All-map us (λ u p. range u (subst (λ t. u < 2 ^ t) (sym same) p)) (all.0)),
        omega (arith, all.1, ap (λ (t : ℕ). t * width) (length-map (signed_of bits) us)),
      )

  pub decode_value-FitsValue :
      (kind : WireKind) (value : DecodedValue)
      → decode_value kind bytes ≡ ok value
      → FitsValue value
  unfolding decode_value
  decode_value-FitsValue null_kind value e =
      let same : monostate ≡ value =
        cc
          (>>-eq-ok (require (is_empty bytes) (invalid_argument "payload null field must be empty"))
            (ok monostate) e).1 in
      subst FitsValue same tt
  decode_value-FitsValue int8_kind value e =
      made (read_exact_integer 1 bytes) (λ u. int8_value (signed_of 8 u)) value e
        (λ u r. signed_of-FitsSigned_8 u (exact_integer-lt 1 bytes u h r))
  decode_value-FitsValue int32_kind value e =
      made (read_exact_integer 4 bytes) (λ u. int32_value (signed_of 32 u)) value e
        (λ u r. signed_of-FitsSigned_32 u (exact_integer-lt 4 bytes u h r))
  decode_value-FitsValue int64_kind value e =
      made (read_exact_integer 8 bytes) (λ u. int64_value (signed_of 64 u)) value e
        (λ u r. signed_of-FitsSigned_64 u (exact_integer-lt 8 bytes u h r))
  decode_value-FitsValue uint64_kind value e =
      made (read_exact_integer 8 bytes) (λ u. uint64_value u) value e
        (λ u r. exact_integer-lt 8 bytes u h r)
  decode_value-FitsValue bool_kind value e =
      made (read_bool bytes) (λ b. bool_value b) value e (λ b r. tt)
  decode_value-FitsValue string_kind value e =
      let same : string_value bytes ≡ value = cc in subst FitsValue same sized
  decode_value-FitsValue int8_list_kind value e =
      made (read_scalar_list 1 bytes) (λ us. int8_list (map (signed_of 8) us)) value e
        (λ us r.
          let all = signed_items 8 1 us r refl signed_of-FitsSigned_8 in
          (all.0, omega (arith, all.1)))
  decode_value-FitsValue int32_list_kind value e =
      made (read_scalar_list 4 bytes) (λ us. int32_list (map (signed_of 32) us)) value e
        (λ us r. signed_items 32 4 us r refl signed_of-FitsSigned_32)
  decode_value-FitsValue int64_list_kind value e =
      made (read_scalar_list 8 bytes) (λ us. int64_list (map (signed_of 64) us)) value e
        (λ us r. signed_items 64 8 us r refl signed_of-FitsSigned_64)
  decode_value-FitsValue uint64_list_kind value e =
      made (read_scalar_list 8 bytes) (λ us. uint64_list us) value e
        (λ us r. let all = read_scalar_list-lt bytes h 8 us r in (all.0, omega (arith, all.1)))
  decode_value-FitsValue bool_list_kind value e =
      made (read_bool_list bytes) (λ bs. bool_list bs) value e
        (λ bs r. omega (arith, read_bool_list-length bytes h bs r))
  decode_value-FitsValue string_list_kind value e =
      made (read_string_list bytes) (λ ss. string_list ss) value e
        (λ ss r. omega (arith, read_string_list-length bytes ss h r))
