-- ===== src/Model/Write/ScalarLists.antt =====
-- `EncodeScalarList` and `DecodeScalarListByType` (src/model/row_storage.{h,cc}) are inverse.
use kv_index.Prelude.{
  ℕ, ◌*◌, ◌<◌, false, ◌≡◌, ap, ◌∙◌, arith, All-get_or, List, length, get_or, replicate,
  length-replicate, subst, ◌+◌,
}
use kv_index.Status.{ok, ok_status}
use kv_index.Base.ByteIo.{read_little_endian}
use kv_index.Schema.{is_string, field_type_size}
use kv_index.Model.Value.{ListValue, list_type, list_bits}
use kv_index.Model.Value.Lists.{FitsItems, IsPattern, list_bits-IsPattern, list_of_bits-list_bits}
use kv_index.Model.Read.{decode_scalar_list}
use kv_index.Model.Write.{write_patterns, encode_scalar_list}
use kv_index.Model.Write.Patterns.{WritesAll, write_patterns-WritesAll, read_patterns-of_reads}

abbrev width : ListValue → ℕ
width v = field_type_size (list_type v)

abbrev blank : ListValue → List ℕ
blank v = replicate (length (list_bits v) * width v) 0

-- The bytes that the patterns of a list make.
abbrev pub encoded_bytes : ListValue → List ℕ
encoded_bytes v = (write_patterns (width v) (list_bits v) 0 0 (blank v)).1

module _ (v : ListValue) (fixed : is_string (list_type v) ≡ false) (fits : FitsItems v) where
  written :
      ((write_patterns (width v) (list_bits v) 0 0 (blank v)).0 ≡ ok_status)
      × WritesAll (width v) (list_bits v) 0 (blank v) (encoded_bytes v)
  written =
      write_patterns-WritesAll (width v) (list_bits v) 0 0 0 (blank v) (omega arith)
        (omega (arith, length-replicate {A = ℕ} (length (list_bits v) * (width v)) 0))

  -- The bytes that a list is encoded to.
  pub encode_scalar_list-out : encode_scalar_list v ≡ ok (encoded_bytes v)
  unfolding encode_scalar_list
  encode_scalar_list-out = rw (fixed, written.0)

  pub length-encoded_bytes : length (encoded_bytes v) ≡ length (list_bits v) * (width v)
  length-encoded_bytes =
      written.1.length_kept ∙ length-replicate (length (list_bits v) * (width v)) 0

  fits_width :
      (k : ℕ) → k < length (list_bits v) → IsPattern (list_type v) (get_or (list_bits v) k 0)
  fits_width k h =
      All-get_or (IsPattern (list_type v)) (list_bits v) k 0 (list_bits-IsPattern v fits) h

  start : (k : ℕ) → 0 + k * (width v) ≡ (0 + k) * (width v)
  start k = grind arith

  -- They are decoded to the list.
  pub decode-encode_scalar_list :
      decode_scalar_list (list_type v) (encoded_bytes v) (length (list_bits v)) ≡ ok v
  unfolding decode_scalar_list
  decode-encode_scalar_list =
      let reads =
        read_patterns-of_reads (list_type v) (encoded_bytes v) (list_bits v) 0
          (λ k h.
            subst
              (λ (t : ℕ).
                read_little_endian (width v) (encoded_bytes v) t ≡ ok (get_or (list_bits v) k 0))
              (start k) (written.1.reads k h ∙ ap ok (fits_width k h).in_width))
          (λ k h. (fits_width k h).is_bool) in
      ground (arith, fixed, length-encoded_bytes, reads, list_of_bits-list_bits v fixed fits)
