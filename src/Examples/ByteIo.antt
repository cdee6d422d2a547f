-- ===== src/Examples/ByteIo.antt =====
-- Alignment, and integers and references in a span of bytes, at concrete inputs.
use kv_index.Prelude.{ℕ, ◌≡◌, arith, List, replicate}
use kv_index.Status.{ok, ok_status}
use kv_index.Base.ByteIo.{
  align_up, ValueRef16, write_little_endian, write_value_ref16, decode_value_ref16,
}
use kv_index.Base.ByteIo.Align.{IsAlignedUp, align_up-IsAlignedUp}
use kv_index.Base.ByteIo.RoundTrip.{WritesBack, write_little_endian-WritesBack}
use kv_index.Base.ByteIo.Ref.{decode-write_value_ref16}

align_up-IsAlignedUp_example : IsAlignedUp 21 8 (align_up 21 8)
align_up-IsAlignedUp_example = align_up-IsAlignedUp 21 8 (omega arith) (omega arith)

abbrev span : List ℕ
span = replicate 24 7

write_little_endian-WritesBack_example :
    ((write_little_endian 4 0x01020304 span 20).0 ≡ ok_status)
    × WritesBack 4 0x01020304 span 20 (write_little_endian 4 0x01020304 span 20).1
write_little_endian-WritesBack_example =
    write_little_endian-WritesBack 4 0x01020304 span 20 (omega arith)

abbrev ref : ValueRef16
ref = record { offset = 4096; byte_length = 12; element_count_or_flags = 3 }

decode-write_value_ref16_example :
    ((write_value_ref16 ref span 8).0 ≡ ok_status)
    × (decode_value_ref16 (write_value_ref16 ref span 8).1 8 ≡ ok ref)
decode-write_value_ref16_example =
    decode-write_value_ref16 ref span 8 (omega arith)
      (record { offset_fits = omega arith; length_fits = omega arith; count_fits = omega arith })
