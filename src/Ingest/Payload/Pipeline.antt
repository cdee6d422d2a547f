-- ===== src/Ingest/Payload/Pipeline.antt =====
-- `DecodePayload` and `EncodeForLayout` (src/ingest/update_applier.cc) one after the other, under a
-- compiled layout.
use kv_index.Prelude.{ℕ, ◌^◌, ◌≤◌, ◌<◌, ◌≡◌, some, List, length}
use kv_index.Status.{ok}
use kv_index.Schema.Layout.{FieldLayout, find_layout, compile}
use kv_index.Schema.{RuntimeSchema}
use kv_index.Model.EncodedRow.{EncodedRow}
use kv_index.Ingest.Payload.{DecodedPayload, find_decoded, decode_payload}
use kv_index.Ingest.Payload.Bounds.{IsBytes}
use kv_index.Ingest.Payload.Sound.{decode_payload-Sound}
use kv_index.Ingest.Encode.{encode_for_layout}
use kv_index.Ingest.Encode.Shows.{Shown, encode_for_layout-Shown}
use kv_index.Ingest.Encode.Usable.{compile-IsUsable}

-- The bytes of an update that `DecodePayload` accepts and `EncodeForLayout` then makes a row of, under
-- the layout that `Compile` makes of a schema of at most 2 ^ 32 fields, where the row's arena is of
-- less than 2 ^ 64 bytes: for every field of the layout, `Get` or `GetList` of the row returns the
-- value that the decoded payload has for it, which is one of the field's type, and where the payload
-- has none what they make of the field's default.
pub encode-decode_payload-Shown :
    (bytes : List ℕ) (payload : DecodedPayload) (schema : RuntimeSchema) (encoded : EncodedRow)
    → IsBytes bytes
    → length schema.active_fields ≤ 2 ^ 32
    → length encoded.arena < 2 ^ 64
    → decode_payload bytes ≡ ok payload
    → encode_for_layout payload (some (compile schema)) ≡ ok encoded
    → (id : ℕ) (f : FieldLayout) → find_layout id (compile schema).fields ≡ some f
    → Shown f.is_list
        (record { layout = compile schema; encoded = encoded })
        id
        f
        (find_decoded id payload.fields)
encode-decode_payload-Shown bytes payload schema encoded h few small decoded e =
    let sound = decode_payload-Sound bytes payload h decoded in
    encode_for_layout-Shown payload (compile schema) encoded (compile-IsUsable schema few) (sound.0)
      (sound.1) small e
