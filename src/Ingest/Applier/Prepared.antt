-- ===== src/Ingest/Applier/Prepared.antt =====
-- The part of `Apply` before anything is published (src/ingest/update_applier.cc): one row for each
-- target route.
use kv_index.Prelude.{
  ◌≡◌, refl, sym, subst, true, false, none, List, [], ◌∷◌, get_or, All, arith, inl, inr, ◌⊎◌,
}
use kv_index.Status.{
  >>=-eq-error, >>-eq-error, Status, StatusOr-cases, is_ok, ok, error, ◌>>=◌, >>=-eq-ok, >>-eq-ok,
  check,
}
use kv_index.Types.Kafka.{KafkaUpsertMessage}
use kv_index.Ingest.Payload.{DecodedPayload, decode_payload}
use kv_index.Ingest.Encode.{encode_for_layout}
use kv_index.Ingest.Applier.{
  UpdateTargetRoute, UpdateApplierOptions, Tables, PreparedPublish, shard_for, source_position,
  prepare, prepare_all, publish_all, prepare_message, apply, validate_options,
  validate_message_metadata,
}
use kv_index.Ingest.Applier.PublishAll.{Owns}

-- What is prepared for a route: the payload's row under the route's layout, for the table of the key's
-- shard, with the message's key and position.
pub record IsPrepared (message : KafkaUpsertMessage) (payload : DecodedPayload)
    (route : UpdateTargetRoute) (publish : PreparedPublish) : Type 0 where
  pub encodes : encode_for_layout payload route.layout ≡ ok publish.encoded
  pub to_shard :
      publish.table ≡ get_or route.realtime_shards (shard_for message.primary_key route) none
  pub own_key : publish.primary_key ≡ message.primary_key
  pub at_position : publish.position ≡ source_position message

abbrev pub ArePrepared :
    KafkaUpsertMessage → DecodedPayload → List UpdateTargetRoute → List PreparedPublish → Type 0
ArePrepared message payload [] [] = Unit
ArePrepared message payload (route ∷ routes) (p ∷ ps) =
    IsPrepared message payload route p × ArePrepared message payload routes ps
ArePrepared message payload [] (p ∷ ps) = ⊥
ArePrepared message payload (route ∷ routes) [] = ⊥

prepare-IsPrepared :
    (message : KafkaUpsertMessage) (payload : DecodedPayload) (route : UpdateTargetRoute)
    (p : PreparedPublish)
    → prepare message payload route ≡ ok p
    → IsPrepared message payload route p
unfolding prepare
prepare-IsPrepared message payload route p h =
    let encoded = >>=-eq-ok (encode_for_layout payload route.layout) _ h in
    subst (IsPrepared message payload route) (cc (encoded.2))
      (record { encodes = encoded.1; to_shard = refl; own_key = refl; at_position = refl })

prepare_all-ArePrepared :
    (message : KafkaUpsertMessage) (payload : DecodedPayload) (routes : List UpdateTargetRoute)
    (ps : List PreparedPublish)
    → prepare_all message payload routes ≡ ok ps
    → ArePrepared message payload routes ps
unfolding prepare_all
prepare_all-ArePrepared message payload [] ps h =
    let same : [] ≡ ps = cc in subst (ArePrepared message payload []) same tt
prepare_all-ArePrepared message payload (route ∷ routes) ps h =
    let first = >>=-eq-ok (prepare message payload route) _ h in
    let rest = >>=-eq-ok (prepare_all message payload routes) _ (first.2) in
    let same : first.0 ∷ rest.0 ≡ ps = cc (rest.2) in
    subst (ArePrepared message payload (route ∷ routes)) same (
      prepare-IsPrepared message payload route (first.0) (first.1),
      prepare_all-ArePrepared message payload routes (rest.0) (rest.1),
    )

-- Every prepared row has the message's key.
pub ArePrepared-Owns :
    (message : KafkaUpsertMessage) (payload : DecodedPayload) (routes : List UpdateTargetRoute)
    (ps : List PreparedPublish)
    → ArePrepared message payload routes ps
    → All (Owns message.primary_key) ps
ArePrepared-Owns message payload [] [] h = tt
ArePrepared-Owns message payload [] (p ∷ ps) h = absurd h
ArePrepared-Owns message payload (route ∷ routes) [] h = absurd h
ArePrepared-Owns message payload (route ∷ routes) (p ∷ ps) h =
    (h.0.own_key, ArePrepared-Owns message payload routes ps (h.1))

prepare_all-error :
    (message : KafkaUpsertMessage) (payload : DecodedPayload) (routes : List UpdateTargetRoute)
    (s : Status)
    → prepare_all message payload routes ≡ error s
    → is_ok s ≡ false
unfolding prepare_all
prepare_all-error message payload [] s h = cc
prepare_all-error message payload (route ∷ routes) s h =
    >>=-eq-error (prepare message payload route) _ h (λ p e rest.
      >>=-eq-error (prepare_all message payload routes) _ rest (λ ps f last. cc (last)))

prepare_message-error :
    (options : UpdateApplierOptions) (message : KafkaUpsertMessage) (s : Status)
    → prepare_message options message ≡ error s
    → is_ok s ≡ false
unfolding prepare_message
prepare_message-error options message s h =
    >>-eq-error
      (check (validate_options options) (validate_message_metadata message options.logical_topic))
      (decode_payload message.payload >>= λ decoded. prepare_all message decoded options.targets) h
      (λ k.
        >>=-eq-error (decode_payload message.payload) _ k
          (λ decoded e last. prepare_all-error message decoded options.targets s last))

-- The message was rejected and no table was touched.
abbrev pub IsRejected : Tables → Status × Tables → Type 0
IsRejected tables result = (is_ok (result.0) ≡ false) × (result.1 ≡ tables)

-- Every route has its row, and the rows were published in the order of the routes.
pub record IsAccepted (options : UpdateApplierOptions) (message : KafkaUpsertMessage)
    (tables : Tables) (result : Status × Tables) : Type 0 where
  pub valid_options : is_ok (validate_options options) ≡ true
  pub valid_metadata : is_ok (validate_message_metadata message options.logical_topic) ≡ true
  pub payload : DecodedPayload
  pub decodes : decode_payload message.payload ≡ ok payload
  pub prepared : List PreparedPublish
  pub each : ArePrepared message payload options.targets prepared
  pub publishes : result ≡ publish_all prepared tables

-- `Apply` either fails and leaves every table as it was, or the options and the message's metadata are
-- valid, the payload decodes, every target route has a row, which is the payload's under the route's
-- layout, for the table of the key's shard, and only then are these rows published, in the order of
-- the routes.
pub apply-PreparesFirst :
    (options : UpdateApplierOptions) (message : KafkaUpsertMessage) (tables : Tables)
    → IsRejected tables (apply options message tables)
      ⊎ IsAccepted options message tables (apply options message tables)
unfolding apply prepare_message
apply-PreparesFirst options message tables =
    elim (StatusOr-cases (prepare_message options message)) [
      | inr (s, e) ↦
          let t : apply options message tables ≡ (s, tables) = ground (arith, e) in
          subst (λ r. IsRejected tables r ⊎ IsAccepted options message tables r) (sym t)
            (inl (prepare_message-error options message s e, refl))
      | inl (ps, e) ↦
          let checked =
            >>-eq-ok
              (check (validate_options options)
                (validate_message_metadata message options.logical_topic))
              (decode_payload message.payload >>= λ decoded.
                prepare_all message decoded options.targets)
              e in
          let decoded = >>=-eq-ok (decode_payload message.payload) _ (checked.1) in
          inr (record {
            valid_options = ground (arith, checked.0);
            valid_metadata = ground (arith, checked.0);
            payload = decoded.0;
            decodes = decoded.1;
            prepared = ps;
            each = prepare_all-ArePrepared message (decoded.0) options.targets ps (decoded.2);
            publishes = ground (arith, e);
          })
    ]
