-- ===== src/Store/RealtimeMap/Publish/Stopped.antt =====
-- `PublishAndReport` at the slot where its loop stops: empty, reserved, or occupied by the key.
use kv_index.Prelude.{
  ℕ, ◌+◌, ◌<◌, u64, ◌≡◌, refl, sym, ap, subst, ◌∙◌, true, false, none, some, set, arith, eq-cases,
  inl, inr, ◌⊎◌, set_same,
}
use kv_index.Prelude.Scan.{scan-StopsAt}
use kv_index.Status.{Status, StatusOr, ok, error, fail}
use kv_index.Types.{
  SourcePositionUpdateDecision, newer, stale, idempotent, is_valid_source_position,
  classify_source_position_update,
}
use kv_index.Store.RealtimeMap.{
  RealtimeRowRef, Slot, empty, reserved, occupied, slot_at, empty_slot, RealtimeAtomicHashMap,
  probe_index, publish_existing,
}
use kv_index.Store.RealtimeMap.Scan.{read_at, is_occupied, holds, passes, claimed, publish_at}
use kv_index.Store.RealtimeMap.Probe.{probe_index-lt}
use kv_index.Store.RealtimeMap.Invariant.{Inv, found, write, keep-Inv, claim-Inv}
use kv_index.Store.RealtimeMap.View.{view, get-eq-found}
use kv_index.Store.RealtimeMap.Publish.Rule.{
  is_newer, newest, Published, incomparable, slot_reserved, view-other, view-written, state-cases,
}

decision-cases :
    (c : StatusOr SourcePositionUpdateDecision)
    → ((c ≡ ok newer)
        ⊎ ((d : SourcePositionUpdateDecision) × (c ≡ ok d) × (is_newer (ok d) ≡ false)))
      ⊎ ((s : Status) × (c ≡ error s))
decision-cases (ok newer) = inl (inl refl)
decision-cases (ok stale) = inl (inr (stale, refl, refl))
decision-cases (ok idempotent) = inl (inr (idempotent, refl, refl))
decision-cases (error s) = inr (s, refl)

module _ (m : RealtimeAtomicHashMap) (v : Inv m) (key : ℕ) (row : RealtimeRowRef) (p : ℕ)
    (own : row.primary_key ≡ key) (valid : is_valid_source_position row.position ≡ true)
    (pos : 0 < m.capacity) (stop : found m key ≡ some p) where
  abbrev at : ℕ
  at = probe_index m key p

  fits : at < m.capacity
  fits = probe_index-lt m key p pos

  no_pass : passes (slot_at m.slots at) key ≡ false
  no_pass = (scan-StopsAt _ m.capacity 0 p stop).at

  absent : (slot_at m.slots at).state ≡ empty → view m key ≡ none
  unfolding view read_at
  absent e = ground (arith, get-eq-found m key pos)

  visible :
      (current : RealtimeRowRef)
      → (slot_at m.slots at).state ≡ occupied
      → (slot_at m.slots at).latest_row ≡ some current
      → view m key ≡ some current
  unfolding view read_at
  visible current e held = ground (arith, get-eq-found m key pos)

  abbrev count : ℕ
  count = u64 (m.unique_key_count + 1)

  publish_empty : (slot_at m.slots at).state ≡ empty → Published m key row (publish_at at m key row)
  unfolding publish_at newest
  publish_empty e =
      let new : Slot = claimed key row in
      let inv : Inv (write m at new count) =
        claim-Inv m v at fits new count (ground arith) key p stop refl refl refl
          (row, refl, own, valid) in
      rw (e, publish_at)
        (record {
          inv = inv;
          outcome = inl (record {
            comparable = λ current shown. cc (absent e, shown);
            result = ground (arith, absent e);
            views = λ j. elim (eq-cases j key) [
              | inl same ↦ ground (
                arith,
                absent e,
                view-written m v at fits new count inv j row (ground arith) refl,
              )
              | inr other ↦
                  ground
                    (arith, view-other m v at fits new count inv j (ground arith) (ground arith))
            ];
          });
        })

  module _ (current : RealtimeRowRef) (e : (slot_at m.slots at).state ≡ occupied)
      (held : (slot_at m.slots at).latest_row ≡ some current) where
    abbrev slot : Slot
    slot = slot_at m.slots at

    -- A row that is not newer leaves the table as it was.
    unchanged : record m { slots = set m.slots at slot } ≡ m
    unchanged = ap (λ s. record m { slots = s }) (set_same m.slots at empty_slot)

    same_key : slot.primary_key ≡ key
    same_key = ground (arith, no_pass)

    publish_at-newer :
        classify_source_position_update current.position row.position ≡ ok newer
        → publish_at at m key row
          ≡ (ok true, write m at (record slot { latest_row = some row }) m.unique_key_count)
    unfolding publish_at publish_existing
    publish_at-newer c = rw (e, publish_at) (rw (held, c, publish_existing) (rw e))

    publish_at-old :
        (c : SourcePositionUpdateDecision)
        → classify_source_position_update current.position row.position ≡ ok c
        → is_newer (ok c) ≡ false
        → publish_at at m key row ≡ (ok false, m)
    unfolding publish_at publish_existing
    publish_at-old newer h old = cc
    publish_at-old stale h old =
        rw (e, publish_at) (rw (held, h, publish_existing) (ap (λ t. (ok false, t)) unchanged))
    publish_at-old idempotent h old =
        rw (e, publish_at) (rw (held, h, publish_existing) (ap (λ t. (ok false, t)) unchanged))

    publish_at-error :
        (s : Status)
        → classify_source_position_update current.position row.position ≡ error s
        → publish_at at m key row ≡ (fail s, m)
    unfolding publish_at publish_existing
    publish_at-error s h =
        rw (e, publish_at) (rw (held, h, publish_existing) (ap (λ t. (fail s, t)) unchanged))

    abbrev decision : StatusOr SourcePositionUpdateDecision
    decision = classify_source_position_update current.position row.position

    compares :
        (d : SourcePositionUpdateDecision)
        → decision ≡ ok d
        → (now : RealtimeRowRef) → view m key ≡ some now
        → (d : SourcePositionUpdateDecision) × (classify_source_position_update now.position
              row.position
            ≡ ok d)
    compares d h now shown =
        let same : current ≡ now = cc (shown, visible current e held) in
        (
          d,
          subst
              (λ (t : RealtimeRowRef).
                classify_source_position_update t.position row.position ≡ ok d)
              same h,
        )

    replace_newer : decision ≡ ok newer → Published m key row (publish_at at m key row)
    unfolding newest
    replace_newer c =
        let new : Slot = record slot { latest_row = some row } in
        let count = m.unique_key_count in
        let inv : Inv (write m at new count) =
          keep-Inv m v at fits new count refl refl (λ _. (row, refl, own ∙ sym same_key, valid)) in
        rw (publish_at-newer c) (record {
          inv = inv;
          outcome = inl (record {
            comparable = λ now shown. compares newer c now shown;
            result = ground (arith, visible current e held);
            views = λ j. elim (eq-cases j key) [
              | inl same ↦ ground (
                arith,
                visible current e held,
                view-written m v at fits new count inv j row (ground (arith, same_key)) refl,
              )
              | inr other ↦
                  let gone : holds slot j ≡ false = ground (arith, same_key) in
                  ground (arith, view-other m v at fits new count inv j gone gone)
            ];
          });
        })

    replace_old :
        (c : SourcePositionUpdateDecision)
        → decision ≡ ok c
        → is_newer (ok c) ≡ false
        → Published m key row (publish_at at m key row)
    unfolding newest
    replace_old c d old = rw (publish_at-old c d old) (record {
      inv = v;
      outcome = inl (record {
        comparable = λ now shown. compares c d now shown;
        result = ground (arith, visible current e held);
        views = λ j. ground (arith, visible current e held);
      });
    })

    replace_error :
        (s : Status) → decision ≡ error s → Published m key row (publish_at at m key row)
    replace_error s d = rw (publish_at-error s d) (record {
      inv = v;
      outcome = inr (s, refl, incomparable current s (visible current e held) d);
    })

    replace : Published m key row (publish_at at m key row)
    replace = elim (decision-cases decision) [
      | inl (inl yes_newer) ↦ replace_newer yes_newer
      | inl (inr (c, d, old)) ↦ replace_old c d old
      | inr (s, d) ↦ replace_error s d
    ]

  publish_reserved :
      (slot_at m.slots at).state ≡ reserved → Published m key row (publish_at at m key row)
  unfolding publish_at
  publish_reserved e =
      rw (e, publish_at) (record { inv = v; outcome = inr (_, refl, slot_reserved p stop e) })

  pub publish_stopped : Published m key row (publish_at at m key row)
  publish_stopped = elim (state-cases (slot_at m.slots at).state) [
    | inl e ↦ publish_empty e
    | inr (inl e) ↦ publish_reserved e
    | inr (inr e) ↦ let r = v.rows at (ap is_occupied e) in replace r.0 e r.1
  ]
