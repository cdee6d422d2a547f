-- ===== src/Store/RealtimeMap/Publish/Rule.antt =====
-- The rule by which a publication changes the map of keys to rows, and what a write to one slot does
-- to that map.
use kv_index.Prelude.{
  ℕ, ◌<◌, ◌≡◌, ◌≢◌, sym, ap, ◌∙◌, Bool, true, false, Option, none, some, ◌==◌, arith, inl, inr, ◌⊎◌,
  Option-cases, if◌then◌else◌, length,
}
use kv_index.Prelude.Scan.{AllPass}
use kv_index.Status.{StatusOr, ok, error, Status, fail, unavailable}
use kv_index.Types.{SourcePositionUpdateDecision, newer, classify_source_position_update}
use kv_index.Store.RealtimeMap.{
  RealtimeRowRef, Slot, SlotState, empty, reserved, occupied, slot_at, RealtimeAtomicHashMap,
  probe_index, exhausted,
}
use kv_index.Store.RealtimeMap.Scan.{holds, passes_at}
use kv_index.Store.RealtimeMap.Update.{slot_at-set_self, slot_at-set_ne}
use kv_index.Store.RealtimeMap.Invariant.{Inv, found, write}
use kv_index.Store.RealtimeMap.View.{view, view-of-holds, holds-of-view}

-- The rule of the map: a row is published unless the key has one that it does not supersede.
abbrev pub is_newer : StatusOr SourcePositionUpdateDecision → Bool
is_newer (ok newer) = true
is_newer _ = false

pub is_newer_lem : (c : StatusOr SourcePositionUpdateDecision) → is_newer c ≡ true → c ≡ ok newer
is_newer_lem c h = ground arith

unfoldable pub supersedes : Option RealtimeRowRef → RealtimeRowRef → Bool
supersedes none row = true
supersedes (some current) row =
    is_newer (classify_source_position_update current.position row.position)

unfoldable pub newest : Option RealtimeRowRef → RealtimeRowRef → Option RealtimeRowRef
unfolding supersedes
newest current row = if supersedes current row then some row else current

-- A write to one slot, before and after which the invariant holds, changes no key but those of the
-- slot.
module _ (m : RealtimeAtomicHashMap) (v : Inv m) (i : ℕ) (fits : i < m.capacity) (new : Slot)
    (count : ℕ) (v' : Inv (write m i new count)) where
  abbrev after : RealtimeAtomicHashMap
  after = write m i new count

  inside : i < length m.slots
  inside = omega (arith, v.sized)

  pub view-other :
      (j : ℕ) → holds (slot_at m.slots i) j ≡ false → holds new j ≡ false → view after j ≡ view m j
  view-other j old gone = elim (Option-cases (view m j)) [
    | inr (row, e) ↦
        let h = holds-of-view m j v row e in
        let far : i ≢ h.0 = λ c. cc (old, h.1, ap (λ (t : ℕ). holds (slot_at m.slots t) j) c) in
        let at = slot_at-set_ne m.slots i new inside h.0 far in
        view-of-holds after j v' h.0 row (rw at h.1) (rw at h.2) ∙ sym e
    | inl e ↦ elim (Option-cases (view after j)) [
      | inl e' ↦ e' ∙ sym e
      | inr (row, e') ↦
          let h = holds-of-view after j v' row e' in
          let far : i ≢ h.0 = λ c. cc (
            gone,
            h.1,
            ap (λ (t : ℕ). holds (slot_at after.slots t) j) c,
            ap (λ s. holds s j) (slot_at-set_self m.slots i new inside),
          ) in
          let at = slot_at-set_ne m.slots i new inside h.0 far in
          absurd (ground (arith, e, view-of-holds m j v h.0 row (rw at at h.1) (rw at at h.2)))
    ]
  ]

  pub view-written :
      (j : ℕ) (row : RealtimeRowRef)
      → holds new j ≡ true
      → new.latest_row ≡ some row
      → view after j ≡ some row
  view-written j row h e =
      let at = slot_at-set_self m.slots i new inside in
      view-of-holds after j v' i row (ap (λ s. holds s j) at ∙ h) (ap (λ s. s.latest_row) at ∙ e)

pub state-cases : (s : SlotState) → (s ≡ empty) ⊎ ((s ≡ reserved) ⊎ (s ≡ occupied))
state-cases s = ground arith

-- Why a publication is refused, with the status that it returns.
pub data WhyRefused (m : RealtimeAtomicHashMap) (key : ℕ) (row : RealtimeRowRef)
    : Status → Type 0 where
  full :
      AllPass (passes_at (probe_index m key) m.slots key) m.capacity 0
      → WhyRefused m key row exhausted
  slot_reserved :
      (p : ℕ)
      → found m key ≡ some p
      → (slot_at m.slots (probe_index m key p)).state ≡ reserved
      → WhyRefused m key row (unavailable "realtime hash map slot is reserved")
  incomparable :
      (current : RealtimeRowRef) (s : Status)
      → view m key ≡ some current
      → classify_source_position_update current.position row.position ≡ error s
      → WhyRefused m key row s

-- An accepted publication has a position that compares with that of the key's row, and reports whether
-- the row supersedes it; the key then has the newest of the two, and every other key the row it had.
pub record Accepted (m : RealtimeAtomicHashMap) (key : ℕ) (row : RealtimeRowRef)
    (r : StatusOr Bool × RealtimeAtomicHashMap) : Type 0 where
  pub comparable :
      (current : RealtimeRowRef)
      → view m key ≡ some current
      → (d : SourcePositionUpdateDecision) × (classify_source_position_update current.position
            row.position
          ≡ ok d)
  pub result : r.0 ≡ ok (supersedes (view m key) row)
  pub views : (j : ℕ) → view r.1 j ≡ (if j == key then newest (view m key) row else view m j)

-- A refused one returns the reason's status and leaves the table as it was.
abbrev pub Refused :
    RealtimeAtomicHashMap → ℕ → RealtimeRowRef → StatusOr Bool × RealtimeAtomicHashMap → Type 0
Refused m key row r = (s : Status) × (r ≡ (fail s, m)) × WhyRefused m key row s

-- What a publication does: the table keeps the invariant, and the row is accepted or refused.
pub record Published (m : RealtimeAtomicHashMap) (key : ℕ) (row : RealtimeRowRef)
    (r : StatusOr Bool × RealtimeAtomicHashMap) : Type 0 where
  pub inv : Inv r.1
  pub outcome : Accepted m key row r ⊎ Refused m key row r
