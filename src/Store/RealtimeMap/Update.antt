-- ===== src/Store/RealtimeMap/Update.antt =====
-- What a write to one slot does to the scans of every key.
use kv_index.Prelude.{
  ℕ, ◌<◌, ◌≡◌, ◌≢◌, ap, ◌∙◌, true, false, List, set, length, arith, eq-cases, inl, inr,
  get_or-set_self, get_or-set_ne,
}
use mathlib.Core.Path.{fun_ext}
use kv_index.Prelude.Scan.{scan}
use kv_index.Store.RealtimeMap.{Slot, slot_at, empty_slot}
use kv_index.Store.RealtimeMap.Scan.{is_occupied, passes, passes_at}

module _ (slots : List Slot) (i : ℕ) (new : Slot) (fits : i < length slots) where
  pub slot_at-set_self : slot_at (set slots i new) i ≡ new
  slot_at-set_self = get_or-set_self slots i new empty_slot fits

  pub slot_at-set_ne : (j : ℕ) → i ≢ j → slot_at (set slots i new) j ≡ slot_at slots j
  slot_at-set_ne j h = get_or-set_ne slots i j new empty_slot h

  -- A slot that keeps its state and key leaves every scan as it was.
  module _ (state : new.state ≡ (slot_at slots i).state)
      (key : new.primary_key ≡ (slot_at slots i).primary_key) where
    passes_at-keep :
        (index : ℕ → ℕ) (j q : ℕ)
        → passes_at index (set slots i new) j q ≡ passes_at index slots j q
    passes_at-keep index j q = elim (eq-cases i (index q)) [
      | inl same ↦ rw (← same, slot_at-set_self, state, key)
      | inr other ↦ ap (λ s. passes s j) (slot_at-set_ne (index q) other)
    ]

    pub scan-keep :
        (index : ℕ → ℕ) (j left start : ℕ)
        → scan (passes_at index (set slots i new) j) left start
          ≡ scan (passes_at index slots j) left start
    scan-keep index j left start = ap (λ f. scan f left start) (fun_ext (passes_at-keep index j))

  -- A write to a slot that is not occupied lets a scan go on where it went on before.
  module _ (free : is_occupied (slot_at slots i).state ≡ false) where
    pub passes_at-claim :
        (index : ℕ → ℕ) (j q : ℕ)
        → passes_at index slots j q ≡ true
        → passes_at index (set slots i new) j q ≡ true
    passes_at-claim index j q h = elim (eq-cases i (index q)) [
      | inl same ↦ absurd (ground (arith, ap (λ (t : ℕ). is_occupied (slot_at slots t).state) same))
      | inr other ↦ ap (λ s. passes s j) (slot_at-set_ne (index q) other) ∙ h
    ]
