-- ===== src/Store/RealtimeMap/Invariant.antt =====
-- The invariant of `RealtimeAtomicHashMap`: a key that a slot holds is found by the probe loops, and
-- an occupied slot has a row of its key at a valid position.
use kv_index.Prelude.{
  ℕ, ◌<◌, ◌≡◌, ◌≢◌, refl, ap, ◌∙◌, true, false, Option, some, set, length, length-set,
  length-replicate, get_or-replicate, arith, eq-cases, inl, inr, subst,
}
use kv_index.Prelude.Scan.{scan, scan-StopsAt, scan_mono}
use kv_index.Types.{is_valid_source_position}
use kv_index.Store.RealtimeMap.{
  RealtimeRowRef, Slot, occupied, slot_at, empty_slot, RealtimeAtomicHashMap, init, probe_index,
}
use kv_index.Store.RealtimeMap.Scan.{is_occupied, holds, passes, passes_at}
use kv_index.Store.RealtimeMap.Update.{slot_at-set_self, slot_at-set_ne, scan-keep, passes_at-claim}

-- Where the loops of a key stop.
abbrev pub found : RealtimeAtomicHashMap → ℕ → Option ℕ
found m key = scan (passes_at (probe_index m key) m.slots key) m.capacity 0

abbrev pub HasRow : Slot → Type 0
HasRow slot =
    (row : RealtimeRowRef) × (slot.latest_row ≡ some row)
    × (row.primary_key ≡ slot.primary_key)
    × (is_valid_source_position row.position ≡ true)

abbrev pub Finds : RealtimeAtomicHashMap → ℕ → ℕ → Type 0
Finds m i key = (p : ℕ) × (found m key ≡ some p) × (probe_index m key p ≡ i)

pub record Inv (m : RealtimeAtomicHashMap) : Type 0 where
  pub sized : length m.slots ≡ m.capacity
  pub reach : (i key : ℕ) → holds (slot_at m.slots i) key ≡ true → Finds m i key
  pub rows : (i : ℕ) → is_occupied (slot_at m.slots i).state ≡ true → HasRow (slot_at m.slots i)

-- A new table has the invariant.
pub init-Inv : (capacity seed version : ℕ) → Inv (init capacity seed version)
unfolding init
init-Inv capacity seed version = record {
  sized = length-replicate capacity empty_slot;
  reach = λ i key h. absurd (ground (arith, get_or-replicate capacity i empty_slot));
  rows = λ i h. absurd (ground (arith, get_or-replicate capacity i empty_slot));
}

-- The table after a write to one slot.
abbrev pub write : RealtimeAtomicHashMap → ℕ → Slot → ℕ → RealtimeAtomicHashMap
write m i new count = record m { slots = set m.slots i new; unique_key_count = count }

module _ (m : RealtimeAtomicHashMap) (v : Inv m) (i : ℕ) (fits : i < m.capacity) (new : Slot)
    (count : ℕ) where
  abbrev written : RealtimeAtomicHashMap
  written = write m i new count

  in_table : i < length m.slots
  in_table = omega (arith, v.sized)

  -- `ProbeIndex` reads no slot.
  probe_index-written : (key p : ℕ) → probe_index written key p ≡ probe_index m key p
  unfolding probe_index
  probe_index-written key p = refl

  -- A statement about the slots of the written table, from the new slot and the other old ones.
  slot_cases :
      (P : ℕ → Slot → Type 0)
      → P i new
      → ((j : ℕ) → i ≢ j → P j (slot_at m.slots j))
      → (j : ℕ) → P j (slot_at written.slots j)
  slot_cases P here others j = elim (eq-cases i j) [
    | inl same ↦
        subst (λ t. P t (slot_at written.slots t)) same
          (rw (slot_at-set_self m.slots i new in_table) here)
    | inr other ↦ rw (slot_at-set_ne m.slots i new in_table j other) (others j other)
  ]

  -- A write that keeps state and key, and gives an occupied slot a row, keeps the invariant.
  module _ (state : new.state ≡ (slot_at m.slots i).state)
      (key : new.primary_key ≡ (slot_at m.slots i).primary_key) where
    pub found_keep : (k : ℕ) → found written k ≡ found m k
    unfolding probe_index
    found_keep k = scan-keep m.slots i new in_table state key (probe_index m k) k m.capacity 0

    pub keep-Inv : (is_occupied new.state ≡ true → HasRow new) → Inv written
    unfolding probe_index
    keep-Inv row = record {
      sized = length-set m.slots i new ∙ v.sized;
      reach = λ j k.
          slot_cases (λ t s. holds s k ≡ true → Finds written t k)
            (λ h. old i k (ap (λ s. s) (rw (← state, ← key) h))) (λ t _ h. old t k h) j;
      rows = slot_cases (λ t s. is_occupied s.state ≡ true → HasRow s) row (λ t _. v.rows t);
    }
      where
        old : (t k : ℕ) → holds (slot_at m.slots t) k ≡ true → Finds written t k
        old t k h = let f = v.reach t k h in (f.0, found_keep k ∙ f.1, f.2)

  -- A write to a slot that is not occupied moves no scan that stops at another slot.
  module _ (free : is_occupied (slot_at m.slots i).state ≡ false) where
    found_mono :
        (j q : ℕ)
        → found m j ≡ some q
        → passes (slot_at written.slots (probe_index m j q)) j ≡ false
        → found written j ≡ some q
    unfolding probe_index
    found_mono j q e stops =
        scan_mono (passes_at (probe_index m j) m.slots j)
          (passes_at (probe_index m j) written.slots j) m.capacity 0 q e
          (passes_at-claim m.slots i new in_table free (probe_index m j) j) stops

    pub found_other :
        (j q : ℕ) → found m j ≡ some q → i ≢ probe_index m j q → found written j ≡ some q
    found_other j q e far = found_mono j q e (
        ap (λ s. passes s j) (slot_at-set_ne m.slots i new in_table (probe_index m j q) far)
        ∙ (scan-StopsAt _ m.capacity 0 q e).at)

    pub other-reach : (t l : ℕ) → i ≢ t → holds (slot_at m.slots t) l ≡ true → Finds written t l
    unfolding probe_index
    other-reach t l ne h =
        let f = v.reach t l h in (f.0, found_other l f.0 f.1 (λ c. ne (c ∙ f.2)), f.2)

    -- Where the scan of the written key stopped there, the invariant is kept.
    module _ (k p : ℕ) (stop : found m k ≡ some p) (there : probe_index m k p ≡ i)
        (taken : new.state ≡ occupied) (key : new.primary_key ≡ k) where
      pub found_self : found written k ≡ some p
      found_self =
          found_mono k p stop
            (rw (there, slot_at-set_self m.slots i new in_table, taken, key) (ground arith))

      pub claim-Inv : HasRow new → Inv written
      unfolding probe_index
      claim-Inv row = record {
        sized = length-set m.slots i new ∙ v.sized;
        reach = λ j l.
            slot_cases (λ t s. holds s l ≡ true → Finds written t l)
              (λ h. subst (Finds written i) (ground arith) (p, found_self, there))
              (λ t ne h. other-reach t l ne h) j;
        rows =
            slot_cases (λ t s. is_occupied s.state ≡ true → HasRow s) (λ _. row) (λ t _. v.rows t);
      }

    -- So is it by a write that leaves the slot free.
    pub free-Inv : is_occupied new.state ≡ false → Inv written
    free-Inv still = record {
      sized = length-set m.slots i new ∙ v.sized;
      reach = λ j l.
          slot_cases (λ t s. holds s l ≡ true → Finds written t l) (λ h. absurd (ground arith))
            (λ t ne h. other-reach t l ne h) j;
      rows =
          slot_cases (λ t s. is_occupied s.state ≡ true → HasRow s) (λ h. absurd (ground arith))
            (λ t _. v.rows t);
    }
