-- ===== src/Model/Write/Slot.antt =====
-- A write to a field's place in the row slot (src/model/row_storage.cc): the field is present, and what
-- the other fields of the slot have there is kept.
use kv_index.Prelude.{
  ℕ, ◌+◌, ◌/◌, ◌%◌, ◌^◌, ◌≤◌, ◌<◌, bit_and, bit_or, true, ◌||◌, ◌≡◌, ◌≢◌, refl, sym, ap, ◌∙◌, ◌⊎◌,
  inl, inr, arith, List, length, get_or, set, length-set, get_or-set_self, get_or-set_ne, eq-cases,
  subst,
}
use kv_index.Base.Bits.Single.{bit_and-bit_or_self, bit_and-bit_or_ne, pow_ne_zero}
use kv_index.Status.{ok_status, is_ok}
use kv_index.Schema.{is_string}
use kv_index.Schema.Layout.{FieldLayout}
use kv_index.Schema.Layout.Placement.{AreApart, HasWidth}
use kv_index.Model.EncodedRow.{EncodedRow}
use kv_index.Model.Row.{field_present}
use kv_index.Model.Write.{finish_write}
use kv_index.Model.Frame.{KeepsSlot}

-- What `Compile` gives a field: its width, and whether it stands behind a reference.
pub record IsField (f : FieldLayout) : Type 0 where
  pub width : HasWidth f
  pub by_ref : f.uses_ref ≡ (f.is_list || is_string f.type)
  pub bit_before : f.presence_bit_index / 8 < f.slot_offset

-- Two fields of a layout that share neither a byte nor a bit.
pub record Separate (f g : FieldLayout) : Type 0 where
  pub apart : AreApart f g
  pub own_bits : f.presence_bit_index ≢ g.presence_bit_index
  pub bit_before : f.presence_bit_index / 8 < g.slot_offset
  pub other_bit_before : g.presence_bit_index / 8 < f.slot_offset

-- The row `r` is `e` with the field's bytes of `slot` and its presence bit.
pub record Wrote (f : FieldLayout) (e r : EncodedRow) (slot : List ℕ) : Type 0 where
  pub slot_only : r ≡ record e { row_slot = r.row_slot }
  pub same_length : length r.row_slot ≡ length e.row_slot
  pub own_bytes :
      (j : ℕ)
      → f.slot_offset ≤ j
      → j < f.slot_offset + f.value_width
      → get_or r.row_slot j 0 ≡ get_or slot j 0
  pub present : field_present f r ≡ true
  pub others : (g : FieldLayout) → Separate f g → KeepsSlot g e r

-- The presence bit, set in a slot.
abbrev with_bit : FieldLayout → List ℕ → List ℕ
with_bit f slot =
    set slot (f.presence_bit_index / 8)
      (bit_or (get_or slot (f.presence_bit_index / 8) 0) (2 ^ (f.presence_bit_index % 8)))

module _ (f : FieldLayout) (e : EncodedRow) (slot : List ℕ) where
  finish_write-out :
      is_ok (finish_write f e (ok_status, slot)).0 ≡ true
      → (f.presence_bit_index / 8 < length slot)
        × ((finish_write f e (ok_status, slot)).1 ≡ record e { row_slot = with_bit f slot })
  unfolding finish_write
  finish_write-out h = ground arith

  with_bit-present :
      f.presence_bit_index / 8 < length slot
      → field_present f (record e { row_slot = with_bit f slot }) ≡ true
  unfolding field_present
  with_bit-present inside =
      let k : ℕ = f.presence_bit_index % 8 in
      let i : ℕ = f.presence_bit_index / 8 in
      ground (
        arith,
        length-set slot i (bit_or (get_or slot i 0) (2 ^ k)),
        get_or-set_self slot i (bit_or (get_or slot i 0) (2 ^ k)) 0 inside,
        bit_and-bit_or_self k (get_or slot i 0),
        pow_ne_zero k,
      )

  -- A bit of another field is as it was in the slot.
  with_bit-bit :
      (g : FieldLayout)
      → f.presence_bit_index / 8 < length slot
      → f.presence_bit_index ≢ g.presence_bit_index
      → bit_and
          (get_or (with_bit f slot) (g.presence_bit_index / 8) 0)
          (2 ^ (g.presence_bit_index % 8))
        ≡ bit_and (get_or slot (g.presence_bit_index / 8) 0) (2 ^ (g.presence_bit_index % 8))
  with_bit-bit g inside other =
      let i : ℕ = f.presence_bit_index / 8 in
      let v : ℕ = bit_or (get_or slot i 0) (2 ^ (f.presence_bit_index % 8)) in
      let m : ℕ = 2 ^ (g.presence_bit_index % 8) in
      elim (eq-cases i (g.presence_bit_index / 8)) [
        | inl same ↦
            ap (λ (t : ℕ). bit_and (get_or (set slot i v) t 0) m) (sym same)
            ∙ ap (λ (t : ℕ). bit_and t m) (get_or-set_self slot i v 0 inside)
            ∙ bit_and-bit_or_ne (f.presence_bit_index % 8) (g.presence_bit_index % 8)
                (get_or slot i 0) (λ e. other (omega arith))
            ∙ ap (λ (t : ℕ). bit_and (get_or slot t 0) m) same
        | inr ne ↦
            ap (λ (t : ℕ). bit_and t m) (get_or-set_ne slot i (g.presence_bit_index / 8) v 0 ne)
      ]

  with_bit-presence :
      (g : FieldLayout)
      → f.presence_bit_index / 8 < length slot
      → f.presence_bit_index ≢ g.presence_bit_index
      → field_present g (record e { row_slot = with_bit f slot })
        ≡ field_present g (record e { row_slot = slot })
  unfolding field_present
  with_bit-presence g inside other = rw (
    length-set slot (f.presence_bit_index / 8)
        (bit_or (get_or slot (f.presence_bit_index / 8) 0) (2 ^ (f.presence_bit_index % 8))),
    with_bit-bit g inside other,
  )

-- The presence of a field depends on the length of the slot and on its byte.
presence-eq :
    (g : FieldLayout) (e : EncodedRow) (slot : List ℕ)
    → length slot ≡ length e.row_slot
    → get_or slot (g.presence_bit_index / 8) 0 ≡ get_or e.row_slot (g.presence_bit_index / 8) 0
    → field_present g (record e { row_slot = slot }) ≡ field_present g e
unfolding field_present
presence-eq g e slot same byte = rw (same, byte)

-- A write to the field's bytes, and then its presence bit.
pub finish_write-Wrote :
    (f : FieldLayout) (e : EncodedRow) (slot : List ℕ)
    → IsField f
    → length slot ≡ length e.row_slot
    → ((j : ℕ)
        → (j < f.slot_offset) ⊎ (f.slot_offset + f.value_width ≤ j)
        → get_or slot j 0 ≡ get_or e.row_slot j 0)
    → is_ok (finish_write f e (ok_status, slot)).0 ≡ true
    → Wrote f e (finish_write f e (ok_status, slot)).1 slot
finish_write-Wrote f e slot field same outside done =
    let i : ℕ = f.presence_bit_index / 8 in
    let v : ℕ = bit_or (get_or slot i 0) (2 ^ (f.presence_bit_index % 8)) in
    let out = finish_write-out f e slot done in
    subst (λ r. Wrote f e r slot) (sym (out.1))
      (record {
        slot_only = refl;
        same_length = length-set slot i v ∙ same;
        own_bytes = λ j p q.
            get_or-set_ne slot i j v 0 (λ (c : i ≡ j). absurd (omega (arith, field.bit_before)));
        present = with_bit-present f e slot (out.0);
        others = λ g s. record {
          same_length = length-set slot i v ∙ same;
          same_bytes = λ j p q.
              get_or-set_ne slot i j v 0 (λ (c : i ≡ j). absurd (omega (arith, s.bit_before)))
              ∙ outside j (ground (arith, s.apart));
          same_presence =
              with_bit-presence f e slot g (out.0) s.own_bits
              ∙ presence-eq g e slot same (outside _ (inl s.other_bit_before));
        };
      })
