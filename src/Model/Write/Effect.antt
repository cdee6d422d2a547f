-- ===== src/Model/Write/Effect.antt =====
-- What a writer of one field (src/model/row_storage.cc) leaves as it was.
use kv_index.Prelude.{ℕ, ◌≡◌, sym, ap, ◌∙◌, List, length, get_or, subst}
use kv_index.Prelude.Bytes.{Extends-refl}
use kv_index.Schema.Layout.{FieldLayout}
use kv_index.Model.EncodedRow.{EncodedRow}
use kv_index.Model.Row.{field_present}
use kv_index.Model.Write.Slot.{Separate, Wrote}
use kv_index.Model.Frame.{Grows, KeepsSlot}

-- What a writer of the field leaves as it was.
pub record Frames (f : FieldLayout) (e r : EncodedRow) : Type 0 where
  pub grows : Grows e r
  pub others : (g : FieldLayout) → Separate f g → KeepsSlot g e r

pub Grows-refl : (e : EncodedRow) → Grows e e
Grows-refl e = record {
  arena_grows = Extends-refl e.arena;
  strings = λ i v h. h;
  scalar_lists = λ i v h. h;
  string_lists = λ i v h. h;
  elements = λ i v h. h;
}

presence-same :
    (g : FieldLayout) (a b : EncodedRow)
    → b.row_slot ≡ a.row_slot
    → field_present g b ≡ field_present g a
unfolding field_present
presence-same g a b same = rw same

-- A writer that first adds to the arena or to a dictionary.
pub Wrote-Frames :
    (f : FieldLayout) (e e' r : EncodedRow) (slot : List ℕ)
    → Grows e e'
    → e'.row_slot ≡ e.row_slot
    → Wrote f e' r slot
    → Frames f e r
Wrote-Frames f e e' r slot grows same wrote = record {
  grows = subst (Grows e) (sym wrote.slot_only) (record {
    arena_grows = grows.arena_grows;
    strings = grows.strings;
    scalar_lists = grows.scalar_lists;
    string_lists = grows.string_lists;
    elements = grows.elements;
  });
  others = λ g s.
      let k = wrote.others g s in
      record {
        same_length = k.same_length ∙ ap length same;
        same_bytes = λ j p q. k.same_bytes j p q ∙ ap (λ (t : List ℕ). get_or t j 0) same;
        same_presence = k.same_presence ∙ presence-same g e e' same;
      };
}
