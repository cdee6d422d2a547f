-- ===== src/Api/Loads/Steps.antt =====
-- The steps on the states of loads, and what each does to one state.
use kv_index.Prelude.{ℕ, ◌≡◌, Bool, true, not, ◌||◌, Option, List}
use kv_index.Api.Loads.{
  LoadRequest, LoadState, Loads, is_cancelled_code, FileKind, load_async, store_state,
  finish_worker, cancel_load,
}

-- A state that a worker may store: `MarkCancelled` alone sets the code of a cancelled load, and it
-- sets `terminal` too.
abbrev pub is_storable : LoadState → Bool
is_storable state = not (is_cancelled_code state.code) || state.terminal

pub data Step (stat : List ℕ → Option FileKind) : Loads → Loads → Type 0 where
  starts :
      (members : Loads) (request : LoadRequest)
      → Step stat members (load_async stat members request).1
  stores :
      (members : Loads) (id : ℕ) (state : LoadState)
      → is_storable state ≡ true
      → Step stat members (store_state members id state)
  ends : (members : Loads) (id : ℕ) → Step stat members (finish_worker members id)
  cancels : (members : Loads) (id : ℕ) → Step stat members (cancel_load members id).1

pub data Steps (stat : List ℕ → Option FileKind) : Loads → Loads → Type 0 where
  done : (members : Loads) → Steps stat members members
  next :
      (before between after : Loads)
      → Step stat before between
      → Steps stat between after
      → Steps stat before after
