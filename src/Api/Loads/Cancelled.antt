-- ===== src/Api/Loads/Cancelled.antt =====
-- A cancelled load stays cancelled, whatever its worker stores.
use kv_index.Prelude.{
  ℕ, ◌≡◌, refl, ap, true, false, Option, some, List, arith, eq-cases, inl, inr, Option-cases,
  Bool-cases,
}
use kv_index.Prelude.Assoc.{find, assign, find-assign_self, find-assign_ne, find-emplace_old}
use kv_index.Api.Loads.{
  LoadRequest, LoadState, Loads, running, failed, is_cancelled_code, load_state, mark_cancelled,
  FileKind, preflight_local_artifact_uri, load_async, store_state, finish_worker, get_load_state,
  cancel_load,
}
use kv_index.Api.Loads.Steps.{Step, Steps, starts, stores, ends, cancels, done, next, is_storable}

-- `GetLoadState` shows a cancelled load.
abbrev pub IsCancelled : Loads → ℕ → Type 0
IsCancelled members id =
    (is_cancelled_code (get_load_state members id).code ≡ true)
    × ((get_load_state members id).terminal ≡ true)

module _ (members : Loads) (id : ℕ) where
  -- A cancelled load is in the map.
  in_map :
      IsCancelled members id
      → (s : LoadState) × (find id members.loads ≡ some s)
        × (is_cancelled_code s.code ≡ true)
        × (s.terminal ≡ true)
  unfolding get_load_state
  in_map h = elim (Option-cases (find id members.loads)) [
    | inl missing ↦ absurd (ground arith)
    | inr (s, e) ↦ (s, e, ground arith, ground arith)
  ]

  of_map :
      (s : LoadState)
      → find id members.loads ≡ some s
      → is_cancelled_code s.code ≡ true
      → s.terminal ≡ true
      → IsCancelled members id
  unfolding get_load_state
  of_map s e c t = (ground arith, ground arith)

store_state-IsCancelled :
    (members : Loads) (id j : ℕ) (state : LoadState)
    → is_storable state ≡ true
    → IsCancelled members j
    → IsCancelled (store_state members id state) j
unfolding store_state
store_state-IsCancelled members id j state storable h =
    let (s, e, c, t) = in_map members j h in
    elim (Option-cases (find id members.loads)) [
      | inl missing ↦ of_map (store_state members id state) j s (ground arith) c t
      | inr (old, found) ↦ elim (eq-cases id j) [
        | inl same ↦ elim (Bool-cases (is_cancelled_code state.code)) [
          | inl by_worker ↦
              of_map (store_state members id state) j state
                (ground (
                  arith,
                  ap (λ (k : ℕ). find k (assign id state members.loads)) same,
                  find-assign_self id state old members.loads found,
                ))
                by_worker (ground arith)
          | inr late ↦
              of_map (store_state members id state) j (mark_cancelled state)
                (ground (
                  arith,
                  ap (λ (k : ℕ). find k members.loads) same,
                  ap (λ (k : ℕ). find k (assign id (mark_cancelled state) members.loads)) same,
                  find-assign_self id (mark_cancelled state) old members.loads found,
                ))
                refl refl
        ]
        | inr different ↦
            of_map (store_state members id state) j s
              (ground (
                arith,
                find-assign_ne id j state members.loads different,
                find-assign_ne id j (mark_cancelled state) members.loads different,
              ))
              c t
      ]
    ]

load_async-IsCancelled :
    (stat : List ℕ → Option FileKind) (members : Loads) (request : LoadRequest) (j : ℕ)
    → IsCancelled members j
    → IsCancelled (load_async stat members request).1 j
unfolding load_async
load_async-IsCancelled stat members request j h =
    let (s, e, c, t) = in_map members j h in
    let id = members.next_load_id in
    let preflight = preflight_local_artifact_uri stat request in
    of_map (load_async stat members request).1 j s
      (ground (
        arith,
        find-emplace_old id j
            (load_state id failed true request preflight.message preflight.message) s members.loads
            e,
        find-emplace_old id j (load_state id running false request "" "") s members.loads e,
      ))
      c t

cancel_load-IsCancelled :
    (members : Loads) (id j : ℕ) → IsCancelled members j → IsCancelled (cancel_load members id).1 j
unfolding cancel_load
cancel_load-IsCancelled members id j h =
    let (s, e, c, t) = in_map members j h in
    elim (Option-cases (find id members.loads)) [
      | inl missing ↦ of_map (cancel_load members id).1 j s (ground arith) c t
      | inr (old, found) ↦ elim (eq-cases id j) [
        | inl same ↦
            of_map (cancel_load members id).1 j s
              (ground (arith, ap (λ (k : ℕ). find k members.loads) same)) c t
        | inr different ↦
            of_map (cancel_load members id).1 j s
              (ground (arith, find-assign_ne id j (mark_cancelled old) members.loads different)) c t
      ]
    ]

move-IsCancelled :
    (stat : List ℕ → Option FileKind) (before after : Loads) (j : ℕ)
    → Step stat before after
    → IsCancelled before j
    → IsCancelled after j
unfolding finish_worker get_load_state
move-IsCancelled stat before _ j (starts _ request) h =
    load_async-IsCancelled stat before request j h
move-IsCancelled stat before _ j (stores _ id state storable) h =
    store_state-IsCancelled before id j state storable h
move-IsCancelled stat before _ j (ends _ id) h = h
move-IsCancelled stat before _ j (cancels _ id) h = cancel_load-IsCancelled before id j h

-- A load that `GetLoadState` shows as cancelled and terminal, it shows so after any calls of
-- `LoadAsync` and `CancelLoad`, and whatever states the workers store, as long as the cancelled ones
-- among those are terminal.
pub steps-IsCancelled :
    (stat : List ℕ → Option FileKind) (before after : Loads) (id : ℕ)
    → Steps stat before after
    → IsCancelled before id
    → IsCancelled after id
steps-IsCancelled stat before _ id (done _) h = h
steps-IsCancelled stat before after id (next _ between _ step rest) h =
    steps-IsCancelled stat between after id rest (move-IsCancelled stat before between id step h)
