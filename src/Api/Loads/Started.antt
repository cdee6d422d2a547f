-- ===== src/Api/Loads/Started.antt =====
-- What `LoadAsync` and `CancelLoad` do to the states that `GetLoadState` shows.
use kv_index.Prelude.{
  ℕ, ◌+◌, ◌<◌, ◌≤◌, ◌^◌, ◌≡◌, ◌≢◌, refl, ap, ◌∙◌, Bool, true, false, not, if◌then◌else◌, Option,
  none, some, List, [], ◌∷◌, arith, inl, inr, Option-cases, Bool-cases,
}
use kv_index.Status.{is_ok}
use kv_index.Prelude.Assoc.{
  find, emplace, assign, find-assign_self, find-assign_ne, find-emplace_new, find-emplace_ne,
}
use kv_index.Api.Loads.{
  LoadRequest, LoadState, Loads, running, failed, load_state, mark_cancelled, FileKind,
  preflight_local_artifact_uri, load_async, get_load_state, cancel_load,
}

-- No load has an identifier that is still to be given out.
abbrev pub AreOld : Loads → Type 0
AreOld members = (id : ℕ) → members.next_load_id ≤ id → find id members.loads ≡ none

-- What a call of `LoadAsync` leaves: a new load, running or failed as the request's path allows, and
-- the other loads as they were.
pub record Started (stat : List ℕ → Option FileKind) (members : Loads) (request : LoadRequest)
    (result : ℕ × Loads) : Type 0 where
  pub new_id : find result.0 members.loads ≡ none
  pub old : AreOld result.1
  pub code :
      (get_load_state result.1 result.0).code
      ≡ (if is_ok (preflight_local_artifact_uri stat request) then running else failed)
  pub terminal :
      (get_load_state result.1 result.0).terminal
      ≡ not (is_ok (preflight_local_artifact_uri stat request))
  pub others : (id : ℕ) → result.0 ≢ id → get_load_state result.1 id ≡ get_load_state members id

module _ (stat : List ℕ → Option FileKind) (members : Loads) (request : LoadRequest)
    (old : AreOld members) (room : members.next_load_id + 1 < 2 ^ 64) where
  abbrev new : ℕ
  new = members.next_load_id

  abbrev after : Loads
  after = (load_async stat members request).1

  -- The state that the new load has.
  new_state :
      (s : LoadState) × (after.loads ≡ emplace new s members.loads)
      × (s.code ≡ (if is_ok (preflight_local_artifact_uri stat request) then running else failed))
      × (s.terminal ≡ not (is_ok (preflight_local_artifact_uri stat request)))
  unfolding load_async
  new_state = elim (Bool-cases (is_ok (preflight_local_artifact_uri stat request))) [
    | inl fine ↦
        (load_state new running false request "" "", ground arith, ground arith, ground arith)
    | inr bad ↦
        let text = (preflight_local_artifact_uri stat request).message in
        (load_state new failed true request text text, ground arith, ground arith, ground arith)
  ]

  ids : ((load_async stat members request).0 ≡ new) × (after.next_load_id ≡ new + 1)
  unfolding load_async
  ids = (ground arith, ground arith)

  found_new : find new after.loads ≡ some (new_state.0)
  found_new =
      ap (find new) (new_state.1)
      ∙ find-emplace_new new (new_state.0) members.loads (old new (omega arith))

  found_other : (j : ℕ) → new ≢ j → find j after.loads ≡ find j members.loads
  found_other j h = ap (find j) (new_state.1) ∙ find-emplace_ne new j (new_state.0) members.loads h

  -- Where the identifiers do not run out, `LoadAsync` gives a load a new one; `GetLoadState` then
  -- shows it as running, or as failed and terminal if the path of the request is not a file's or a
  -- directory's, and shows every other load as before.
  pub load_async-Started : Started stat members request (load_async stat members request)
  unfolding get_load_state
  load_async-Started = rw (ids.0) (record {
    new_id = ground (arith, ids.0, old new (omega arith));
    old =
        λ j h. found_other j (λ e. absurd (omega (arith, ids.1, e))) ∙ old j (omega (arith, ids.1));
    code = ground (arith, ids.0, found_new, new_state.2);
    terminal = ground (arith, ids.0, found_new, new_state.3);
    others = λ j h. ground (arith, found_other j h);
  })

-- What a call of `CancelLoad` leaves.
pub record CancelsLoad (members : Loads) (id : ℕ) (result : Bool × Loads) : Type 0 where
  pub accepts : result.0 ≡ not (get_load_state members id).terminal
  pub state :
      get_load_state result.1 id
      ≡ (if result.0 then mark_cancelled (get_load_state members id) else get_load_state members id)
  pub flag : find id result.1.load_cancellations ≡ (
      if result.0
      then (elim (find id members.load_cancellations) [ none ↦ none | some b ↦ some true ])
      else find id members.load_cancellations)
  pub others : (j : ℕ) → id ≢ j → get_load_state result.1 j ≡ get_load_state members j

assign-missing :
    (key : ℕ) (b : Bool) (xs : List (ℕ × Bool))
    → find key xs ≡ none
    → find key (assign key b xs) ≡ none
unfolding find assign
assign-missing key b [] h = refl
assign-missing key b (x ∷ xs) h = ground (arith, assign-missing key b xs)

-- `CancelLoad` accepts exactly a load that is not terminal. It marks that load as cancelled and
-- terminal, sets the flag that its worker reads, and leaves the other loads as they were; if it does
-- not accept, it changes nothing that is shown of the load.
pub cancel_load-CancelsLoad :
    (members : Loads) (id : ℕ) → CancelsLoad members id (cancel_load members id)
unfolding cancel_load get_load_state
cancel_load-CancelsLoad members id = elim (Option-cases (find id members.loads)) [
  | inl missing ↦ record {
    accepts = ground arith;
    state = ground arith;
    flag = ground arith;
    others = λ j h. ground arith;
  }
  | inr (s, e) ↦ record {
    accepts = ground arith;
    state = ground (arith, find-assign_self id (mark_cancelled s) s members.loads e);
    flag = elim (Option-cases (find id members.load_cancellations)) [
      | inl no_flag ↦ ground (arith, assign-missing id true members.load_cancellations no_flag)
      | inr (b, f) ↦ ground (arith, find-assign_self id true b members.load_cancellations f)
    ];
    others = λ j h. ground (arith, find-assign_ne id j (mark_cancelled s) members.loads h);
  }
]
