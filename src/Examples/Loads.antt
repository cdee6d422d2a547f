-- ===== src/Examples/Loads.antt =====
-- Loads of one file, of which the first is cancelled.
use kv_index.Prelude.{ℕ, refl, arith, Option, some, List, [], ◌∷◌, true}
use kv_index.Prelude.Assoc.{find, emplace, assign}
use kv_index.Api.Loads.{
  LoadRequest, Loads, LoadState, FileKind, regular, succeeded, load_state, load_async, store_state,
  cancel_load, preflight_local_artifact_uri, get_load_state,
}
use kv_index.Api.Loads.Steps.{Steps, stores, done, next}
use kv_index.Api.Loads.Cancelled.{IsCancelled, steps-IsCancelled}
use kv_index.Api.Loads.Started.{
  AreOld, Started, load_async-Started, CancelsLoad, cancel_load-CancelsLoad,
}

abbrev no_loads : Loads
no_loads = record { next_load_id = 1; loads = []; load_cancellations = [] }

abbrev every_file : List ℕ → Option FileKind
every_file path = some regular

abbrev request : LoadRequest
request = record { artifact_uri = 0x61 ∷ []; artifact_id = [] }

no_loads-AreOld : AreOld no_loads
unfolding find
no_loads-AreOld id h = refl

load_async-Started_example :
    Started every_file no_loads request (load_async every_file no_loads request)
load_async-Started_example =
    load_async-Started every_file no_loads request no_loads-AreOld (omega arith)

abbrev one_load : Loads
one_load = (load_async every_file no_loads request).1

cancel_load-CancelsLoad_example : CancelsLoad one_load 1 (cancel_load one_load 1)
cancel_load-CancelsLoad_example = cancel_load-CancelsLoad one_load 1

abbrev cancelled_load : Loads
cancelled_load = (cancel_load one_load 1).1

cancelled_load-IsCancelled : IsCancelled cancelled_load 1
unfolding get_load_state cancel_load load_async find emplace assign preflight_local_artifact_uri
cancelled_load-IsCancelled = (refl, refl)

abbrev late : LoadState
late = load_state 1 succeeded true request "" "artifact load succeeded"

late_success : Steps every_file cancelled_load (store_state cancelled_load 1 late)
late_success =
    next cancelled_load (store_state cancelled_load 1 late) (store_state cancelled_load 1 late)
      (stores cancelled_load 1 late refl) (done (store_state cancelled_load 1 late))

steps-IsCancelled_example : IsCancelled (store_state cancelled_load 1 late) 1
steps-IsCancelled_example =
    steps-IsCancelled every_file cancelled_load (store_state cancelled_load 1 late) 1 late_success
      cancelled_load-IsCancelled
