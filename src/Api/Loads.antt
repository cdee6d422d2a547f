-- ===== src/Api/Loads.antt =====
-- src/api/forward_index.cc: the states of loads (`LoadAsync`, `GetLoadState`, `CancelLoad` and the
-- callback that stores a worker's state). Each runs under `load_mu_`, so each is one step; the worker
-- itself, `RunExternalArtifactLoad`, runs between the steps. A URI is its bytes.

pub mod Steps
pub mod Started
pub mod Cancelled
use kv_index.Prelude.{
  ℕ, ◌+◌, u64, ◌==◌, String, Bool, true, false, not, ◌&&◌, ◌||◌, if◌then◌else◌, Option, none, some,
  List, [], ◌∷◌, drop,
}
use kv_index.Prelude.Assoc.{find, emplace, assign, erase}
use kv_index.Status.{Status, ok_status, is_ok, invalid_argument, not_found}
use kv_index.Types.Kafka.{KafkaProgress}

pub record LoadRequest : Type 0 where
  pub artifact_uri : List ℕ
  pub artifact_id : List ℕ

pub data LoadStateCode : Type 0 where
  unknown pending running succeeded failed cancelled : LoadStateCode

pub record ShardProgress : Type 0 where
  pub shard_id : ℕ
  pub loaded : Bool
  pub prewarmed : Bool
  pub cutover : Bool
  pub message : String

pub record LoadState : Type 0 where
  pub id : ℕ
  pub code : LoadStateCode
  pub terminal : Bool
  pub artifact_uri : List ℕ
  pub artifact_id : List ℕ
  pub total_shard_count : ℕ
  pub loaded_shard_count : ℕ
  pub prewarmed_shard_count : ℕ
  pub cutover_shard_count : ℕ
  pub source_progress : KafkaProgress
  pub shards : List ShardProgress
  pub last_error : String
  pub message : String

-- A state that sets what the code names, and leaves the rest at the defaults.
abbrev pub load_state : ℕ → LoadStateCode → Bool → LoadRequest → String → String → LoadState
load_state id code terminal request last_error message = record {
  id = id;
  code = code;
  terminal = terminal;
  artifact_uri = request.artifact_uri;
  artifact_id = request.artifact_id;
  total_shard_count = 0;
  loaded_shard_count = 0;
  prewarmed_shard_count = 0;
  cutover_shard_count = 0;
  source_progress = record { partitions = [] };
  shards = [];
  last_error = last_error;
  message = message;
}

-- The members of `ForwardIndex` that `load_mu_` guards. A cancellation is the value of the shared
-- flag, which the map and the worker hold.
pub record Loads : Type 0 where
  pub next_load_id : ℕ
  pub loads : List (ℕ × LoadState)
  pub load_cancellations : List (ℕ × Bool)

-- What `stat` says of a path.
pub data FileKind : Type 0 where
  regular directory other : FileKind

abbrev pub starts_with : List ℕ → List ℕ → Bool
starts_with [] text = true
starts_with (c ∷ cs) [] = false
starts_with (c ∷ cs) (d ∷ ds) = c == d && starts_with cs ds

abbrev pub contains_text : List ℕ → List ℕ → Bool
contains_text pattern [] = starts_with pattern []
contains_text pattern (d ∷ ds) = starts_with pattern (d ∷ ds) || contains_text pattern ds

-- "://" and "file://".
abbrev pub scheme_mark : List ℕ
scheme_mark = 0x3a ∷ 0x2f ∷ 0x2f ∷ []

abbrev pub file_scheme : List ℕ
file_scheme = 0x66 ∷ 0x69 ∷ 0x6c ∷ 0x65 ∷ scheme_mark

abbrev check_path : (List ℕ → Option FileKind) → List ℕ → Status
check_path stat [] = invalid_argument "artifact path is empty"
check_path stat (c ∷ cs) = elim (stat (c ∷ cs)) [
  | none ↦ not_found "artifact file does not exist"
  | some regular ↦ ok_status
  | some directory ↦ ok_status
  | some other ↦ invalid_argument "artifact path is neither a regular file nor a directory"
]

-- `PreflightLocalArtifactUri`, for what the file system says of a path.
unfoldable pub preflight_local_artifact_uri :
    (stat : List ℕ → Option FileKind) → LoadRequest → Status
preflight_local_artifact_uri stat request = elim request.artifact_uri [
  | [] ↦ invalid_argument "artifact uri is empty"
  | c ∷ cs ↦
      if not (contains_text scheme_mark request.artifact_uri)
      then check_path stat request.artifact_uri
      else if not (starts_with file_scheme request.artifact_uri)
      then invalid_argument "artifact uri scheme is unsupported"
      else check_path stat (drop 7 request.artifact_uri)
]

-- `LoadAsync`, but for the worker that it starts: the identifier, and the members after the call.
unfoldable pub load_async : (stat : List ℕ → Option FileKind) → Loads → LoadRequest → ℕ × Loads
load_async stat members request =
    let id = members.next_load_id in
    let preflight = preflight_local_artifact_uri stat request in
    if not (is_ok preflight)
    then (
      id,
      record members {
        next_load_id = u64 (id + 1);
        loads =
            emplace id (load_state id failed true request preflight.message preflight.message)
              members.loads;
      },
    )
    else (
      id,
      record members {
        next_load_id = u64 (id + 1);
        loads = emplace id (load_state id running false request "" "") members.loads;
        load_cancellations = emplace id false members.load_cancellations;
      },
    )

abbrev pub is_cancelled_code : LoadStateCode → Bool
is_cancelled_code cancelled = true
is_cancelled_code _ = false

-- `MarkCancelled` of src/rebuild/async_load.cc.
abbrev pub mark_cancelled : LoadState → LoadState
mark_cancelled state = record state {
  code = cancelled;
  terminal = true;
  last_error = "load cancelled";
  message = "load cancelled";
}

-- The callback `store_state` of the worker of a load.
unfoldable pub store_state : Loads → ℕ → LoadState → Loads
store_state members id state = elim (find id members.loads) [
  | none ↦ members
  | some current ↦
      if is_cancelled_code current.code && current.terminal && not (is_cancelled_code state.code)
      then record members { loads = assign id (mark_cancelled state) members.loads }
      else record members { loads = assign id state members.loads }
]

-- The end of a worker.
unfoldable pub finish_worker : Loads → ℕ → Loads
finish_worker members id = record members {
  load_cancellations = erase id members.load_cancellations;
}

unfoldable pub get_load_state : Loads → ℕ → LoadState
get_load_state members id = elim (find id members.loads) [
  | none ↦
      load_state id unknown true (record { artifact_uri = []; artifact_id = [] }) ""
        "unknown load id"
  | some state ↦ state
]

-- `CancelLoad`.
unfoldable pub cancel_load : Loads → ℕ → Bool × Loads
cancel_load members id = elim (find id members.loads) [
  | none ↦ (false, members)
  | some state ↦ if state.terminal then (false, members) else (
    true,
    record members {
      loads = assign id (mark_cancelled state) members.loads;
      load_cancellations = assign id true members.load_cancellations;
    },
  )
]
