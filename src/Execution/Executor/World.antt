-- ===== src/Execution/Executor/World.antt =====
-- What v2/src/footballai_v2/execution/executor.py runs in: the store that it shares with the API and
-- with other workers, the exceptions, and the calls of the store.
use football_ai.Prelude.{ℕ, suc, String, Bool, Option, none}
use football_ai.Prelude.Result.{Result, ok, err}
use football_ai.Prelude.Action.{Action, ◌>>=◌, ◌>>◌, lift, pure}
use football_ai.Prelude.Dict.{Dict}
use football_ai.Run.Json.{Number, Json, Fields}
use football_ai.Run.Status.{StageName, ArtifactCategory}
use football_ai.Run.Record.{AnalysisRun, ArtifactReference, Datetime}
use football_ai.Run.Checks.{Violation, Checked}
use football_ai.Run.Transition.{Operation, apply}
use football_ai.Storage.Local.{
  save, cancellation_requested, write_artifact, artifact_reference_integrity, materialize_input,
}
use football_ai.Storage.Local.Directory.{Bytes, Store, StoreError, Reply, load}
use football_ai.Execution.Job.{ExecutionJob}

-- The exceptions that reach the handlers of `execute`: the two of execution/errors.py, those of the
-- store and of the contract, and any other of Python.
pub data Raised : Type 0 where
  cancellation_observed : Raised
  execution_failure : (code safe_message : String) → Raised
  store_raised : StoreError → Raised
  contract_raised : Violation → Raised
  python_raised : Raised

-- The bytes that an adapter produced, with their description.
pub record GeneratedArtifact : Type 0 where
  pub artifact_id : String
  pub name : String
  pub category : ArtifactCategory
  pub relative_path : String
  pub content : Bytes
  pub media_type : String
  pub schema_version : String

-- A value of the dictionary of payloads: a JSON object, or a generated artifact.
pub data Payload : Type 0 where
  document : Fields → Payload
  generated : GeneratedArtifact → Payload

abbrev pub Payloads : Type 0
Payloads = Dict Payload

-- What the executor does not do itself: the digest, what the API and other workers did to the store
-- before its n-th step, the clock at its n-th step, `float`, `json.dumps` (with an indent or not),
-- the pipeline adapters and the measurements of a stage.
pub record Host : Type 0 where
  pub sha256 : Bytes → String
  pub interfere : ℕ → Store → Store
  pub clock : ℕ → Datetime
  pub float : Json → Result Raised Number
  pub dumps : (indent : Bool) → Json → Result Raised Bytes
  pub build_artifacts :
      (is_v1_compat : Bool)
      → AnalysisRun
      → (duration : Number) → Bytes
      → (step : ℕ) → Result Raised Payloads
  pub stage_result :
      ExecutionJob → (worker_id : String) → StageName → Option Payloads → Result Raised Fields

-- The store, the number of steps taken, and the local `active_index`, which is none at -1.
pub record World : Type 0 where
  pub store : Store
  pub ticks : ℕ
  pub active_index : Option ℕ

abbrev pub Act : Type 0 → Type 0
Act A = Action World Raised A

abbrev pub from_contract : {A : Type 0} → Checked A → Result Raised A
from_contract (ok a) = ok a
from_contract (err v) = err (contract_raised v)

abbrev pub from_store : {A : Type 0} → Reply A → Result Raised A
from_store (ok a) = ok a
from_store (err e) = err (store_raised e)

abbrev pub or_python : {A : Type 0} → Option A → Result Raised A
or_python none = err python_raised
or_python (Option.some a) = ok a

-- `active_index = index`
unfoldable pub set_active : Option ℕ → Act (Unit {0})
set_active i w = (ok tt, record w { active_index = i })

unfoldable pub get_active : Act (Option ℕ)
get_active w = (ok w.active_index, w)

module _ (host : Host) where
  -- What the others did since the last step.
  abbrev pub current : World → World
  current w = record w { store = host.interfere w.ticks w.store; ticks = suc w.ticks }

  -- A call that reads the store.
  unfoldable pub reading : {A : Type 0} → (Store → Result Raised A) → Act A
  reading f w = (f (current w).store, current w)

  abbrev pub stored : World → Reply Store → Result Raised (Unit {0}) × World
  stored w (ok s) = (ok tt, record w { store = s })
  stored w (err e) = (err (store_raised e), w)

  -- `utc_now()`
  unfoldable pub now : Act Datetime
  now w = (ok (host.clock w.ticks), record w { ticks = suc w.ticks })

  -- A step of its own, by its number.
  unfoldable pub step : Act ℕ
  step w = (ok w.ticks, record w { ticks = suc w.ticks })

  abbrev pub repository_load : String → Act AnalysisRun
  repository_load run_id = reading (λ s. from_store (load s run_id))

  abbrev pub repository_cancellation_requested : String → Act Bool
  repository_cancellation_requested run_id =
      reading (λ s. from_store (cancellation_requested s run_id))

  unfoldable pub repository_save : AnalysisRun → Act (Unit {0})
  repository_save run w = stored (current w) (save host.sha256 (current w).store run)

  -- `self.repository.save(run.method(...))`, with the new run.
  unfoldable pub save_applied : Operation → AnalysisRun → Act AnalysisRun
  save_applied op run = do
    run' ← lift (from_contract (apply op run))
    repository_save run'
    pure run'

  abbrev pub written :
      World → Reply ArtifactReference × Store → Result Raised ArtifactReference × World
  written w (r, s) = (from_store r, record w { store = s })

  -- `object_storage.write_artifact`
  unfoldable pub storage_write :
      (run_id artifact_id name : String)
      → ArtifactCategory
      → (relative_path : String) → (content : Bytes) → (media_type : String)
      → (schema_version : Option String) → Act ArtifactReference
  storage_write run_id artifact_id name category relative_path content media_type schema_version w =
      written (current w) (
        write_artifact host.sha256 (current w).store run_id artifact_id name category relative_path
          content media_type schema_version)

  abbrev pub storage_integrity : String → ArtifactReference → Act Bool
  storage_integrity run_id a =
      reading (λ s. ok (artifact_reference_integrity host.sha256 s run_id a))

  -- `object_storage.materialize_input`
  abbrev pub storage_input : String → Act Bytes
  storage_input run_id = reading (λ s. from_store (materialize_input s run_id))
