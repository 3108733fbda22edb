-- ===== src/Execution/Attempts.antt =====
-- What v2/src/footballai_v2/execution/coordinator.py and v2/src/footballai_v2/storage/upload_service.py
-- share: the store of runs, the queue, and how an attempt is put into both.

pub mod Settled
use Prim.Native.String.{◌++◌ as append}
use football_ai.Prelude.{
  ◌≡◌, ℕ, String, Bool, true, false, not, ◌&&◌, ◌||◌, Option, none, some, List, [], ◌∷◌, str_eq,
  same, if◌then◌else◌,
}
use football_ai.Prelude.Result.{Result, ok, err}
use football_ai.Prelude.Action.{Action, ◌>>=◌, ◌>>◌, lift, throw, rescue, pure}
use football_ai.Run.Json.{Json, Fields, end, get, text, finite, pos}
use football_ai.Run.Status.{
  StageName, identity_resolution, pitch_calibration, stage_names, stage_value, StageStatus,
  StageName-discrete,
}
use football_ai.Run.Record.{AnalysisRun, StageExecution, CodeReference, StructuredError, Datetime}
use football_ai.Run.Checks.{Violation, Checked}
use football_ai.Run.Validate.Parts.{checked_stage, checked_error}
use football_ai.Run.Transition.{fail, apply}
use football_ai.Storage.Keys.{ObjectError}
use football_ai.Storage.Local.{create, save}
use football_ai.Storage.Local.Directory.{Bytes, Store, StoreError, Reply, load}
use football_ai.Execution.Job.{ExecutionJob, JobError, validate_job}
use football_ai.Execution.Queue.{enqueue}
use football_ai.Execution.Queue.Directories.{Queue, QueueError}

-- The control plane and the delivery of jobs.
pub record Planes : Type 0 where
  pub store : Store
  pub queue : Queue

-- An exception that a caller sees.
pub data Refusal : Type 0 where
  store_refused : StoreError → Refusal
  object_refused : ObjectError → Refusal
  contract_refused : Violation → Refusal
  job_refused : JobError → Refusal
  queue_refused : QueueError → Refusal
  upload_refused : (code : String) → Refusal
  key_missing : Refusal

abbrev pub Call : Type 0 → Type 0
Call A = Action Planes Refusal A

abbrev pub from_contract : {A : Type 0} → Checked A → Result Refusal A
from_contract (ok a) = ok a
from_contract (err v) = err (contract_refused v)

pub from_contract-eq-ok : {A : Type 0} (c : Checked A) {a : A} → from_contract c ≡ ok a → c ≡ ok a
from_contract-eq-ok (ok a) h = cc
from_contract-eq-ok (err v) h = cc

abbrev pub stored : Planes → Reply Store → Result Refusal (Unit {0}) × Planes
stored p (ok s) = (ok tt, record p { store = s })
stored p (err e) = (err (store_refused e), p)

-- A call that changes the store.
unfoldable pub changing : (Store → Reply Store) → Call (Unit {0})
changing f p = stored p (f p.store)

abbrev pub found : Planes → Reply AnalysisRun → Result Refusal AnalysisRun × Planes
found p (ok run) = (ok run, p)
found p (err e) = (err (store_refused e), p)

-- `repository.load`
unfoldable pub loading : String → Call AnalysisRun
loading run_id p = found p (load p.store run_id)

abbrev pub queued : Planes → Result QueueError Queue → Result Refusal (Unit {0}) × Planes
queued p (ok q) = (ok tt, record p { queue = q })
queued p (err e) = (err (queue_refused e), p)

-- `queue.enqueue`
unfoldable pub enqueuing : ExecutionJob → Call (Unit {0})
enqueuing job p = queued p (enqueue p.queue job)

-- `pipeline_version_for`
abbrev pub pipeline_version_for : String → String
pipeline_version_for profile =
    if str_eq profile "v1_compat" then "v1_compat/2.1.0" else append profile "/1.0.0"

-- The new identifiers and the instants that `uuid4` and `utc_now` return.
pub record Fresh : Type 0 where
  pub run_id : String
  pub logical_analysis_id : String
  pub job_id : String
  pub created_at : Datetime
  pub enqueued_at : Datetime
  pub occurred_at : Datetime
  pub failed_at : Datetime

abbrev pub checked_job : ExecutionJob → Result JobError (Unit {0}) → Result Refusal ExecutionJob
checked_job job (ok _) = ok job
checked_job job (err e) = err (job_refused e)

abbrev pub job_of : Fresh → AnalysisRun → (profile : String) → ExecutionJob
job_of fresh run profile = record {
  job_id = fresh.job_id;
  run_id = run.run_id;
  logical_analysis_id = run.logical_analysis_id;
  attempt_number = run.attempt_number;
  pipeline_profile = profile;
  created_at = fresh.enqueued_at;
  claimed_at = none;
  worker_id = none;
}

-- `ExecutionJob.new`
unfoldable pub new_job : Fresh → AnalysisRun → (profile : String) → Result Refusal ExecutionJob
new_job fresh run profile =
    checked_job (job_of fresh run profile) (validate_job (job_of fresh run profile))

-- `queue.enqueue(ExecutionJob.new(...))`
unfoldable pub enqueue_run : Fresh → AnalysisRun → (profile : String) → Call (Unit {0})
enqueue_run fresh run profile = do job ← lift (new_job fresh run profile); enqueuing job

abbrev pub is_unsupported : (profile : String) → StageName → Bool
is_unsupported profile name =
    str_eq profile "v1_compat"
    && (same StageName-discrete name identity_resolution
        || same StageName-discrete name pitch_calibration)

abbrev pub queued_stage : ℕ → (required : Bool) → StageName → StageExecution
queued_stage attempt required name = record {
  stage_id = stage_value name;
  stage_name = name;
  required = required;
  status = StageStatus.queued;
  progress_percent = finite (pos 0);
  attempt_number = attempt;
  started_at = none;
  finished_at = none;
  produced_artifact_ids = [];
  error = none;
  performance_metrics = end;
  message = none;
}

-- `_queued_stages`
unfoldable pub queued_stages_of :
    ℕ → (required : StageName → Bool) → List StageName → Result Refusal (List StageExecution)
queued_stages_of attempt required [] = ok []
queued_stages_of attempt required (name ∷ names) =
    elim (checked_stage (queued_stage attempt (required name) name)) [
      | err v ↦ err (contract_refused v)
      | ok stage ↦ elim (queued_stages_of attempt required names) [
        | err e ↦ err e
        | ok stages ↦ ok (stage ∷ stages)
      ]
    ]

unfoldable pub queued_stages :
    ℕ → (required : StageName → Bool) → Result Refusal (List StageExecution)
queued_stages attempt required = queued_stages_of attempt required stage_names

abbrev pub ingestion_error :
    (code message : String) → (retryable : Bool) → Datetime → StructuredError
ingestion_error code message retryable at = record {
  error_code = code;
  safe_message = message;
  retryable = retryable;
  occurred_at = at;
  technical_details = none;
}

module _ (sha256 : Bytes → String) where
  -- `except Exception: self.repository.save(run.fail(...)); raise`, with the error of the failure
  unfoldable pub or_fail : Fresh → AnalysisRun → StructuredError → Call (Unit {0}) → Call (Unit {0})
  or_fail fresh run error m = rescue m λ raised. do
    failure ← lift (from_contract (checked_error error))
    failed ← lift (from_contract (apply (fail failure fresh.failed_at none) run))
    changing (λ s. save sha256 s failed)
    throw raised

  -- An attempt is created, given its input, and enqueued.
  unfoldable pub ingest :
      Fresh
      → AnalysisRun
      → (profile : String) → StructuredError
      → (Store → Reply Store)
      → Call AnalysisRun
  ingest fresh run profile error put_input = do
    changing (λ s. create s run)
    or_fail fresh run error (changing put_input >> enqueue_run fresh run profile)
    pure run
