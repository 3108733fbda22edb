-- ===== src/Execution/Executor/Stages.antt =====
-- The stage loop of `AnalysisExecutor.execute` in v2/src/footballai_v2/execution/executor.py.
use Prim.Native.String.{◌++◌ as append}
use football_ai.Prelude.{
  ℕ, zero, suc, String, Bool, not, ◌&&◌, ◌||◌, Option, none, some, List, [], ◌∷◌, ◌==◌, str_eq,
  if◌then◌else◌, same,
}
use football_ai.Prelude.Result.{Result, ok}
use football_ai.Run.Json.{Number, finite, pos, object, get}
use football_ai.Run.Status.{
  StageName, ingestion, video_validation, detection, tracking, identity_resolution,
  pitch_calibration, metrics, workload_advisory, artifact_publication, StageStatus, stage_status_is,
  StageName-discrete,
}
use football_ai.Run.Record.{AnalysisRun, StageExecution, Datetime}
use football_ai.Run.Validate.Parts.{checked_stage}
use football_ai.Run.Transition.{with_stages}
use football_ai.Execution.Job.{ExecutionJob}
use football_ai.Prelude.Action.{◌>>=◌, ◌>>◌, lift, pure, throw}
use football_ai.Execution.Executor.World.{
  Raised, cancellation_observed, execution_failure, Payloads, Host, Act, from_contract, set_active,
  now, step, save_applied, repository_cancellation_requested, storage_input,
}

-- `name.value.replace("_", " ").title()`
abbrev pub stage_title : StageName → String
stage_title ingestion = "Ingestion"
stage_title video_validation = "Video Validation"
stage_title detection = "Detection"
stage_title tracking = "Tracking"
stage_title identity_resolution = "Identity Resolution"
stage_title pitch_calibration = "Pitch Calibration"
stage_title metrics = "Metrics"
stage_title workload_advisory = "Workload Advisory"
stage_title artifact_publication = "Artifact Publication"

abbrev pub stage_is : StageName → StageName → Bool
stage_is = same StageName-discrete

abbrev pub percent : ℕ → Number
percent n = finite (pos n)

-- `(*xs[:index], x, *xs[index + 1:])`
abbrev pub set_at {ℓ} : {A : Type ℓ} → ℕ → A → List A → List A
set_at n x [] = x ∷ []
set_at zero x (y ∷ ys) = x ∷ ys
set_at (suc n) x (y ∷ ys) = y ∷ set_at n x ys

-- `xs[n]`
abbrev pub element {ℓ} : {A : Type ℓ} → ℕ → List A → Option A
element n [] = none
element zero (x ∷ xs) = some x
element (suc n) (x ∷ xs) = element n xs

-- A stage that a test of the loop skips without a record.
abbrev is_done : StageExecution → Bool
is_done stage =
    stage_status_is stage.status StageStatus.succeeded
    || stage_status_is stage.status StageStatus.skipped

abbrev pub is_v1_compat : ExecutionJob → Bool
is_v1_compat job = str_eq job.pipeline_profile "v1_compat"

module _ (host : Host) where
  -- `_checkpoint`
  unfoldable pub checkpoint : String → Act (Unit {0})
  checkpoint run_id = do
    requested ← repository_cancellation_requested host run_id
    if requested then throw cancellation_observed else pure tt

  -- `_build_artifacts`
  unfoldable pub build_artifacts : ExecutionJob → AnalysisRun → Number → Act Payloads
  build_artifacts job run duration = do
    content ← storage_input host run.run_id
    n ← step host
    lift (host.build_artifacts (is_v1_compat job) run duration content n)

  -- `run = run.with_stages((*run.stages[:index], stage, *run.stages[index + 1:]))`, and its save.
  unfoldable pub save_stage : ℕ → StageExecution → AnalysisRun → Act AnalysisRun
  save_stage index stage run = save_applied host (with_stages (set_at index stage run.stages)) run

  unfoldable pub started : Option Datetime → Act Datetime
  started none = now host
  started (some at) = pure at

  unfoldable pub skip_stage : ℕ → StageExecution → AnalysisRun → Act AnalysisRun
  skip_stage index stage run = do
    at ← now host
    skipped ← lift (
        from_contract (
          checked_stage (record stage {
            status = StageStatus.skipped;
            finished_at = some at;
            message = some "Unsupported by the V1-compatible algorithm family";
          })))
    save_stage index skipped run

  -- The payloads are built in the detection stage of the V1 profile.
  unfoldable pub detect :
      ExecutionJob → StageExecution → AnalysisRun → Number → Option Payloads → Act (Option Payloads)
  detect job stage run duration payloads =
      if is_v1_compat job && stage_is stage.stage_name detection
      then (do built ← build_artifacts job run duration; pure (some built))
      else pure payloads

  unfoldable pub start_stage : StageExecution → Act StageExecution
  start_stage stage = do
    at ← started stage.started_at
    lift (
        from_contract (
          checked_stage (record stage {
            status = StageStatus.running;
            progress_percent = percent 10000000;
            started_at = some at;
            finished_at = none;
            error = none;
            message = some (append (stage_title stage.stage_name) " in progress");
          })))

  unfoldable pub finish_stage :
      ExecutionJob → String → StageExecution → Option Payloads → Act StageExecution
  finish_stage job worker_id running payloads = do
    performance ← lift (host.stage_result job worker_id running.stage_name payloads)
    at ← now host
    lift (
        from_contract (
          checked_stage (record running {
            status = StageStatus.succeeded;
            progress_percent = percent 100000000;
            finished_at = some at;
            performance_metrics = performance;
            produced_artifact_ids = [];
            message = some (append (stage_title running.stage_name) " completed");
          })))

  -- The controlled failure of the profile for tests.
  unfoldable pub fail_in_test : ExecutionJob → ℕ → Act (Unit {0})
  fail_in_test job index =
      if str_eq job.pipeline_profile "test_fail" && job.attempt_number == 1 && index == 2
      then throw (execution_failure "test_stage_failure" "The test profile stopped at detection.")
      else pure tt

  unfoldable pub run_stage :
      ExecutionJob
      → (worker_id : String) → Number
      → ℕ
      → StageExecution
      → AnalysisRun
      → Option Payloads
      → Act (AnalysisRun × Option Payloads)
  run_stage job worker_id duration index stage run payloads = do
    checkpoint job.run_id
    fail_in_test job index
    running ← start_stage stage
    run₁ ← save_stage index running run
    built ← detect job stage run₁ duration payloads
    checkpoint job.run_id
    finished ← finish_stage job worker_id running built
    run₂ ← save_stage index finished run₁
    pure (run₂, built)

  -- One round of the loop.
  unfoldable pub round :
      ExecutionJob
      → (worker_id : String) → Number
      → ℕ
      → StageExecution
      → AnalysisRun
      → Option Payloads
      → Act (AnalysisRun × Option Payloads)
  round job worker_id duration index stage run payloads =
      if is_done stage
      then pure (run, payloads)
      else if is_v1_compat job && not stage.required
      then (do skipped ← skip_stage index stage run; pure (skipped, payloads))
      else run_stage job worker_id duration index stage run payloads

  -- `for index, stage in enumerate(run.stages)`, from an index on.
  unfoldable pub run_stages :
      ExecutionJob
      → (worker_id : String) → Number
      → ℕ
      → List StageExecution
      → AnalysisRun
      → Option Payloads
      → Act (AnalysisRun × Option Payloads)
  run_stages job worker_id duration index [] run payloads = pure (run, payloads)
  run_stages job worker_id duration index (stage ∷ stages) run payloads = do
    set_active (some index)
    (run', payloads') ← round job worker_id duration index stage run payloads
    run_stages job worker_id duration (suc index) stages run' payloads'

  -- The value of `duration_seconds` in the probe of the video, which is read only from an object.
  unfoldable pub duration_of : AnalysisRun → Result Raised Number
  duration_of run = elim (get run.parameters "video_probe") [
    | some (object probe) ↦ elim (get probe "duration_seconds") [
      | some seconds ↦ host.float seconds
      | none ↦ ok (percent 0)
    ]
    | _ ↦ ok (percent 0)
  ]
