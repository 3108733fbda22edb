-- ===== src/Execution/Executor.antt =====
-- v2/src/footballai_v2/execution/executor.py: `AnalysisExecutor.execute`, over the local store.
pub mod World
pub mod Stages
pub mod Produced
pub mod Publication
pub mod Safe
pub mod Ends
pub mod Written
pub mod Completed
pub mod Recorded
pub mod Cancelled
use football_ai.Prelude.{ℕ, String, Bool, true, false, Option, none, some, List, if◌then◌else◌}
use football_ai.Prelude.Result.{Result, ok}
use football_ai.Run.Json.{Number, Fields, end, field, named, text}
use football_ai.Run.Status.{
  AnalysisRunStatus, queued, cancelled, failed, StageStatus, is_terminal, run_status_is,
  stage_status_is, stage_value,
}
use football_ai.Run.Record.{AnalysisRun, StageExecution, StructuredError, Datetime}
use football_ai.Run.Validate.Parts.{checked_stage, checked_error}
use football_ai.Run.Transition.{start, cancel, fail}
use football_ai.Execution.Job.{ExecutionJob}
use football_ai.Prelude.Action.{◌>>=◌, ◌>>◌, lift, pure, rescue}
use football_ai.Execution.Executor.World.{
  Raised, cancellation_observed, execution_failure, Host, Act, from_contract, or_python, set_active,
  get_active, now, save_applied, repository_load, repository_cancellation_requested,
}
use football_ai.Execution.Executor.Stages.{set_at, element, duration_of, run_stages}
use football_ai.Execution.Executor.Publication.{publish}

-- `exc.code if isinstance(exc, ExecutionFailure) else ...`, and the message with it.
abbrev pub code_of : Raised → String
code_of (execution_failure code safe_message) = code
code_of _ = "execution_failed"

abbrev pub message_of : Raised → String
message_of (execution_failure code safe_message) = safe_message
message_of _ = "Analysis execution failed safely."

-- `StructuredError(code, message, True, at, details)`
unfoldable pub public_error : Raised → Datetime → Option Fields → Result Raised StructuredError
public_error raised at details = from_contract (
    checked_error (record {
      error_code = code_of raised;
      safe_message = message_of raised;
      retryable = true;
      occurred_at = at;
      technical_details = details;
    }))

abbrev is_running : StageExecution → Bool
is_running stage = stage_status_is stage.status StageStatus.running

module _ (host : Host) where
  -- The stages that the first handler saves: a running stage is cancelled.
  unfoldable pub cancelled_stages : Option ℕ → List StageExecution → Act (List StageExecution)
  cancelled_stages none stages = pure stages
  cancelled_stages (some index) stages = lift (or_python (element index stages)) >>= λ stage.
      if is_running stage
      then (do
        at ← now host
        stopped ← lift (
            from_contract (
              checked_stage (record stage {
                status = StageStatus.cancelled;
                finished_at = some at;
                message = some "Cancelled at a safe checkpoint";
              })))
        pure (set_at index stopped stages))
      else pure stages

  -- `except CancellationObserved`
  unfoldable pub stop_cancelled : ExecutionJob → Act AnalysisRunStatus
  stop_cancelled job = do
    current ← repository_load host job.run_id
    active ← get_active
    stages ← cancelled_stages active current.stages
    at ← now host
    save_applied host (cancel at (some "Cancellation requested by user.") (some stages)) current
    pure cancelled

  -- The stages that the second handler saves, with the name of the stage that failed.
  unfoldable pub failed_stages :
      Raised → Option ℕ → List StageExecution → Act (List StageExecution × String)
  failed_stages raised none stages = pure (stages, "ingestion")
  failed_stages raised (some index) stages = do
    stage ← lift (or_python (element index stages))
    occurred ← now host
    error ← lift (public_error raised occurred none)
    if is_running stage
        then (do
          at ← now host
          stopped ← lift (
              from_contract (
                checked_stage (record stage {
                  status = StageStatus.failed;
                  finished_at = some at;
                  error = some error;
                  message = some (message_of raised);
                })))
          pure (set_at index stopped stages, stage_value stage.stage_name))
        else pure (stages, stage_value stage.stage_name)

  -- `except Exception as exc`
  unfoldable pub stop_failed : ExecutionJob → Raised → Act AnalysisRunStatus
  stop_failed job raised = repository_load host job.run_id >>= λ current.
      if is_terminal current.status then pure current.status else (do
        active ← get_active
        (stages, name) ← failed_stages raised active current.stages
        occurred ← now host
        failure ← lift (public_error raised occurred (some (field (named "stage") (text name) end)))
        at ← now host
        save_applied host (fail failure at (some stages)) current
        pure failed)

  unfoldable pub stop : ExecutionJob → Raised → Act AnalysisRunStatus
  stop job cancellation_observed = stop_cancelled job
  stop job raised = stop_failed job raised

  -- The body of the `try`.
  unfoldable pub run_attempt :
      ExecutionJob → (worker_id : String) → AnalysisRun → Number → Act AnalysisRunStatus
  run_attempt job worker_id run duration = do
    (run', payloads) ← run_stages host job worker_id duration 0 run.stages run none
    publish host job run' duration payloads

  unfoldable pub attempt : ExecutionJob → (worker_id : String) → AnalysisRun → Act AnalysisRunStatus
  attempt job worker_id run = do
    set_active none
    duration ← lift (duration_of host run)
    rescue (run_attempt job worker_id run duration) (stop job)

  -- A queued run is cancelled, or started.
  unfoldable pub begin : ExecutionJob → (worker_id : String) → AnalysisRun → Act AnalysisRunStatus
  begin job worker_id run = repository_cancellation_requested host run.run_id >>= λ requested.
      if requested
      then (do
        at ← now host
        save_applied host (cancel at (some "Cancelled before execution.") none) run
        pure cancelled)
      else (do
        at ← now host
        started ← save_applied host (start at (some run.stages)) run
        attempt job worker_id started)

  -- `execute`
  unfoldable pub execute : ExecutionJob → (worker_id : String) → Act AnalysisRunStatus
  execute job worker_id = repository_load host job.run_id >>= λ run.
      if is_terminal run.status
      then pure run.status
      else if run_status_is run.status queued
      then begin job worker_id run
      else attempt job worker_id run
