-- ===== src/Execution/Executor/Ends/Run.antt =====
-- The branches of `AnalysisExecutor.execute` in v2/src/footballai_v2/execution/executor.py, by the
-- run that each leaves in the store.
use football_ai.Prelude.{◌≡◌, refl, String, Option, none, some, List}
use football_ai.Run.Json.{Number}
use football_ai.Run.Status.{cancelled, failed}
use football_ai.Run.Record.{AnalysisRun, ArtifactReference}
use football_ai.Storage.Local.Inversion.{load-eq-ok}
use football_ai.Execution.Job.{ExecutionJob}
use football_ai.Execution.Executor.World.{
  Raised, cancellation_observed, execution_failure, store_raised, contract_raised, python_raised,
  Payloads, Host,
}
use football_ai.Execution.Executor.Publication.{complete, publish_built, publish}
use football_ai.Execution.Executor.Ends.{
  Ends, >>=-Ends, rescue-Ends, if-Ends, load-Ends, terminal-Ends, save_applied-Ends,
}
use football_ai.Execution.Executor.{
  stop_cancelled, stop_failed, stop, run_attempt, attempt, begin, execute,
}

module _ (host : Host) where
  complete-Ends :
      (run_id : String) (artifacts : List ArtifactReference)
      → Ends run_id (complete host run_id artifacts)
  unfolding complete
  complete-Ends run_id artifacts = load-Ends host run_id _ λ current w loaded.
      let (_, _, _, same) = load-eq-ok w.store run_id loaded in
      let rest : Ends run_id _ = >>=-Ends _ _ λ stages.
        if-Ends _
          (>>=-Ends _ _ λ stopped.
            >>=-Ends _ _
              λ at. save_applied-Ends host run_id _ current (λ r. r.status) same refl refl)
          (>>=-Ends _ _
            λ at. save_applied-Ends host run_id _ current (λ r. r.status) same refl refl) in
      rest.at w

  publish_built-Ends :
      (job : ExecutionJob) (run : AnalysisRun) (payloads : Payloads)
      → Ends job.run_id (publish_built host job run payloads)
  unfolding publish_built
  publish_built-Ends job run payloads = search (>>=-Ends, complete-Ends)

  publish-Ends :
      (job : ExecutionJob) (run : AnalysisRun) (duration : Number) (payloads : Option Payloads)
      → Ends job.run_id (publish host job run duration payloads)
  unfolding publish
  publish-Ends job run duration none = search (>>=-Ends, publish_built-Ends)
  publish-Ends job run duration (some payloads) = publish_built-Ends job run payloads

  stop_cancelled-Ends : (job : ExecutionJob) → Ends job.run_id (stop_cancelled host job)
  unfolding stop_cancelled
  stop_cancelled-Ends job = load-Ends host job.run_id _ λ current w loaded.
      let (_, _, _, same) = load-eq-ok w.store job.run_id loaded in
      let rest : Ends job.run_id _ = >>=-Ends _ _ λ active. >>=-Ends _ _ λ stages.
        >>=-Ends _ _
          λ at. save_applied-Ends host job.run_id _ current (λ _. cancelled) same refl refl in
      rest.at w

  stop_failed-Ends :
      (job : ExecutionJob) (raised : Raised) → Ends job.run_id (stop_failed host job raised)
  unfolding stop_failed
  stop_failed-Ends job raised = load-Ends host job.run_id _ λ current w loaded.
      let (_, _, _, same) = load-eq-ok w.store job.run_id loaded in
      terminal-Ends host job.run_id current w _ loaded (
        >>=-Ends _ _ λ active. >>=-Ends _ _ λ found. >>=-Ends _ _ λ occurred.
          >>=-Ends _ _ λ failure.
            >>=-Ends _ _
              λ at. save_applied-Ends host job.run_id _ current (λ _. failed) same refl refl)

  stop-Ends : (job : ExecutionJob) (raised : Raised) → Ends job.run_id (stop host job raised)
  unfolding stop
  stop-Ends job cancellation_observed = stop_cancelled-Ends job
  stop-Ends job (execution_failure code message) = stop_failed-Ends job _
  stop-Ends job (store_raised e) = stop_failed-Ends job _
  stop-Ends job (contract_raised v) = stop_failed-Ends job _
  stop-Ends job python_raised = stop_failed-Ends job _

  attempt-Ends :
      (job : ExecutionJob) (worker_id : String) (run : AnalysisRun)
      → Ends job.run_id (attempt host job worker_id run)
  unfolding attempt run_attempt
  attempt-Ends job worker_id run = search (>>=-Ends, rescue-Ends, publish-Ends, stop-Ends)

  begin-Ends :
      (job : ExecutionJob) (worker_id : String) (run : AnalysisRun)
      → run.run_id ≡ job.run_id
      → Ends job.run_id (begin host job worker_id run)
  unfolding begin
  begin-Ends job worker_id run same = >>=-Ends _ _ λ requested.
      if-Ends requested
        (>>=-Ends _ _ λ at. save_applied-Ends host job.run_id _ run (λ _. cancelled) same refl refl)
        (search (>>=-Ends, attempt-Ends))

  -- A status that `execute` returns is terminal, and is the status of the run in the store.
  pub execute-Ends :
      (job : ExecutionJob) (worker_id : String) → Ends job.run_id (execute host job worker_id)
  unfolding execute
  execute-Ends job worker_id = load-Ends host job.run_id _ λ run w loaded.
      let (_, _, _, same) = load-eq-ok w.store job.run_id loaded in
      terminal-Ends host job.run_id run w _ loaded
        (if-Ends _ (begin-Ends job worker_id run same) (attempt-Ends job worker_id run))
