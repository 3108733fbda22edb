-- ===== src/Execution/Executor/Safe/Run.antt =====
-- The steps of `AnalysisExecutor.execute` in v2/src/footballai_v2/execution/executor.py make only
-- calls of the store.
use football_ai.Prelude.{ℕ, suc, String, Option, none, some, List, [], ◌∷◌}
use football_ai.Run.Json.{Number}
use football_ai.Run.Record.{AnalysisRun, ArtifactReference, StageExecution, Datetime}
use football_ai.Execution.Job.{ExecutionJob}
use football_ai.Execution.Executor.World.{
  Raised, cancellation_observed, execution_failure, store_raised, contract_raised, python_raised,
  Payload, document, generated, Payloads, Host,
}
use football_ai.Execution.Executor.Stages
use football_ai.Execution.Executor.Publication
use football_ai.Execution.Executor.Safe.{
  Safe, SharedStore, safe_rules, >>=-Safe, if-Safe, lift-Safe, reading-Safe,
}
use football_ai.Execution.Executor.{
  cancelled_stages, stop_cancelled, failed_stages, stop_failed, stop, run_attempt, attempt, begin,
  execute,
}

module _ (host : Host) (shared : SharedStore host) where
  checkpoint-Safe : (run_id : String) → Safe host.sha256 (Stages.checkpoint host run_id)
  unfolding Stages.checkpoint
  checkpoint-Safe run_id = search safe_rules

  build_artifacts-Safe :
      (job : ExecutionJob) (run : AnalysisRun) (duration : Number)
      → Safe host.sha256 (Stages.build_artifacts host job run duration)
  unfolding Stages.build_artifacts
  build_artifacts-Safe job run duration = search safe_rules

  save_stage-Safe :
      (index : ℕ) (stage : StageExecution) (run : AnalysisRun)
      → Safe host.sha256 (Stages.save_stage host index stage run)
  unfolding Stages.save_stage
  save_stage-Safe index stage run = search safe_rules

  started-Safe : (at : Option Datetime) → Safe host.sha256 (Stages.started host at)
  unfolding Stages.started
  started-Safe none = search safe_rules
  started-Safe (some at) = search safe_rules

  ruleset stage_rules =
      (safe_rules, checkpoint-Safe, build_artifacts-Safe, save_stage-Safe, started-Safe)

  skip_stage-Safe :
      (index : ℕ) (stage : StageExecution) (run : AnalysisRun)
      → Safe host.sha256 (Stages.skip_stage host index stage run)
  unfolding Stages.skip_stage
  skip_stage-Safe index stage run = search stage_rules

  start_stage-Safe : (stage : StageExecution) → Safe host.sha256 (Stages.start_stage host stage)
  unfolding Stages.start_stage
  start_stage-Safe stage = search stage_rules

  finish_stage-Safe :
      (job : ExecutionJob) (worker_id : String) (running : StageExecution)
      (payloads : Option Payloads)
      → Safe host.sha256 (Stages.finish_stage host job worker_id running payloads)
  unfolding Stages.finish_stage
  finish_stage-Safe job worker_id running payloads = search stage_rules

  detect-Safe :
      (job : ExecutionJob) (stage : StageExecution) (run : AnalysisRun) (duration : Number)
      (payloads : Option Payloads)
      → Safe host.sha256 (Stages.detect host job stage run duration payloads)
  unfolding Stages.detect
  detect-Safe job stage run duration payloads = search stage_rules

  fail_in_test-Safe :
      (job : ExecutionJob) (index : ℕ) → Safe host.sha256 (Stages.fail_in_test host job index)
  unfolding Stages.fail_in_test
  fail_in_test-Safe job index = search stage_rules

  ruleset round_rules = (
    stage_rules, skip_stage-Safe, start_stage-Safe, finish_stage-Safe, detect-Safe,
    fail_in_test-Safe,
  )

  run_stage-Safe :
      (job : ExecutionJob) (worker_id : String) (duration : Number) (index : ℕ)
      (stage : StageExecution) (run : AnalysisRun) (payloads : Option Payloads)
      → Safe host.sha256 (Stages.run_stage host job worker_id duration index stage run payloads)
  unfolding Stages.run_stage
  run_stage-Safe job worker_id duration index stage run payloads = search round_rules depth 20

  round-Safe :
      (job : ExecutionJob) (worker_id : String) (duration : Number) (index : ℕ)
      (stage : StageExecution) (run : AnalysisRun) (payloads : Option Payloads)
      → Safe host.sha256 (Stages.round host job worker_id duration index stage run payloads)
  unfolding Stages.round
  round-Safe job worker_id duration index stage run payloads = search (round_rules, run_stage-Safe)

  run_stages-Safe :
      (job : ExecutionJob) (worker_id : String) (duration : Number) (index : ℕ)
      (stages : List StageExecution) (run : AnalysisRun) (payloads : Option Payloads)
      → Safe host.sha256 (Stages.run_stages host job worker_id duration index stages run payloads)
  unfolding Stages.run_stages
  run_stages-Safe job worker_id duration index [] run payloads = search safe_rules
  run_stages-Safe job worker_id duration index (stage ∷ stages) run payloads =
      search (safe_rules, round-Safe, run_stages-Safe job worker_id duration (suc index) stages)

  write_payload-Safe :
      (run_id artifact_id : String) (payload : Payload)
      → Safe host.sha256 (Publication.write_payload host run_id artifact_id payload)
  unfolding Publication.write_payload
  write_payload-Safe run_id artifact_id (generated a) = search (safe_rules)
  write_payload-Safe run_id artifact_id (document payload) = search safe_rules depth 10

  write_payloads-Safe :
      (run_id : String) (payloads : Payloads) (artifacts : List ArtifactReference)
      → Safe host.sha256 (Publication.write_payloads host run_id payloads artifacts)
  unfolding Publication.write_payloads
  write_payloads-Safe run_id [] artifacts = search safe_rules
  write_payloads-Safe run_id ((i, payload) ∷ payloads) artifacts =
      search (safe_rules, write_payload-Safe, write_payloads-Safe run_id payloads)

  write_summary_alias-Safe :
      (run_id : String) (payloads : Payloads)
      → Safe host.sha256 (Publication.write_summary_alias host run_id payloads)
  unfolding Publication.write_summary_alias
  write_summary_alias-Safe run_id payloads = search safe_rules depth 10

  write_advisory_alias-Safe :
      (run_id : String) (payloads : Payloads)
      → Safe host.sha256 (Publication.write_advisory_alias host run_id payloads)
  unfolding Publication.write_advisory_alias
  write_advisory_alias-Safe run_id payloads = search safe_rules depth 10

  check_integrity-Safe :
      (run_id : String) (artifacts : List ArtifactReference)
      → Safe host.sha256 (Publication.check_integrity host run_id artifacts)
  unfolding Publication.check_integrity
  check_integrity-Safe run_id [] = search safe_rules
  check_integrity-Safe run_id (a ∷ artifacts) = >>=-Safe _ _ (reading-Safe host shared _) λ intact.
      >>=-Safe _ _ (if-Safe intact (lift-Safe _) (lift-Safe _))
        λ _. check_integrity-Safe run_id artifacts

  complete-Safe :
      (run_id : String) (artifacts : List ArtifactReference)
      → Safe host.sha256 (Publication.complete host run_id artifacts)
  unfolding Publication.complete
  complete-Safe run_id artifacts = search safe_rules depth 12

  publish_built-Safe :
      (job : ExecutionJob) (run : AnalysisRun) (payloads : Payloads)
      → Safe host.sha256 (Publication.publish_built host job run payloads)
  unfolding Publication.publish_built
  publish_built-Safe job run payloads =
      search
        (
          safe_rules, write_payloads-Safe, write_summary_alias-Safe, write_advisory_alias-Safe,
          check_integrity-Safe, complete-Safe,
        )
        depth 10

  publish-Safe :
      (job : ExecutionJob) (run : AnalysisRun) (duration : Number) (payloads : Option Payloads)
      → Safe host.sha256 (Publication.publish host job run duration payloads)
  unfolding Publication.publish
  publish-Safe job run duration none = search (stage_rules, publish_built-Safe)
  publish-Safe job run duration (some payloads) = publish_built-Safe job run payloads

  cancelled_stages-Safe :
      (active : Option ℕ) (stages : List StageExecution)
      → Safe host.sha256 (cancelled_stages host active stages)
  unfolding cancelled_stages
  cancelled_stages-Safe none stages = search safe_rules
  cancelled_stages-Safe (some index) stages = search safe_rules depth 10

  failed_stages-Safe :
      (raised : Raised) (active : Option ℕ) (stages : List StageExecution)
      → Safe host.sha256 (failed_stages host raised active stages)
  unfolding failed_stages
  failed_stages-Safe raised none stages = search safe_rules
  failed_stages-Safe raised (some index) stages = search safe_rules depth 12

  stop_cancelled-Safe : (job : ExecutionJob) → Safe host.sha256 (stop_cancelled host job)
  unfolding stop_cancelled
  stop_cancelled-Safe job = search (safe_rules, cancelled_stages-Safe) depth 10

  stop_failed-Safe :
      (job : ExecutionJob) (raised : Raised) → Safe host.sha256 (stop_failed host job raised)
  unfolding stop_failed
  stop_failed-Safe job raised = search (safe_rules, failed_stages-Safe) depth 14

  stop-Safe : (job : ExecutionJob) (raised : Raised) → Safe host.sha256 (stop host job raised)
  unfolding stop
  stop-Safe job cancellation_observed = stop_cancelled-Safe job
  stop-Safe job (execution_failure code message) = stop_failed-Safe job _
  stop-Safe job (store_raised e) = stop_failed-Safe job _
  stop-Safe job (contract_raised v) = stop_failed-Safe job _
  stop-Safe job python_raised = stop_failed-Safe job _

  run_attempt-Safe :
      (job : ExecutionJob) (worker_id : String) (run : AnalysisRun) (duration : Number)
      → Safe host.sha256 (run_attempt host job worker_id run duration)
  unfolding run_attempt
  run_attempt-Safe job worker_id run duration = search (safe_rules, run_stages-Safe, publish-Safe)

  attempt-Safe :
      (job : ExecutionJob) (worker_id : String) (run : AnalysisRun)
      → Safe host.sha256 (attempt host job worker_id run)
  unfolding attempt
  attempt-Safe job worker_id run = search (safe_rules, run_attempt-Safe, stop-Safe)

  begin-Safe :
      (job : ExecutionJob) (worker_id : String) (run : AnalysisRun)
      → Safe host.sha256 (begin host job worker_id run)
  unfolding begin
  begin-Safe job worker_id run = search (safe_rules, attempt-Safe) depth 10

  pub execute-Safe :
      (job : ExecutionJob) (worker_id : String) → Safe host.sha256 (execute host job worker_id)
  unfolding execute
  execute-Safe job worker_id = search (safe_rules, begin-Safe, attempt-Safe)
