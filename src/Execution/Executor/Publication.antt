-- ===== src/Execution/Executor/Publication.antt =====
-- The publication of a finished attempt by `AnalysisExecutor.execute` in
-- v2/src/footballai_v2/execution/executor.py.
use Prim.Native.String.{◌++◌ as append}
use football_ai.Prelude.{
  String, true, false, Option, none, some, List, [], ◌∷◌, ◌++◌, map, if◌then◌else◌,
}
use football_ai.Prelude.Dict
use football_ai.Run.Json.{get, object, Number}
use football_ai.Run.Status.{ArtifactCategory, AnalysisRunStatus}
use football_ai.Run.Record.{AnalysisRun, ArtifactReference}
use football_ai.Run.Transition.{succeed, complete_partial}
use football_ai.Execution.Job.{ExecutionJob}
use football_ai.Prelude.Action.{◌>>=◌, ◌>>◌, lift, pure, throw}
use football_ai.Execution.Executor.World.{
  execution_failure, Payload, document, generated, Payloads, Host, Act, or_python, now,
  save_applied, repository_load, storage_write, storage_integrity,
}
use football_ai.Execution.Executor.Produced.{
  known_artifact, schema_version_of, as_document, published_stages, is_true, stopped_stages,
}
use football_ai.Execution.Executor.Stages.{build_artifacts}

module _ (host : Host) where
  -- One item of the payloads.
  unfoldable pub write_payload : (run_id artifact_id : String) → Payload → Act ArtifactReference
  write_payload run_id artifact_id (generated a) =
      storage_write host run_id a.artifact_id a.name a.category a.relative_path a.content
        a.media_type (some a.schema_version)
  write_payload run_id artifact_id (document payload) = do
    (name, category) ← lift (or_python (known_artifact artifact_id))
    content ← lift (host.dumps true (object payload))
    schema ← lift (or_python (get payload "schema"))
    storage_write host run_id artifact_id name category
        (append "artifacts/" (append artifact_id ".json")) content "application/json"
        (schema_version_of schema)

  unfoldable pub write_payloads :
      String → Payloads → List ArtifactReference → Act (List ArtifactReference)
  write_payloads run_id [] artifacts = pure artifacts
  write_payloads run_id ((i, payload) ∷ payloads) artifacts = do
    a ← write_payload run_id i payload
    write_payloads run_id payloads (artifacts ++ (a ∷ []))

  -- The two aliases that the dashboard reads.
  unfoldable pub write_summary_alias : String → Payloads → Act ArtifactReference
  write_summary_alias run_id payloads = do
    payload ← lift (or_python (Dict.get payloads "track-summary"))
    summary ← lift (as_document payload)
    content ← lift (host.dumps false (object summary))
    storage_write host run_id "legacy-player-summary" "Dashboard track summary"
        ArtifactCategory.summary "artifacts/dashboard-track-summary.json" content "application/json"
        (some "footballai.track-summary/v1")

  unfoldable pub write_advisory_alias : String → Payloads → Act ArtifactReference
  write_advisory_alias run_id payloads = do
    payload ← lift (or_python (Dict.get payloads "workload-advisory"))
    advisory ← lift (as_document payload)
    tracks ← lift (or_python (get advisory "tracks"))
    content ← lift (host.dumps false tracks)
    storage_write host run_id "dashboard-workload-advisory" "Dashboard workload advisory"
        ArtifactCategory.workload_advisory "artifacts/dashboard-workload-advisory.json" content
        "application/json" (some "footballai.workload-advisory/v1")

  -- The gate: every published artifact reads back with its bytes.
  unfoldable pub check_integrity : String → List ArtifactReference → Act (Unit {0})
  check_integrity run_id [] = pure tt
  check_integrity run_id (a ∷ artifacts) = do
    intact ← storage_integrity host run_id a
    (if intact
        then pure tt
        else throw (
            execution_failure "artifact_integrity_failed"
              "A generated artifact failed integrity verification."))
    check_integrity run_id artifacts

  -- The last call of the attempt, `succeed` or `complete_partial`.
  unfoldable pub complete : String → List ArtifactReference → Act AnalysisRunStatus
  complete run_id artifacts = do
    current ← repository_load host run_id
    stages ← lift (published_stages current.stages (map (λ a. a.artifact_id) artifacts))
    if is_true (get current.parameters "force_partial")
        then (do
          stopped ← lift (stopped_stages stages)
          at ← now host
          run ←
              save_applied host
                (complete_partial artifacts "Controlled partial completion with useful artifacts."
                  at stopped)
                current
          pure run.status)
        else (do
          at ← now host
          run ← save_applied host (succeed artifacts at stages) current
          pure run.status)

  unfoldable pub publish_built : ExecutionJob → AnalysisRun → Payloads → Act AnalysisRunStatus
  publish_built job run payloads = do
    written ← write_payloads run.run_id payloads []
    summary ← write_summary_alias run.run_id payloads
    advisory ← write_advisory_alias run.run_id payloads
    let artifacts = written ++ (summary ∷ advisory ∷ [])
    check_integrity run.run_id artifacts
    complete job.run_id artifacts

  -- What `execute` does after its loop.
  unfoldable pub publish :
      ExecutionJob → AnalysisRun → Number → Option Payloads → Act AnalysisRunStatus
  publish job run duration none = do
    payloads ← build_artifacts host job run duration
    publish_built job run payloads
  publish job run duration (some payloads) = publish_built job run payloads
