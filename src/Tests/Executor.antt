-- ===== src/Tests/Executor.antt =====
-- `AnalysisExecutor.execute` of v2/src/footballai_v2/execution/executor.py on the sample run.
use football_ai.Prelude.{◌≡◌, refl, String, Bool, true, false, none, some, [], ◌∷◌, arith}
use football_ai.Prelude.Result.{ok}
use football_ai.Run.Json.{finite, pos, end, field, named, text, array, nil, get}
use football_ai.Run.Status.{succeeded, cancelled, ArtifactCategory, StageStatus}
use football_ai.Run.Record.{AnalysisRun, ArtifactReference}
use football_ai.Storage.Local.{
  materialize_input, put_input_file, request_cancellation, cancellation_requested,
  artifact_reference_integrity,
}
use football_ai.Storage.Local.Directory.{Store, load}
use football_ai.Storage.Local.History.{History, here, next, created, input_put}
use football_ai.Execution.Job.{ExecutionJob}
use football_ai.Prelude.Action.{◌>>=◌, lift, rescue}
use football_ai.Execution.Executor.World.{
  Payloads, document, Host, World, set_active, get_active, reading, now, step, repository_save,
  save_applied, storage_write,
}
use football_ai.Execution.Executor.Safe.{SharedStore}
use football_ai.Execution.Executor.Ends.{Outcome}
use football_ai.Execution.Executor.Recorded.{execute-Outcome, execute-terminal}
use football_ai.Execution.Executor.Publication.{publish_built}
use football_ai.Execution.Executor.Completed.{Completed, publish_built-Completed}
use football_ai.Execution.Executor.Cancelled.{cancelled_at, execute-cancelled}
use football_ai.Run.Validate.{validate_run}
use football_ai.Execution.Executor.Stages
use football_ai.Execution.Executor.Produced
use football_ai.Execution.Executor.Publication
use football_ai.Execution.Executor.{
  execute, begin, attempt, run_attempt, stop, stop_cancelled, stop_failed, cancelled_stages,
  failed_stages, public_error,
}
use football_ai.Tests.Samples.{
  digest, run_id, queued_run, queued_stage, running_run, finished_stage, succeeded_run,
}
use football_ai.Tests.Storage.{
  storage, constant_digest, content, holding, artifact_files, created_example, loaded_succeeded,
}

abbrev payloads : Payloads
payloads =
    ("track-summary", document (field (named "schema") (text "footballai.track-summary/v1") end))
    ∷ (
      "workload-advisory",
      document (
          field (named "schema") (text "footballai.workload-advisory/v1")
            (field (named "tracks") (array nil) end)),
    )
    ∷ []

-- A worker that has the store to itself, a clock that stands still, and an adapter with two payloads.
abbrev host : Host
host = record {
  sha256 = constant_digest;
  interfere = λ n s. s;
  clock = λ n. 20;
  float = λ value. ok (finite (pos 0));
  dumps = λ indent value. ok content;
  build_artifacts = λ is_v1_compat run duration bytes step. ok payloads;
  stage_result = λ job worker_id stage payloads. ok end;
}

abbrev job : ExecutionJob
job = record {
  job_id = "3f2504e0-4f89-41d3-9a0c-0305e82c3302";
  run_id = run_id;
  logical_analysis_id = "9b2d5b4c-1111-4222-8333-123456789abc";
  attempt_number = 1;
  pipeline_profile = "demo_fast";
  created_at = 10;
  claimed_at = some 15;
  worker_id = some "worker-1";
}

abbrev with_input : Bool → Store
with_input marker =
    (
      run_id,
      record {
        manifest = queued_run;
        cancel_marker = marker;
        inputs = ("source.mp4", content) ∷ [];
        files = [];
      },
    )
    ∷ []

abbrev world : Store → World
world s = record { store = s; ticks = 0; active_index = none }

-- What the executor computes with.
execution : Unit {0}
unfolding storage execute begin attempt run_attempt stop stop_cancelled stop_failed cancelled_stages
    failed_stages public_error ◌>>=◌ lift rescue set_active get_active reading now step
    repository_save save_applied storage_write Stages.checkpoint Stages.build_artifacts
    Stages.save_stage Stages.started Stages.skip_stage Stages.detect Stages.start_stage
    Stages.finish_stage Stages.fail_in_test Stages.run_stage Stages.round Stages.run_stages
    Stages.duration_of Produced.known_artifact Produced.produced_by Produced.published_stages
    Produced.stopped_stages Publication.write_payload Publication.write_payloads
    Publication.write_summary_alias Publication.write_advisory_alias Publication.check_integrity
    Publication.complete Publication.publish_built Publication.publish get materialize_input
    put_input_file cancellation_requested artifact_reference_integrity request_cancellation
execution = tt

returned_example : (execute host job "worker-1" (world (with_input false))).0 ≡ ok succeeded
unfolding execution
returned_example = refl

alone : SharedStore host
alone = record { calls = λ n s. here }

-- The store before the worker, built up by calls.
past : History constant_digest [] (with_input false)
unfolding execution
past = next (next here (created queued_run created_example)) (input_put run_id content ".mp4" refl)

execute-Outcome_example :
    History constant_digest
      (with_input false)
      (execute host job "worker-1" (world (with_input false))).1.store
    × Outcome run_id (execute host job "worker-1" (world (with_input false)))
execute-Outcome_example = execute-Outcome host job "worker-1" (world (with_input false)) alone

execute-terminal_example :
    execute host job "worker-1" (world (holding succeeded_run artifact_files))
    ≡ (ok succeeded, record (world (holding succeeded_run artifact_files)) { ticks = 1 })
execute-terminal_example =
    execute-terminal host job "worker-1" (world (holding succeeded_run artifact_files))
      succeeded_run alone loaded_succeeded refl

abbrev reference : (artifact_id name path : String) → ArtifactCategory → String → ArtifactReference
reference artifact_id name path category schema = record {
  artifact_id = artifact_id;
  name = name;
  category = category;
  relative_path = path;
  media_type = "application/json";
  sha256 = digest;
  size_bytes = 2;
  schema_version = some schema;
}

abbrev track_summary : ArtifactReference
track_summary =
    reference "track-summary" "Track Summary" "artifacts/track-summary.json" ArtifactCategory.tracks
      "footballai.track-summary/v1"

abbrev published : AnalysisRun
published = record queued_run {
  status = succeeded;
  artifacts =
      track_summary
      ∷ reference "workload-advisory" "Workload Advisory" "artifacts/workload-advisory.json"
          ArtifactCategory.workload_advisory "footballai.workload-advisory/v1"
      ∷ reference "legacy-player-summary" "Dashboard track summary"
          "artifacts/dashboard-track-summary.json" ArtifactCategory.summary
          "footballai.track-summary/v1"
      ∷ reference "dashboard-workload-advisory" "Dashboard workload advisory"
          "artifacts/dashboard-workload-advisory.json" ArtifactCategory.workload_advisory
          "footballai.workload-advisory/v1"
      ∷ [];
  stages =
      record queued_stage {
        status = StageStatus.succeeded;
        progress_percent = finite (pos 100000000);
        started_at = some 20;
        finished_at = some 20;
        message = some "Ingestion completed";
      }
      ∷ [];
  started_at = some 20;
  completed_at = some 20;
}

loaded_published :
    load (execute host job "worker-1" (world (with_input false))).1.store run_id ≡ ok published
unfolding execution
loaded_published = refl

-- The run with its stages done, before its artifacts are published.
abbrev ready : AnalysisRun
ready = record running_run { stages = finished_stage ∷ [] }

abbrev before_publication : World
before_publication = world (holding ready [])

published_payloads :
    publish_built host job ready payloads before_publication
    ≡ (ok succeeded, (publish_built host job ready payloads before_publication).1)
unfolding execution
published_payloads = refl

publish_built-Completed_example :
    Completed run_id payloads succeeded
      (publish_built host job ready payloads before_publication).1.store
publish_built-Completed_example =
    publish_built-Completed host job ready payloads before_publication
      (publish_built host job ready payloads before_publication).1 succeeded published_payloads

loaded_queued : load (with_input true) run_id ≡ ok queued_run
unfolding execution
loaded_queued = refl

requested : cancellation_requested (with_input true) run_id ≡ ok true
unfolding execution
requested = refl

valid : validate_run queued_run ≡ ok tt
unfolding execution
valid = refl

execute-cancelled_example :
    ((execute host job "worker-1" (world (with_input true))).0 ≡ ok cancelled)
    × (load (execute host job "worker-1" (world (with_input true))).1.store run_id
        ≡ ok (cancelled_at 20 queued_run))
execute-cancelled_example =
    execute-cancelled host job "worker-1" (world (with_input true)) queued_run (λ n s. refl)
      loaded_queued requested refl valid refl (omega arith)
