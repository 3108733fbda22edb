-- ===== src/Tests/Samples.antt =====
-- A run with one stage and one artifact, through its life.
use football_ai.Prelude.{◌≡◌, refl, String, true, false, none, some, String-discrete, [], ◌∷◌}
use football_ai.Prelude.Result.{ok}
use football_ai.Run.Json.{pos, finite, end, field, named, text}
use football_ai.Run.Status.{
  DataOrigin, AnalysisRunStatus, queued, StageName, StageName-discrete, StageStatus,
  ArtifactCategory,
}
use football_ai.Run.Record.{AnalysisRun, StageExecution, ArtifactReference}
use football_ai.Run.Validate.{
  supported_version, checked_run, validate_run, validate_identity, validate_times,
  validate_unique_dependencies, validate_stage_artifact_links, validate_lifecycle,
}
use football_ai.Run.Validate.Parts.{
  checked_stage, checked_artifact, checked_error, validate_stage, validate_artifact, validate_error,
}
use football_ai.Run.Checks.{
  validate_json_fields, safe_fields, validate_safe_text, validate_safe_details,
}
use football_ai.Run.Text.{is_unsafe, is_sensitive, path_error}
use football_ai.Run.Text.Identifiers.{is_uuid_v4, non_empty, is_identifier, is_sha256}
use football_ai.Run.Transition.{start, succeed, apply}

abbrev pub digest : String
digest = "0123456789abcdef0123456789abcdef0123456789abcdef0123456789abcdef"

abbrev pub run_id : String
run_id = "3f2504e0-4f89-41d3-9a0c-0305e82c3301"

abbrev pub queued_stage : StageExecution
queued_stage = record {
  stage_id = "ingestion";
  stage_name = StageName.ingestion;
  required = true;
  status = StageStatus.queued;
  progress_percent = finite (pos 0);
  attempt_number = 1;
  started_at = none;
  finished_at = none;
  produced_artifact_ids = [];
  error = none;
  performance_metrics = end;
  message = none;
}

abbrev pub finished_stage : StageExecution
finished_stage = record queued_stage {
  status = StageStatus.succeeded;
  progress_percent = finite (pos 100000000);
  started_at = some 11;
  finished_at = some 12;
}

abbrev pub queued_run : AnalysisRun
queued_run = record {
  logical_analysis_id = "9b2d5b4c-1111-4222-8333-123456789abc";
  run_id = run_id;
  attempt_number = 1;
  previous_attempt_run_id = none;
  status = queued;
  data_origin = DataOrigin.synthetic;
  input = record { uri = "run-input://source.mp4"; sha256 = digest; media_type = "video/mp4" };
  code = record {
    repository = "https://github.com/azizbenammar7/FootballAi";
    revision = "0000000000000000000000000000000000000000";
    dirty = false;
  };
  pipeline_version = "demo_fast/1.0.0";
  parameters = field (named "pipeline_profile") (text "demo_fast") end;
  models = [];
  artifacts = [];
  stages = queued_stage ∷ [];
  created_at = 10;
  started_at = none;
  completed_at = none;
  failure = none;
  partial_reason = none;
  cancellation_reason = none;
  contract_version = supported_version;
}

abbrev pub running_run : AnalysisRun
running_run = record queued_run { status = AnalysisRunStatus.running; started_at = some 11 }

abbrev pub summary : ArtifactReference
summary = record {
  artifact_id = "team-summary";
  name = "Team Summary";
  category = ArtifactCategory.summary;
  relative_path = "artifacts/team-summary.json";
  media_type = "application/json";
  sha256 = digest;
  size_bytes = 2;
  schema_version = none;
}

abbrev pub succeeded_run : AnalysisRun
succeeded_run = record running_run {
  status = AnalysisRunStatus.succeeded;
  artifacts = summary ∷ [];
  stages = finished_stage ∷ [];
  completed_at = some 13;
}

-- What a run's checks compute with.
unfoldable pub validation : Unit {0}
unfolding apply checked_run checked_stage checked_artifact checked_error validate_run
    validate_identity validate_times validate_unique_dependencies validate_stage_artifact_links
    validate_lifecycle validate_stage validate_artifact validate_error validate_json_fields
    safe_fields validate_safe_text validate_safe_details is_uuid_v4 non_empty is_identifier
    is_sha256 is_unsafe is_sensitive path_error String-discrete StageName-discrete
validation = tt

pub start_example : apply (start 11 none) queued_run ≡ ok running_run
unfolding validation
start_example = refl

pub succeed_example :
    apply (succeed (summary ∷ []) 13 (finished_stage ∷ [])) running_run ≡ ok succeeded_run
unfolding validation
succeed_example = refl
