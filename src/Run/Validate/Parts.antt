-- ===== src/Run/Validate/Parts.antt =====
-- The `__post_init__` methods of the parts of a run, in v2/src/footballai_v2/contracts/v1/analysis_run.py.
use football_ai.Prelude.{
  String, Bool, false, not, ◌&&◌, ◌||◌, Option, none, some, List, [], ◌∷◌, is_some, distinct, ltb,
  ◌==◌, String-discrete,
}
use football_ai.Prelude.Result.{ok, err, raise_if, ◌>>◌}
use football_ai.Run.Status.{StageStatus, is_terminal_stage, stage_status_is}
use football_ai.Run.Record.{
  InputReference, CodeReference, ModelReference, ArtifactReference, StructuredError, StageExecution,
  Datetime,
}
use football_ai.Run.Text.{path_error}
use football_ai.Run.Text.Identifiers.{non_empty, is_identifier, is_sha256, is_git_revision}
use football_ai.Run.Checks.{
  Check, Checked, validate_json_fields, validate_safe_text, validate_safe_details,
  progress_in_range, progress_is_full, empty_text, bad_identifier, bad_sha256, bad_revision,
  bad_progress, bad_attempt, finished_before_started, queued_stage_has_times, running_stage_times,
  terminal_stage_unfinished, succeeded_stage_progress, failed_stage_without_error,
  duplicate_produced, bad_path,
}

abbrev pub check_optional : {A : Type 0} → (A → Check) → Option A → Check
check_optional f none = ok tt
check_optional f (some a) = f a

abbrev pub check_all : {A : Type 0} → (A → Check) → List A → Check
check_all f [] = ok tt
check_all f (x ∷ xs) = f x >> check_all f xs

-- `a is not None and b is not None and b < a`
abbrev pub precedes : Option Datetime → Option Datetime → Bool
precedes (some b) (some a) = ltb b a
precedes _ _ = false

unfoldable pub validate_input : InputReference → Check
validate_input i = do
  raise_if (not (non_empty i.uri)) empty_text
  raise_if (not (non_empty i.media_type)) empty_text
  raise_if (not (is_sha256 i.sha256)) bad_sha256

unfoldable pub validate_code : CodeReference → Check
validate_code c = do
  raise_if (not (non_empty c.repository)) empty_text
  raise_if (not (is_git_revision c.revision)) bad_revision

unfoldable pub validate_model : ModelReference → Check
validate_model m = do
  raise_if (not (non_empty m.name)) empty_text
  raise_if (not (non_empty m.version)) empty_text
  check_optional (λ s. raise_if (not (is_sha256 s)) bad_sha256) m.sha256

check_path : String → Check
check_path s = elim (path_error s) [ none ↦ ok tt | some e ↦ err (bad_path e) ]

unfoldable pub validate_artifact : ArtifactReference → Check
unfolding check_path
validate_artifact a = do
  raise_if (not (is_identifier a.artifact_id)) bad_identifier
  raise_if (not (non_empty a.name)) empty_text
  check_path a.relative_path
  raise_if (not (non_empty a.media_type)) empty_text
  raise_if (not (is_sha256 a.sha256)) bad_sha256
  check_optional (λ s. raise_if (not (non_empty s)) empty_text) a.schema_version

unfoldable pub validate_error : StructuredError → Check
validate_error e = do
  raise_if (not (is_identifier e.error_code)) bad_identifier
  validate_safe_text e.safe_message
  check_optional validate_safe_details e.technical_details

-- The timing rules of a stage.
stage_times : StageExecution → Check
stage_times s = do
  raise_if (precedes s.finished_at s.started_at) finished_before_started
  raise_if
      (stage_status_is s.status StageStatus.queued
        && (is_some s.started_at || is_some s.finished_at))
      queued_stage_has_times
  raise_if
      (stage_status_is s.status StageStatus.running
        && (not (is_some s.started_at) || is_some s.finished_at))
      running_stage_times
  raise_if (is_terminal_stage s.status && not (is_some s.finished_at)) terminal_stage_unfinished

-- `StageExecution.__post_init__`
unfoldable pub validate_stage : StageExecution → Check
unfolding stage_times
validate_stage s = do
  raise_if (not (is_identifier s.stage_id)) bad_identifier
  raise_if (not (progress_in_range s.progress_percent)) bad_progress
  raise_if (s.attempt_number == 0) bad_attempt
  stage_times s
  raise_if
      (stage_status_is s.status StageStatus.succeeded && not (progress_is_full s.progress_percent))
      succeeded_stage_progress
  raise_if (stage_status_is s.status StageStatus.failed && not (is_some s.error))
      failed_stage_without_error
  raise_if (not (distinct String-discrete s.produced_artifact_ids)) duplicate_produced
  check_all (λ a. raise_if (not (is_identifier a)) bad_identifier) s.produced_artifact_ids
  validate_json_fields s.performance_metrics
  check_optional validate_safe_text s.message

unfoldable pub checked_stage : StageExecution → Checked StageExecution
checked_stage s = validate_stage s >> ok s

unfoldable pub checked_artifact : ArtifactReference → Checked ArtifactReference
checked_artifact a = validate_artifact a >> ok a

unfoldable pub checked_error : StructuredError → Checked StructuredError
checked_error e = validate_error e >> ok e
