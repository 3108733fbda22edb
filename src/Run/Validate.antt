-- ===== src/Run/Validate.antt =====
-- The `__post_init__` methods of v2/src/footballai_v2/contracts/v1/analysis_run.py, with the
-- checks in the order of the source. A field's type stands for the `isinstance` tests on it.
pub mod Parts
use football_ai.Prelude.{
  ℕ, String, Bool, false, not, ◌&&◌, ◌||◌, Option, none, some, List, [], ◌∷◌, map, any, is_empty,
  is_some, distinct, member, ltb, ◌==◌, if◌then◌else◌, String-discrete, str_eq,
}
use football_ai.Prelude.Result.{ok, err, raise_if, ◌>>◌}
use football_ai.Run.Status.{
  AnalysisRunStatus, queued, running, succeeded, partial, failed, cancelled, StageStatus,
  is_terminal_stage, stage_status_is, StageName-discrete,
}
use football_ai.Run.Record.{
  InputReference, CodeReference, ModelReference, ArtifactReference, StructuredError, StageExecution,
  AnalysisRun, Datetime,
}
use football_ai.Run.Text.{path_error}
use football_ai.Run.Text.Identifiers.{
  non_empty, is_identifier, is_sha256, is_git_revision, is_uuid_v4,
}
use football_ai.Run.Checks.{
  Check, Checked, validate_json_fields, validate_safe_text, validate_safe_details,
  progress_in_range, progress_is_full, empty_text, bad_identifier, bad_sha256, bad_revision,
  bad_uuid, bad_progress, bad_attempt, finished_before_started, queued_stage_has_times,
  running_stage_times, terminal_stage_unfinished, succeeded_stage_progress,
  failed_stage_without_error, duplicate_produced, bad_path, bad_contract_version,
  first_attempt_has_previous, retry_without_previous, previous_is_self, started_before_created,
  completed_before_start, duplicate_models, duplicate_artifact_ids, duplicate_artifact_names,
  duplicate_artifact_paths, duplicate_stage_ids, duplicate_stage_names, stage_attempt_mismatch,
  unknown_artifact_ids, queued_run_fields, queued_run_stages, running_run_fields,
  succeeded_run_fields, succeeded_run_empty, succeeded_run_active_stages,
  succeeded_run_required_stages, partial_run_fields, partial_run_empty, partial_run_active_stages,
  partial_run_complete, failed_run_fields, failed_run_running_stage, cancelled_run_fields,
  cancelled_run_running_stage,
}
use football_ai.Run.Validate.Parts.{
  check_all, check_optional, checked_artifact, checked_error, checked_stage, precedes,
  validate_artifact, validate_code, validate_error, validate_input, validate_model, validate_stage,
}

abbrev pub supported_version : String
supported_version = "footballai.analysis-run/v1"

-- `_validate_unique_dependencies`
unfoldable pub validate_unique_dependencies : AnalysisRun → Check
validate_unique_dependencies r = do
  raise_if (not (distinct String-discrete (map (λ m. m.name) r.models))) duplicate_models
  raise_if (not (distinct String-discrete (map (λ a. a.artifact_id) r.artifacts)))
      duplicate_artifact_ids
  raise_if (not (distinct String-discrete (map (λ a. a.name) r.artifacts))) duplicate_artifact_names
  raise_if (not (distinct String-discrete (map (λ a. a.relative_path) r.artifacts)))
      duplicate_artifact_paths
  raise_if (not (distinct String-discrete (map (λ s. s.stage_id) r.stages))) duplicate_stage_ids
  raise_if (not (distinct StageName-discrete (map (λ s. s.stage_name) r.stages)))
      duplicate_stage_names

-- One round of the loop of `_validate_stage_artifact_links`
check_links : AnalysisRun → StageExecution → Check
check_links r s = do
  raise_if (not (s.attempt_number == r.attempt_number)) stage_attempt_mismatch
  raise_if
      (any (λ i. not (member String-discrete i (map (λ a. a.artifact_id) r.artifacts)))
        s.produced_artifact_ids)
      unknown_artifact_ids

unfoldable pub validate_stage_artifact_links : AnalysisRun → Check
unfolding check_links
validate_stage_artifact_links r = check_all (check_links r) r.stages

-- `bool(text)`
abbrev truthy : Option String → Bool
truthy none = false
truthy (some s) = not (str_eq s "")

abbrev is_active : StageExecution → Bool
is_active s =
    stage_status_is s.status StageStatus.queued || stage_status_is s.status StageStatus.running

abbrev is_incomplete : StageExecution → Bool
is_incomplete s =
    stage_status_is s.status StageStatus.partial
    || stage_status_is s.status StageStatus.failed
    || stage_status_is s.status StageStatus.cancelled
    || stage_status_is s.status StageStatus.skipped

-- The branches of `_validate_lifecycle`, one for each status.
lifecycle_of : AnalysisRunStatus → AnalysisRun → Check
lifecycle_of queued r = do
  raise_if
      (is_some r.started_at
        || is_some r.completed_at
        || is_some r.failure
        || not (is_empty r.artifacts)
        || truthy r.partial_reason
        || truthy r.cancellation_reason)
      queued_run_fields
  raise_if (any (λ s. not (stage_status_is s.status StageStatus.queued)) r.stages) queued_run_stages
lifecycle_of running r =
    raise_if
      (not (is_some r.started_at)
        || is_some r.completed_at
        || is_some r.failure
        || not (is_empty r.artifacts)
        || truthy r.partial_reason
        || truthy r.cancellation_reason)
      running_run_fields
lifecycle_of succeeded r = do
  raise_if
      (not (is_some r.started_at)
        || not (is_some r.completed_at)
        || is_some r.failure
        || is_some r.partial_reason
        || is_some r.cancellation_reason)
      succeeded_run_fields
  raise_if (is_empty r.artifacts || is_empty r.stages) succeeded_run_empty
  raise_if (any is_active r.stages) succeeded_run_active_stages
  raise_if (any (λ s. s.required && not (stage_status_is s.status StageStatus.succeeded)) r.stages)
      succeeded_run_required_stages
lifecycle_of partial r = do
  raise_if
      (not (is_some r.started_at)
        || not (is_some r.completed_at)
        || is_some r.failure
        || not (is_some r.partial_reason)
        || is_some r.cancellation_reason)
      partial_run_fields
  raise_if (is_empty r.artifacts) partial_run_empty
  raise_if (is_empty r.stages || any is_active r.stages) partial_run_active_stages
  raise_if (not (any (λ s. s.required && is_incomplete s) r.stages)) partial_run_complete
lifecycle_of failed r = do
  raise_if
      (not (is_some r.completed_at)
        || not (is_some r.failure)
        || not (is_empty r.artifacts)
        || is_some r.partial_reason
        || is_some r.cancellation_reason)
      failed_run_fields
  raise_if (any (λ s. stage_status_is s.status StageStatus.running) r.stages)
      failed_run_running_stage
lifecycle_of cancelled r = do
  raise_if
      (not (is_some r.completed_at)
        || is_some r.failure
        || not (is_empty r.artifacts)
        || is_some r.partial_reason)
      cancelled_run_fields
  raise_if (any (λ s. stage_status_is s.status StageStatus.running) r.stages)
      cancelled_run_running_stage

-- `_validate_lifecycle`
unfoldable pub validate_lifecycle : AnalysisRun → Check
unfolding lifecycle_of
validate_lifecycle r = lifecycle_of r.status r

-- The attempt number and the predecessor, of `AnalysisRun.__post_init__`.
check_previous : ℕ → Option String → Check
check_previous n previous =
    if n == 1 then raise_if (is_some previous) first_attempt_has_previous else elim previous [
      | none ↦ err retry_without_previous
      | some p ↦ raise_if (not (is_uuid_v4 p)) bad_uuid
    ]

abbrev is_text : Option String → String → Bool
is_text none t = false
is_text (some s) t = str_eq s t

unfoldable pub validate_identity : AnalysisRun → Check
unfolding check_previous
validate_identity r = do
  raise_if (not (str_eq r.contract_version supported_version)) bad_contract_version
  raise_if (not (is_uuid_v4 r.logical_analysis_id)) bad_uuid
  raise_if (not (is_uuid_v4 r.run_id)) bad_uuid
  raise_if (r.attempt_number == 0) bad_attempt
  check_previous r.attempt_number r.previous_attempt_run_id
  raise_if (is_text r.previous_attempt_run_id r.run_id) previous_is_self
  raise_if (not (non_empty r.pipeline_version)) empty_text
  validate_json_fields r.parameters

-- `self.started_at or self.created_at`
abbrev or_else : Option Datetime → Datetime → Datetime
or_else none d = d
or_else (some a) d = a

unfoldable pub validate_times : AnalysisRun → Check
validate_times r = do
  raise_if (precedes r.started_at (some r.created_at)) started_before_created
  raise_if (precedes r.completed_at (some (or_else r.started_at r.created_at)))
      completed_before_start
  check_optional validate_safe_text r.partial_reason
  check_optional validate_safe_text r.cancellation_reason

-- `AnalysisRun.__post_init__`
unfoldable pub validate_run : AnalysisRun → Check
validate_run r = do
  validate_identity r
  validate_times r
  validate_unique_dependencies r
  validate_stage_artifact_links r
  validate_lifecycle r

-- A dataclass instance: the value, once its `__post_init__` has accepted it.
unfoldable pub checked_run : AnalysisRun → Checked AnalysisRun
checked_run r = validate_run r >> ok r
