-- ===== src/Run/Checks.antt =====
-- The checks on values in v2/src/footballai_v2/contracts/v1/analysis_run.py: JSON, safe text and
-- details. Every function returns the error that it raises, if any.
use football_ai.Prelude.{String, Bool, false, not, leb, ◌==◌}
use football_ai.Prelude.Result.{Result, ok, err, raise_if, ◌>>◌}
use football_ai.Run.Json.{
  pos, negsuc, Number, finite, not_finite, Key, named, not_a_string, Json, Items, Fields, null,
  boolean, number, text, array, object, unsupported, nil, cons, end, field,
}
use football_ai.Run.Text.{is_unsafe, is_sensitive, PathError}
use football_ai.Run.Text.Identifiers.{non_empty}

-- The messages of `ContractValidationError`, one constructor for each that the model raises, and
-- the `IndexError` of an artifact path.
pub data Violation : Type 0 where
  empty_text unsafe_text non_finite_number non_string_key unsupported_type secret_like_key
        bad_identifier bad_sha256 bad_revision bad_uuid bad_progress bad_attempt
        finished_before_started queued_stage_has_times running_stage_times terminal_stage_unfinished
        succeeded_stage_progress failed_stage_without_error duplicate_produced :
      Violation
  bad_path : PathError → Violation
  bad_contract_version first_attempt_has_previous retry_without_previous previous_is_self
        started_before_created completed_before_start duplicate_models duplicate_artifact_ids
        duplicate_artifact_names duplicate_artifact_paths duplicate_stage_ids duplicate_stage_names
        stage_attempt_mismatch unknown_artifact_ids queued_run_fields queued_run_stages
        running_run_fields succeeded_run_fields succeeded_run_empty succeeded_run_active_stages
        succeeded_run_required_stages partial_run_fields partial_run_empty partial_run_active_stages
        partial_run_complete failed_run_fields failed_run_running_stage cancelled_run_fields
        cancelled_run_running_stage :
      Violation
  invalid_status_transition : Violation

abbrev pub Check : Type 0
Check = Result Violation (Unit {0})

abbrev pub Checked : Type 0 → Type 0
Checked A = Result Violation A

unfoldable mutual
  -- `_validate_json`
  pub validate_json : Json → Check
  validate_json null = ok tt
  validate_json (boolean b) = ok tt
  validate_json (number (finite z)) = ok tt
  validate_json (number not_finite) = err non_finite_number
  validate_json (text s) = ok tt
  validate_json (array xs) = validate_json_items xs
  validate_json (object fs) = validate_json_fields fs
  validate_json unsupported = err unsupported_type

  pub validate_json_items : Items → Check
  validate_json_items nil = ok tt
  validate_json_items (cons x xs) = validate_json x >> validate_json_items xs

  pub validate_json_fields : Fields → Check
  validate_json_fields end = ok tt
  validate_json_fields (field (named k) x fs) = validate_json x >> validate_json_fields fs
  validate_json_fields (field not_a_string x fs) = err non_string_key

-- `_validate_safe_text`
unfoldable pub validate_safe_text : String → Check
validate_safe_text s = raise_if (not (non_empty s)) empty_text >> raise_if (is_unsafe s) unsafe_text

abbrev key_is_sensitive : Key → Bool
key_is_sensitive (named k) = is_sensitive k
key_is_sensitive not_a_string = false

unfoldable mutual
  -- The loop of `_validate_safe_details`
  pub safe_fields : Fields → Check
  safe_fields end = ok tt
  safe_fields (field k x fs) =
      raise_if (key_is_sensitive k) secret_like_key >> (safe_detail_value x >> safe_fields fs)

  -- `_validate_safe_detail_value`
  pub safe_detail_value : Json → Check
  safe_detail_value (text s) = raise_if (is_unsafe s) unsafe_text
  safe_detail_value (object fs) = validate_json_fields fs >> safe_fields fs
  safe_detail_value (array xs) = safe_items xs
  safe_detail_value _ = ok tt

  pub safe_items : Items → Check
  safe_items nil = ok tt
  safe_items (cons x xs) = safe_detail_value x >> safe_items xs

-- `_validate_safe_details`
unfoldable pub validate_safe_details : Fields → Check
validate_safe_details fs = validate_json_fields fs >> safe_fields fs

-- `0 <= float(progress) <= 100` for a finite number
abbrev pub progress_in_range : Number → Bool
progress_in_range (finite (pos n)) = leb n 100000000
progress_in_range (finite (negsuc n)) = false
progress_in_range not_finite = false

-- `float(progress) == 100`
abbrev pub progress_is_full : Number → Bool
progress_is_full (finite (pos n)) = n == 100000000
progress_is_full (finite (negsuc n)) = false
progress_is_full not_finite = false
