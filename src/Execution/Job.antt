-- ===== src/Execution/Job.antt =====
-- `ExecutionJob` of v2/src/footballai_v2/execution/contracts.py.
use football_ai.Prelude.{
  ℕ, String, Bool, true, not, ◌&&◌, ◌||◌, Option, none, some, leb, length, str_eq,
}
use football_ai.Prelude.Result.{Result, raise_if, ◌>>◌}
use football_ai.Run.Text.Identifiers.{codes, is_uuid_v4}
use football_ai.Run.Record.{Datetime}

pub record ExecutionJob : Type 0 where
  pub job_id : String
  pub run_id : String
  pub logical_analysis_id : String
  pub attempt_number : ℕ
  pub pipeline_profile : String
  pub created_at : Datetime
  pub claimed_at : Option Datetime
  pub worker_id : Option String

pub data JobError : Type 0 where
  bad_uuid attempt_not_positive unknown_profile invalid_worker : JobError

-- `bool(worker_id) and len(worker_id) <= 128`
abbrev pub is_worker_id : String → Bool
is_worker_id w = not (str_eq w "") && leb (length (codes w)) 128

abbrev worker_fits : Option String → Bool
worker_fits none = true
worker_fits (some w) = is_worker_id w

abbrev is_profile : String → Bool
is_profile p = str_eq p "demo_fast" || str_eq p "v1_compat" || str_eq p "test_fail"

-- `ExecutionJob.__post_init__`
unfoldable pub validate_job : ExecutionJob → Result JobError (Unit {0})
validate_job j =
    raise_if (not (is_uuid_v4 j.job_id)) bad_uuid
    >> (raise_if (not (is_uuid_v4 j.run_id)) bad_uuid
        >> (raise_if (not (is_uuid_v4 j.logical_analysis_id)) bad_uuid
            >> (raise_if (not (leb 1 j.attempt_number)) attempt_not_positive
                >> (raise_if (not (is_profile j.pipeline_profile)) unknown_profile
                    >> raise_if (not (worker_fits j.worker_id)) invalid_worker))))
