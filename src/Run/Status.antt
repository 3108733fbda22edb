-- ===== src/Run/Status.antt =====
-- The enumerations of v2/src/footballai_v2/contracts/v1/analysis_run.py.
use football_ai.Prelude.{ℕ, Bool, true, false, List, [], ◌∷◌, String, ◌==◌}

pub data DataOrigin : Type 0 where
  real synthetic evaluation legacy_v1 : DataOrigin

pub data AnalysisRunStatus : Type 0 where
  queued running succeeded partial failed cancelled : AnalysisRunStatus

abbrev pub is_terminal : AnalysisRunStatus → Bool
is_terminal queued = false
is_terminal running = false
is_terminal succeeded = true
is_terminal partial = true
is_terminal failed = true
is_terminal cancelled = true

pub data StageName : Type 0 where
  ingestion video_validation detection tracking identity_resolution pitch_calibration metrics
        workload_advisory artifact_publication :
      StageName

-- `for name in StageName`
abbrev pub stage_names : List StageName
stage_names =
    ingestion ∷ video_validation ∷ detection ∷ tracking ∷ identity_resolution ∷ pitch_calibration
    ∷ metrics ∷ workload_advisory ∷ artifact_publication ∷ []

-- `name.value`
abbrev pub stage_value : StageName → String
stage_value ingestion = "ingestion"
stage_value video_validation = "video_validation"
stage_value detection = "detection"
stage_value tracking = "tracking"
stage_value identity_resolution = "identity_resolution"
stage_value pitch_calibration = "pitch_calibration"
stage_value metrics = "metrics"
stage_value workload_advisory = "workload_advisory"
stage_value artifact_publication = "artifact_publication"

pub data StageStatus : Type 0 where
  queued running succeeded partial failed cancelled skipped : StageStatus

abbrev pub is_terminal_stage : StageStatus → Bool
is_terminal_stage StageStatus.queued = false
is_terminal_stage StageStatus.running = false
is_terminal_stage StageStatus.succeeded = true
is_terminal_stage StageStatus.partial = true
is_terminal_stage StageStatus.failed = true
is_terminal_stage StageStatus.cancelled = true
is_terminal_stage StageStatus.skipped = true

pub data ArtifactCategory : Type 0 where
  source tracks metrics summary workload_advisory visualization other : ArtifactCategory

abbrev run_status_code : AnalysisRunStatus → ℕ
run_status_code queued = 0
run_status_code running = 1
run_status_code succeeded = 2
run_status_code partial = 3
run_status_code failed = 4
run_status_code cancelled = 5

abbrev stage_status_code : StageStatus → ℕ
stage_status_code StageStatus.queued = 0
stage_status_code StageStatus.running = 1
stage_status_code StageStatus.succeeded = 2
stage_status_code StageStatus.partial = 3
stage_status_code StageStatus.failed = 4
stage_status_code StageStatus.cancelled = 5
stage_status_code StageStatus.skipped = 6

-- `a is b`
abbrev pub run_status_is : AnalysisRunStatus → AnalysisRunStatus → Bool
run_status_is a b = run_status_code a == run_status_code b

abbrev pub stage_status_is : StageStatus → StageStatus → Bool
stage_status_is a b = stage_status_code a == stage_status_code b

unfoldable pub StageName-discrete : Discrete StageName
StageName-discrete = hlevel

unfoldable pub DataOrigin-discrete : Discrete DataOrigin
DataOrigin-discrete = hlevel
