-- ===== src/Execution/Progress.antt =====
-- v2/src/footballai_v2/execution/progress.py. A value is counted in hundred-millionths of a percent, so that
-- the sum is exact, and the result in tenths of a percent, rounded half to even. A progress that is not a
-- number from 0 to 100, which no stage has (`validate_stage`), counts as 0.
pub mod Bounds
use Prim.Native.Nat.{◌/◌, ◌%◌, min}
use football_ai.Prelude.{
  ℕ, ◌+◌, ◌*◌, ◌≤◌, ◌≡◌, refl, Bool, true, false, Option, none, some, String, List, [], ◌∷◌, All,
  ltb, ◌==◌, same, if◌then◌else◌, arith, if_both,
}
use football_ai.Run.Json.{Number, finite, not_finite, pos, negsuc}
use football_ai.Run.Status.{
  AnalysisRunStatus, StageStatus, StageName, StageName-discrete, stage_names, stage_value,
  run_status_is, stage_status_is,
}
use football_ai.Run.Record.{StageExecution, AnalysisRun}

abbrev pub stage_weight : StageName → ℕ
stage_weight StageName.ingestion = 5
stage_weight StageName.video_validation = 5
stage_weight StageName.detection = 35
stage_weight StageName.tracking = 20
stage_weight StageName.identity_resolution = 5
stage_weight StageName.pitch_calibration = 5
stage_weight StageName.metrics = 10
stage_weight StageName.workload_advisory = 5
stage_weight StageName.artifact_publication = 10

-- The stage that `{stage.stage_name: stage for stage in stages}` keeps for a name.
unfoldable pub stage_named : StageName → List StageExecution → Option StageExecution
stage_named name [] = none
stage_named name (s ∷ stages) = elim (stage_named name stages) [
  | some t ↦ some t
  | none ↦ if same StageName-discrete s.stage_name name then some s else none
]

abbrev pub units : Number → ℕ
units (finite (pos n)) = n
units (finite (negsuc n)) = 0
units not_finite = 0

-- The share of a stage that is done, of 100,000,000.
abbrev pub stage_units : Option StageExecution → ℕ
stage_units none = 0
stage_units (some s) =
    if stage_status_is s.status StageStatus.skipped then 100_000_000 else units s.progress_percent

unfoldable pub weighted : List StageName → List StageExecution → ℕ
weighted [] stages = 0
weighted (name ∷ names) stages =
    stage_weight name * stage_units (stage_named name stages) + weighted names stages

-- `round(value, 1)`
unfoldable pub round_tenths : ℕ → ℕ
round_tenths n =
    let q = n / 10_000_000 in
    let r = n % 10_000_000 in
    if ltb r 5_000_000
    then q
    else if ltb 5_000_000 r
    then q + 1
    else if q % 2 == 0
    then q
    else q + 1

unfoldable pub overall_progress : AnalysisRun → ℕ
overall_progress run =
    let value = weighted stage_names run.stages in
    if run_status_is run.status AnalysisRunStatus.succeeded
    then round_tenths value
    else round_tenths (min value 9_900_000_000)

unfoldable pub active_stage : List StageExecution → Option String
active_stage [] = none
active_stage (s ∷ stages) =
    if stage_status_is s.status StageStatus.running
    then some (stage_value s.stage_name)
    else active_stage stages
