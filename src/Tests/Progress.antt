-- ===== src/Tests/Progress.antt =====
-- The progress of a run of v2/src/footballai_v2/execution with one stage finished and one half done.
use football_ai.Prelude.{◌≡◌, ◌≤◌, refl, some, false, [], ◌∷◌}
use football_ai.Run.Json.{pos, finite}
use football_ai.Run.Status.{
  AnalysisRunStatus, StageName, StageName-discrete, StageStatus, run_status_is,
}
use football_ai.Run.Record.{AnalysisRun}
use football_ai.Execution.Progress.{
  overall_progress, weighted, stage_named, round_tenths, active_stage,
}
use football_ai.Execution.Progress.Bounds.{overall_progress-le}
use football_ai.Tests.Samples.{queued_run, queued_stage, finished_stage}

abbrev run : AnalysisRun
run = record queued_run {
  stages =
      finished_stage
      ∷ record queued_stage {
        stage_name = StageName.detection;
        status = StageStatus.running;
        progress_percent = finite (pos 50_000_000);
      }
      ∷ [];
}

progress_example : overall_progress run ≡ 225
unfolding overall_progress weighted stage_named round_tenths StageName-discrete
progress_example = refl

active_example : active_stage run.stages ≡ some "detection"
unfolding active_stage
active_example = refl

overall_progress-le_example :
    (overall_progress run ≤ 1_000)
    × (run_status_is run.status AnalysisRunStatus.succeeded ≡ false → overall_progress run ≤ 990)
overall_progress-le_example = overall_progress-le run (refl, (refl, tt))
