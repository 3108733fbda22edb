-- ===== src/Storage/Lifecycle.antt =====
-- v2/src/footballai_v2/storage/lifecycle.py: the rules by which a stored attempt may be replaced.
pub mod Agreement
pub mod Provenance
use football_ai.Prelude.{Bool, false, not, ◌||◌, ◌==◌, str_eq, same}
use football_ai.Prelude.Result.{Result, raise_if, ◌>>◌}
use football_ai.Run.Status.{
  AnalysisRunStatus, queued, running, succeeded, partial, failed, cancelled, is_terminal,
  run_status_is, DataOrigin-discrete,
}
use football_ai.Run.Record.{AnalysisRun}
use football_ai.Run.Equality.{
  Fields-discrete, InputReference-discrete, CodeReference-discrete, models-discrete,
  Option-String-discrete,
}

pub data ManifestTransitionError : Type 0 where
  not_queued terminal_immutable transition_refused provenance_changed : ManifestTransitionError

-- `ALLOWED_STATUS_TRANSITIONS`, as a test; a terminal status is no key.
abbrev pub allowed : AnalysisRunStatus → AnalysisRunStatus → Bool
allowed queued next =
    run_status_is next queued
    || run_status_is next running
    || run_status_is next failed
    || run_status_is next cancelled
allowed running next =
    run_status_is next running
    || run_status_is next succeeded
    || run_status_is next partial
    || run_status_is next failed
    || run_status_is next cancelled
allowed _ next = false

-- Whether one of `IMMUTABLE_PROVENANCE_FIELDS` differs.
unfoldable pub provenance_differs : AnalysisRun → AnalysisRun → Bool
provenance_differs a b =
    not (str_eq a.contract_version b.contract_version)
    || not (str_eq a.logical_analysis_id b.logical_analysis_id)
    || not (str_eq a.run_id b.run_id)
    || not (a.attempt_number == b.attempt_number)
    || not (same Option-String-discrete a.previous_attempt_run_id b.previous_attempt_run_id)
    || not (same DataOrigin-discrete a.data_origin b.data_origin)
    || not (same InputReference-discrete a.input b.input)
    || not (same CodeReference-discrete a.code b.code)
    || not (str_eq a.pipeline_version b.pipeline_version)
    || not (same Fields-discrete a.parameters b.parameters)
    || not (same models-discrete a.models b.models)
    || not (a.created_at == b.created_at)

unfoldable pub ensure_creatable : AnalysisRun → Result ManifestTransitionError (Unit {0})
ensure_creatable r = raise_if (not (run_status_is r.status queued)) not_queued

unfoldable pub ensure_transition_allowed :
    AnalysisRun → AnalysisRun → Result ManifestTransitionError (Unit {0})
ensure_transition_allowed current updated = do
  raise_if (is_terminal current.status) terminal_immutable
  raise_if (not (allowed current.status updated.status)) transition_refused
  raise_if (provenance_differs current updated) provenance_changed
