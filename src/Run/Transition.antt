-- ===== src/Run/Transition.antt =====
-- The lifecycle methods of `AnalysisRun` in v2/src/footballai_v2/contracts/v1/analysis_run.py. The
-- caller gives the identifiers and the instants that `uuid4` and `utc_now` return.
pub mod Inversion
pub mod Cancel
pub mod Fail
use football_ai.Prelude.{
  ◌+◌, String, Bool, not, ◌||◌, Option, none, some, List, [], str_eq, if◌then◌else◌,
}
use football_ai.Prelude.Result.{err}
use football_ai.Run.Json.{Fields}
use football_ai.Run.Status.{
  DataOrigin, AnalysisRunStatus, queued, running, succeeded, partial, failed, cancelled,
  is_terminal, run_status_is,
}
use football_ai.Run.Record.{
  InputReference, CodeReference, ModelReference, ArtifactReference, StructuredError, StageExecution,
  AnalysisRun, Datetime,
}
use football_ai.Run.Checks.{Checked, invalid_status_transition}
use football_ai.Run.Validate.{supported_version, checked_run}

-- `x or default`, and `x if x is not None else default`
abbrev given {ℓ} : {A : Type ℓ} → Option A → A → A
given none d = d
given (some a) d = a

abbrev given_text : Option String → String → String
given_text none d = d
given_text (some s) d = if str_eq s "" then d else s

-- `AnalysisRun.new`
unfoldable pub new :
    (logical_analysis_id run_id : String)
    → DataOrigin
    → InputReference
    → CodeReference
    → (pipeline_version : String) → Fields
    → List ModelReference
    → List StageExecution
    → Datetime
    → Checked AnalysisRun
new logical_analysis_id run_id origin input code pipeline_version parameters models stages now =
    checked_run (record {
      logical_analysis_id = logical_analysis_id;
      run_id = run_id;
      attempt_number = 1;
      previous_attempt_run_id = none;
      status = queued;
      data_origin = origin;
      input = input;
      code = code;
      pipeline_version = pipeline_version;
      parameters = parameters;
      models = models;
      artifacts = [];
      stages = stages;
      created_at = now;
      started_at = none;
      completed_at = none;
      failure = none;
      partial_reason = none;
      cancellation_reason = none;
      contract_version = supported_version;
    })

-- What `retry_from` lets its caller replace.
pub record RetryOptions : Type 0 where
  pub code : Option CodeReference
  pub pipeline_version : Option String
  pub parameters : Option Fields
  pub models : Option (List ModelReference)

abbrev pub can_retry : AnalysisRunStatus → Bool
can_retry status = run_status_is status failed || run_status_is status partial

abbrev pub retry_record : AnalysisRun → RetryOptions → String → Datetime → AnalysisRun
retry_record previous options run_id now = record {
  logical_analysis_id = previous.logical_analysis_id;
  run_id = run_id;
  attempt_number = previous.attempt_number + 1;
  previous_attempt_run_id = some previous.run_id;
  status = queued;
  data_origin = previous.data_origin;
  input = previous.input;
  code = given options.code previous.code;
  pipeline_version = given_text options.pipeline_version previous.pipeline_version;
  parameters = given options.parameters previous.parameters;
  models = given options.models previous.models;
  artifacts = [];
  stages = [];
  created_at = now;
  started_at = none;
  completed_at = none;
  failure = none;
  partial_reason = none;
  cancellation_reason = none;
  contract_version = supported_version;
}

-- `AnalysisRun.retry_from`
unfoldable pub retry_from : AnalysisRun → RetryOptions → String → Datetime → Checked AnalysisRun
retry_from previous options run_id now =
    if not (can_retry previous.status)
    then err invalid_status_transition
    else checked_run (retry_record previous options run_id now)

-- A call of a lifecycle method, with its arguments.
pub data Operation : Type 0 where
  start : Datetime → (stages : Option (List StageExecution)) → Operation
  with_stages : List StageExecution → Operation
  succeed : List ArtifactReference → Datetime → List StageExecution → Operation
  complete_partial :
      List ArtifactReference → (reason : String) → Datetime → List StageExecution → Operation
  fail : StructuredError → Datetime → Option (List StageExecution) → Operation
  cancel : Datetime → (reason : Option String) → Option (List StageExecution) → Operation

-- Whether the method's first test lets the run through.
abbrev pub permitted : Operation → AnalysisRunStatus → Bool
permitted (start _ _) status = run_status_is status queued
permitted (with_stages _) status = not (is_terminal status)
permitted (succeed _ _ _) status = run_status_is status running
permitted (complete_partial _ _ _ _) status = run_status_is status running
permitted (fail _ _ _) status = run_status_is status queued || run_status_is status running
permitted (cancel _ _ _) status = run_status_is status queued || run_status_is status running

-- The arguments of `replace`.
abbrev pub replaced : Operation → AnalysisRun → AnalysisRun
replaced (start at stages) r = record r {
  status = running;
  started_at = some at;
  stages = given stages r.stages;
}
replaced (with_stages stages) r = record r { stages = stages }
replaced (succeed artifacts at stages) r = record r {
  status = succeeded;
  artifacts = artifacts;
  stages = stages;
  completed_at = some at;
}
replaced (complete_partial artifacts reason at stages) r = record r {
  status = partial;
  artifacts = artifacts;
  stages = stages;
  partial_reason = some reason;
  completed_at = some at;
}
replaced (fail failure at stages) r = record r {
  status = failed;
  failure = some failure;
  stages = given stages r.stages;
  completed_at = some at;
}
replaced (cancel at reason stages) r = record r {
  status = cancelled;
  cancellation_reason = reason;
  stages = given stages r.stages;
  completed_at = some at;
}

-- The methods `start`, `with_stages`, `succeed`, `complete_partial`, `fail` and `cancel`.
unfoldable pub apply : Operation → AnalysisRun → Checked AnalysisRun
apply op r =
    if not (permitted op r.status)
    then err invalid_status_transition
    else checked_run (replaced op r)
