-- ===== src/Run/Transition/Fail.antt =====
-- When `AnalysisRun.fail` of v2/src/footballai_v2/contracts/v1/analysis_run.py accepts a queued run.
use football_ai.Prelude.{◌≡◌, refl, ◌∙◌, true, none, ◌≤◌, arith}
use football_ai.Prelude.Result.{ok, >>-eq-ok}
use football_ai.Run.Status.{queued}
use football_ai.Run.Record.{AnalysisRun, StructuredError, Datetime}
use football_ai.Run.Validate.{
  validate_run, validate_identity, validate_times, validate_unique_dependencies,
  validate_stage_artifact_links, validate_lifecycle, checked_run,
}
use football_ai.Run.Transition.{fail, apply, replaced, permitted}
use football_ai.Run.Transition.Cancel.{all_queued}

module _ (r : AnalysisRun) (at : Datetime) (error : StructuredError) where
  abbrev failed_run : AnalysisRun
  failed_run = replaced (fail error at none) r

  times :
      validate_times r ≡ ok tt
      → r.started_at ≡ none
      → r.created_at ≤ at
      → validate_times failed_run ≡ ok tt
  unfolding validate_times
  times h e le = ground arith

  lifecycle :
      validate_lifecycle r ≡ ok tt
      → r.status ≡ queued
      → r.partial_reason ≡ none
      → r.cancellation_reason ≡ none
      → (validate_lifecycle failed_run ≡ ok tt) × (r.started_at ≡ none)
  unfolding validate_lifecycle
  lifecycle h q p c = (ground (arith, all_queued r.stages), ground arith)

  identity : validate_identity failed_run ≡ validate_identity r
  unfolding validate_identity
  identity = refl

  dependencies : validate_unique_dependencies failed_run ≡ validate_unique_dependencies r
  unfolding validate_unique_dependencies
  dependencies = refl

  links : validate_stage_artifact_links failed_run ≡ validate_stage_artifact_links r
  unfolding validate_stage_artifact_links
  links = refl

  -- A valid queued run is failed, once the clock has reached its creation.
  pub apply-fail :
      validate_run r ≡ ok tt
      → r.status ≡ queued
      → r.partial_reason ≡ none
      → r.cancellation_reason ≡ none
      → r.created_at ≤ at
      → apply (fail error at none) r ≡ ok failed_run
  unfolding apply checked_run validate_run
  apply-fail h q p c le =
      let (i, h₁) = >>-eq-ok (validate_identity r) _ h in
      let (t, h₂) = >>-eq-ok (validate_times r) _ h₁ in
      let (u, h₃) = >>-eq-ok (validate_unique_dependencies r) _ h₂ in
      let (l, h₄) = >>-eq-ok (validate_stage_artifact_links r) _ h₃ in
      let (ended, none_started) = lifecycle h₄ q p c in
      let t' = times t none_started le in
      let permit : permitted (fail error at none) r.status ≡ true = ground arith in
      rw permit (rw (identity ∙ i) (rw t' (rw (dependencies ∙ u) (rw (links ∙ l) (rw ended refl)))))
