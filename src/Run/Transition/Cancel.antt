-- ===== src/Run/Transition/Cancel.antt =====
-- When `AnalysisRun.cancel` of v2/src/footballai_v2/contracts/v1/analysis_run.py accepts a queued
-- run.
use football_ai.Prelude.{
  ◌≡◌, refl, ◌∙◌, true, false, none, some, ◌≤◌, arith, String, List, [], ◌∷◌, any, not,
}
use football_ai.Prelude.Result.{ok, >>-eq-ok}
use football_ai.Run.Status.{queued, StageStatus, stage_status_is}
use football_ai.Run.Record.{AnalysisRun, StageExecution, Datetime}
use football_ai.Run.Checks.{validate_safe_text}
use football_ai.Run.Validate.{
  validate_run, validate_identity, validate_times, validate_unique_dependencies,
  validate_stage_artifact_links, validate_lifecycle, checked_run,
}
use football_ai.Run.Transition.{cancel, apply, replaced, permitted}

pub all_queued :
    (stages : List StageExecution)
    → any (λ s. not (stage_status_is s.status StageStatus.queued)) stages ≡ false
    → any (λ s. stage_status_is s.status StageStatus.running) stages ≡ false
all_queued [] h = refl
all_queued (s ∷ stages) h = ground (arith, all_queued stages)

module _ (r : AnalysisRun) (at : Datetime) (reason : String) where
  abbrev cancelled_run : AnalysisRun
  cancelled_run = replaced (cancel at (some reason) none) r

  times :
      validate_times r ≡ ok tt
      → r.started_at ≡ none
      → r.partial_reason ≡ none
      → r.created_at ≤ at
      → validate_safe_text reason ≡ ok tt
      → validate_times cancelled_run ≡ ok tt
  unfolding validate_times
  times h e p le safe = ground arith

  lifecycle :
      validate_lifecycle r ≡ ok tt
      → r.status ≡ queued
      → r.partial_reason ≡ none
      → (validate_lifecycle cancelled_run ≡ ok tt) × (r.started_at ≡ none)
  unfolding validate_lifecycle
  lifecycle h q p = (ground (arith, all_queued r.stages), ground arith)

  identity : validate_identity cancelled_run ≡ validate_identity r
  unfolding validate_identity
  identity = refl

  dependencies : validate_unique_dependencies cancelled_run ≡ validate_unique_dependencies r
  unfolding validate_unique_dependencies
  dependencies = refl

  links : validate_stage_artifact_links cancelled_run ≡ validate_stage_artifact_links r
  unfolding validate_stage_artifact_links
  links = refl

  -- A valid queued run is cancelled, once the clock has reached its creation.
  pub apply-cancel :
      validate_run r ≡ ok tt
      → r.status ≡ queued
      → r.partial_reason ≡ none
      → r.created_at ≤ at
      → validate_safe_text reason ≡ ok tt
      → apply (cancel at (some reason) none) r ≡ ok cancelled_run
  unfolding apply checked_run validate_run
  apply-cancel h q p le safe =
      let (i, h₁) = >>-eq-ok (validate_identity r) _ h in
      let (t, h₂) = >>-eq-ok (validate_times r) _ h₁ in
      let (u, h₃) = >>-eq-ok (validate_unique_dependencies r) _ h₂ in
      let (l, h₄) = >>-eq-ok (validate_stage_artifact_links r) _ h₃ in
      let (ended, none_started) = lifecycle h₄ q p in
      let t' = times t none_started p le safe in
      let permit : permitted (cancel at (some reason) none) r.status ≡ true = ground arith in
      rw permit (rw (identity ∙ i) (rw t' (rw (dependencies ∙ u) (rw (links ∙ l) (rw ended refl)))))
