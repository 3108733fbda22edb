-- ===== src/Execution/Coordinator/Settled.antt =====
-- The three calls of `AnalysisCoordinator` in v2/src/footballai_v2/execution/coordinator.py settle the
-- attempts that they create.
use football_ai.Prelude.{◌≡◌, refl, sym, ap, ◌∙◌, subst, String, true, false, ◌≤◌, List}
use football_ai.Prelude.Result.{Result, ok, err, guarded-eq-ok}
use football_ai.Prelude.Action.{◌>>=◌, lift, follow}
use football_ai.Run.Json.{Fields}
use football_ai.Run.Text.{is_unsafe}
use football_ai.Run.Text.Identifiers.{non_empty, is_identifier}
use football_ai.Run.Status.{DataOrigin}
use football_ai.Run.Record.{
  AnalysisRun, InputReference, ModelReference, StageExecution, CodeReference, Datetime,
}
use football_ai.Run.Checks.{validate_safe_text, invalid_status_transition}
use football_ai.Run.Validate.{validate_run}
use football_ai.Run.Validate.Parts.{checked_error, validate_error}
use football_ai.Run.Transition.{
  RetryOptions, can_retry, retry_from, new, with_stages, apply, replaced,
}
use football_ai.Run.Transition.Inversion.{checked_run-eq-ok, apply-eq-ok}
use football_ai.Storage.Local.{copy_input}
use football_ai.Storage.Local.Directory.{Store, Reply, load}
use football_ai.Storage.Local.Inversion.{put_input_file-eq-ok, copy_input-eq-ok, load-WithInputs}
use football_ai.Execution.Attempts.{
  from_contract-eq-ok, Planes, Refusal, Call, from_contract, loading, found, Fresh, ingestion_error,
}
use football_ai.Execution.Attempts.Settled.{Settled, refused, IsNew, ingest-Settled}
use football_ai.Execution.Coordinator.{Site, Upload, create_analysis, retry, clone}

module _ (p : Planes) (fresh : Fresh) where
  lift-Settled :
      {A : Type 0} (r : Result Refusal A) (f : A → Call AnalysisRun)
      → ((a : A) → r ≡ ok a → Settled p fresh (f a p))
      → Settled p fresh ((lift r >>= f) p)
  unfolding ◌>>=◌ lift
  lift-Settled (ok a) f k = k a refl
  lift-Settled (err e) f k = refused e

  loading-Settled :
      (run_id : String) (f : AnalysisRun → Call AnalysisRun)
      → ((run : AnalysisRun) → Settled p fresh (f run p))
      → Settled p fresh ((loading run_id >>= f) p)
  unfolding ◌>>=◌ loading
  loading-Settled run_id f k = after (load p.store run_id)
    where
      after : (c : Reply AnalysisRun) → Settled p fresh (follow f (found p c))
      after (ok run) = k run
      after (err e) = refused _

-- The errors of the two handlers are accepted.
checked_copy_error :
    (at : Datetime)
    → checked_error (
        ingestion_error "input_copy_failed" "The source input could not be copied safely." false at)
      ≡ ok (
          ingestion_error "input_copy_failed" "The source input could not be copied safely." false
            at)
unfolding checked_error validate_error is_identifier validate_safe_text non_empty is_unsafe
checked_copy_error at = refl

checked_ingestion_error :
    (at : Datetime)
    → checked_error
        (ingestion_error "ingestion_failed" "The validated upload could not be queued." true at)
      ≡ ok (ingestion_error "ingestion_failed" "The validated upload could not be queued." true at)
unfolding checked_error validate_error is_identifier validate_safe_text non_empty is_unsafe
checked_ingestion_error at = refl

module _ (fresh : Fresh) (later : fresh.created_at ≤ fresh.failed_at) where
  new-IsNew :
      (logical : String) (origin : DataOrigin) (input : InputReference) (code : CodeReference)
      (version : String) (parameters : Fields) (models : List ModelReference)
      (stages : List StageExecution) {run : AnalysisRun}
      → from_contract (
          new logical fresh.run_id origin input code version parameters models stages
            fresh.created_at)
        ≡ ok run
      → IsNew fresh run
  unfolding new
  new-IsNew logical origin input code version parameters models stages h =
      let (same, valid) = checked_run-eq-ok _ (from_contract-eq-ok _ h) in
      subst (IsNew fresh) same (record {
        named = refl;
        waiting = refl;
        valid = valid;
        no_partial = refl;
        no_cancellation = refl;
        created = later;
      })

  retry-IsNew :
      (previous : AnalysisRun) (options : RetryOptions) (stages : List StageExecution)
      {next run : AnalysisRun}
      → from_contract (retry_from previous options fresh.run_id fresh.created_at) ≡ ok next
      → from_contract (apply (with_stages stages) next) ≡ ok run
      → IsNew fresh run
  unfolding retry_from
  retry-IsNew previous options stages {next} {run} h k =
      let (_, made) =
        guarded-eq-ok (can_retry previous.status) invalid_status_transition _
          (from_contract-eq-ok _ h) in
      let (first, _) = checked_run-eq-ok _ made in
      let (_, same, valid) = apply-eq-ok (with_stages stages) next (from_contract-eq-ok _ k) in
      subst (IsNew fresh) (ap (replaced (with_stages stages)) first ∙ same) (record {
        named = refl;
        waiting = refl;
        valid =
            subst (λ r. validate_run (replaced (with_stages stages) r) ≡ ok tt) (sym first) valid;
        no_partial = refl;
        no_cancellation = refl;
        created = later;
      })

module _ (site : Site) (fresh : Fresh) (later : fresh.created_at ≤ fresh.failed_at) where
  copy_keeps :
      (source destination run_id : String) (run : AnalysisRun) (s s' : Store)
      → copy_input site.sha256 s source destination ≡ ok s'
      → load s run_id ≡ ok run
      → load s' run_id ≡ ok run
  copy_keeps source destination run_id run s s' h =
      load-WithInputs run_id (copy_input-eq-ok site.sha256 s source destination h)

  -- `retry` returns a queued attempt whose job is in the queue; or it raises, and the new attempt is
  -- failed in the store, or nothing has changed. The attempt is failed no earlier than created.
  pub retry-Settled : (run_id : String) (p : Planes) → Settled p fresh (retry site fresh run_id p)
  unfolding retry
  retry-Settled run_id p = loading-Settled p fresh run_id _ λ previous.
      lift-Settled p fresh _ _ λ profile _. lift-Settled p fresh _ _ λ next first.
        lift-Settled p fresh _ _ λ stages _. lift-Settled p fresh _ _ λ run made.
          ingest-Settled site.sha256 fresh run profile _ _
            (copy_keeps previous.run_id run.run_id run.run_id run)
            (retry-IsNew fresh later previous _ stages first made)
            (checked_copy_error fresh.occurred_at) p

  -- `clone` settles the new analysis in the same way.
  pub clone-Settled : (run_id : String) (p : Planes) → Settled p fresh (clone site fresh run_id p)
  unfolding clone
  clone-Settled run_id p = loading-Settled p fresh run_id _ λ previous.
      lift-Settled p fresh _ _ λ profile _. lift-Settled p fresh _ _ λ stages _.
        lift-Settled p fresh _ _ λ run made.
          ingest-Settled site.sha256 fresh run profile _ _
            (copy_keeps previous.run_id run.run_id run.run_id run)
            (new-IsNew fresh later _ _ _ _ _ _ _ stages made) (checked_copy_error fresh.occurred_at)
            p

  -- `create_analysis` settles the analysis of an upload in the same way.
  pub create_analysis-Settled :
      (u : Upload) (p : Planes) → Settled p fresh (create_analysis site fresh u p)
  unfolding create_analysis
  create_analysis-Settled u p = lift-Settled p fresh _ _ λ media_type _.
      lift-Settled p fresh _ _ λ _ _. lift-Settled p fresh _ _ λ probe _.
        lift-Settled p fresh _ _ λ entry _. lift-Settled p fresh _ _ λ origin _.
          lift-Settled p fresh _ _ λ given _. lift-Settled p fresh _ _ λ _ _.
            lift-Settled p fresh _ _ λ stages _. lift-Settled p fresh _ _ λ run made.
              ingest-Settled site.sha256 fresh run _ _ _
                (λ s s' h.
                  load-WithInputs run.run_id
                    (put_input_file-eq-ok s run.run_id u.content u.extension h))
                (new-IsNew fresh later _ _ _ _ _ _ _ stages made)
                (checked_ingestion_error fresh.occurred_at) p
