-- ===== src/Execution/Attempts/Settled.antt =====
-- How an attempt that v2/src/footballai_v2/execution/coordinator.py creates is settled: its job is in
-- the queue, or the run has failed.
use football_ai.Prelude.{
  ◌≡◌, refl, sym, subst, String, none, some, ◌≤◌, arith, inl, inr, String-discrete, member, is_some,
  eq_iff,
}
use football_ai.Prelude.Result.{Result, ok, err, Result-cases, unless-eq-ok}
use football_ai.Prelude.Action.{◌>>=◌, ◌>>◌, lift, rescue}
use football_ai.Prelude.Dict
use football_ai.Run.Status.{queued, failed}
use football_ai.Run.Record.{AnalysisRun, StructuredError}
use football_ai.Run.Validate.{validate_run}
use football_ai.Run.Validate.Parts.{checked_error}
use football_ai.Run.Transition.{fail, replaced}
use football_ai.Run.Transition.Fail.{apply-fail}
use football_ai.Storage.Lifecycle.Provenance.{provenance_differs_of_same}
use football_ai.Storage.Local.{save, create}
use football_ai.Storage.Local.Directory.{Bytes, Store, Reply, load}
use football_ai.Storage.Local.Inversion.{save_active}
use football_ai.Storage.Local.Immutable.{save-load, create-load}
use football_ai.Execution.Job.{ExecutionJob, validate_job}
use football_ai.Execution.Queue.{enqueue}
use football_ai.Execution.Queue.Directories.{Queue, readable}
use football_ai.Execution.Attempts.{
  Planes, Refusal, Call, changing, stored, enqueuing, Fresh, job_of, checked_job, new_job,
  enqueue_run, or_fail, ingest,
}

-- A call for a new attempt changes nothing, or leaves the attempt failed, or queued with its job.
pub data Settled (p : Planes) (fresh : Fresh) : Result Refusal AnalysisRun × Planes → Type 0 where
  refused : (e : Refusal) → Settled p fresh (err e, p)
  abandoned :
      (e : Refusal) (q : Planes) (run : AnalysisRun)
      → load q.store fresh.run_id ≡ ok run
      → run.status ≡ failed
      → Settled p fresh (err e, q)
  enqueued :
      (run : AnalysisRun) (q : Planes) (profile : String)
      → load q.store fresh.run_id ≡ ok run
      → run.status ≡ queued
      → Dict.get q.queue.queued fresh.job_id ≡ some (readable (job_of fresh run profile))
      → Settled p fresh (ok run, q)

-- What the record of a new attempt is.
pub record IsNew (fresh : Fresh) (run : AnalysisRun) : Type 0 where
  pub named : run.run_id ≡ fresh.run_id
  pub waiting : run.status ≡ queued
  pub valid : validate_run run ≡ ok tt
  pub no_partial : run.partial_reason ≡ none
  pub no_cancellation : run.cancellation_reason ≡ none
  pub created : run.created_at ≤ fresh.failed_at

module _ (sha256 : Bytes → String) (fresh : Fresh) (run : AnalysisRun) (error : StructuredError)
    (new : IsNew fresh run) (safe : checked_error error ≡ ok error) where
  abbrev failed_run : AnalysisRun
  failed_run = replaced (fail error fresh.failed_at none) run

  save-failed :
      (s : Store) → load s run.run_id ≡ ok run → (s' : Store) × (save sha256 s failed_run ≡ ok s')
  save-failed s loaded =
      save_active sha256 s run failed_run loaded (rw new.waiting refl) (rw new.waiting refl)
        (provenance_differs_of_same (ground arith)) refl

  -- The handler saves the failure, and raises again.
  or_fail-err :
      (m : Call (Unit {0})) (p q : Planes) (e : Refusal)
      → m p ≡ (err e, q)
      → load q.store run.run_id ≡ ok run
      → (s : Store) × (or_fail sha256 fresh run error m p ≡ (err e, record q { store = s }))
        × (load s run.run_id ≡ ok failed_run)
  unfolding or_fail rescue ◌>>=◌ lift changing
  or_fail-err m p q e h loaded =
      let (s, saved) = save-failed q.store loaded in
      let accepted =
        apply-fail run fresh.failed_at error new.valid new.waiting new.no_partial
          new.no_cancellation new.created in
      (s, rw h (rw safe (rw accepted (rw saved refl))), save-load sha256 q.store failed_run saved)

  or_fail-ok :
      (m : Call (Unit {0})) (p q : Planes)
      → m p ≡ (ok tt, q)
      → or_fail sha256 fresh run error m p ≡ (ok tt, q)
  unfolding or_fail rescue
  or_fail-ok m p q h = rw h refl

new_job-eq-ok :
    (fresh : Fresh) (run : AnalysisRun) (profile : String) {job : ExecutionJob}
    → new_job fresh run profile ≡ ok job
    → job_of fresh run profile ≡ job
unfolding new_job
new_job-eq-ok fresh run profile {job} h = checked (validate_job (job_of fresh run profile)) h
  where
    checked :
        (c : Result _ (Unit {0}))
        → checked_job (job_of fresh run profile) c ≡ ok job
        → job_of fresh run profile ≡ job
    checked (ok _) h = cc
    checked (err _) h = cc

enqueue-eq-ok :
    (q : Queue) (job : ExecutionJob) {q' : Queue}
    → enqueue q job ≡ ok q'
    → Dict.get q'.queued job.job_id ≡ some (readable job)
unfolding enqueue
enqueue-eq-ok q job {q'} h =
    let (_, h₁) = unless-eq-ok (member String-discrete job.run_id q.run_index) _ _ h in
    let (_, h₂) = unless-eq-ok (is_some (Dict.get q.queued job.job_id)) _ _ h₁ in
    ground (
      arith,
      h₂,
      Dict.get-put q.queued job.job_id (readable job) job.job_id,
      eq_iff job.job_id job.job_id,
    )

module _ (fresh : Fresh) (run : AnalysisRun) (profile : String) (put : Store → Reply Store)
    (keeps : (s s' : Store)
      → put s ≡ ok s'
      → load s run.run_id ≡ ok run
      → load s' run.run_id ≡ ok run) where
  -- How the input and the job of an attempt end.
  data Placed : Result Refusal (Unit {0}) × Planes → Type 0 where
    not_placed : (e : Refusal) (q : Planes) → load q.store run.run_id ≡ ok run → Placed (err e, q)
    placed :
        (q : Planes)
        → load q.store run.run_id ≡ ok run
        → Dict.get q.queue.queued fresh.job_id ≡ some (readable (job_of fresh run profile))
        → Placed (ok tt, q)

  enqueuing-Placed :
      (p : Planes) (job : ExecutionJob)
      → load p.store run.run_id ≡ ok run
      → job_of fresh run profile ≡ job
      → Placed (enqueuing job p)
  unfolding enqueuing
  enqueuing-Placed p job loaded made = elim (Result-cases (enqueue p.queue job)) [
    | inl (e, failure) ↦ rw failure (not_placed _ p loaded)
    | inr (q, accepted) ↦
        let there : Dict.get q.queued fresh.job_id ≡ some (readable (job_of fresh run profile)) =
          subst (λ j. Dict.get q.queued j.job_id ≡ some (readable j)) (sym made)
            (enqueue-eq-ok p.queue job accepted) in
        rw accepted (placed _ loaded there)
  ]

  enqueue_run-Placed :
      (p : Planes) → load p.store run.run_id ≡ ok run → Placed (enqueue_run fresh run profile p)
  unfolding enqueue_run ◌>>=◌ lift
  enqueue_run-Placed p loaded = elim (Result-cases (new_job fresh run profile)) [
    | inl (e, failure) ↦ rw failure (not_placed e p loaded)
    | inr (job, made) ↦
        rw made (enqueuing-Placed p job loaded (new_job-eq-ok fresh run profile made))
  ]

  place-Placed :
      (p : Planes)
      → load p.store run.run_id ≡ ok run
      → Placed ((changing put >> enqueue_run fresh run profile) p)
  unfolding changing ◌>>=◌
  place-Placed p loaded = elim (Result-cases (put p.store)) [
    | inl (e, failure) ↦ rw failure (not_placed _ p loaded)
    | inr (s, stores) ↦ rw stores (enqueue_run-Placed _ (keeps p.store s stores loaded))
  ]

module _ (sha256 : Bytes → String) (fresh : Fresh) (run : AnalysisRun) (profile : String)
    (error : StructuredError) (put : Store → Reply Store)
    (keeps : (s s' : Store)
      → put s ≡ ok s'
      → load s run.run_id ≡ ok run
      → load s' run.run_id ≡ ok run)
    (new : IsNew fresh run) (safe : checked_error error ≡ ok error) where
  abbrev place : Call (Unit {0})
  place = changing put >> enqueue_run fresh run profile

  place-Settled :
      (p₀ p : Planes) (x : Result Refusal (Unit {0}) × Planes)
      → place p ≡ x
      → Placed fresh run profile put keeps x
      → Settled p₀ fresh ((or_fail sha256 fresh run error place >> lift (ok run)) p)
  unfolding ◌>>=◌ lift
  place-Settled p₀ p _ h (not_placed e q loaded) =
      let (s, raised, stored) = or_fail-err sha256 fresh run error new safe place p q e h loaded in
      rw raised (
        abandoned e _ (failed_run sha256 fresh run error new safe)
          (subst (λ i. load s i ≡ ok (failed_run sha256 fresh run error new safe)) new.named stored)
          refl)
  place-Settled p₀ p _ h (placed q loaded there) =
      rw (or_fail-ok sha256 fresh run error new safe place p q h) (
        enqueued run q profile (subst (λ i. load q.store i ≡ ok run) new.named loaded) new.waiting
          there)

  pub ingest-Settled : (p : Planes) → Settled p fresh (ingest sha256 fresh run profile error put p)
  unfolding ingest ◌>>=◌ changing
  ingest-Settled p = elim (Result-cases (create p.store run)) [
    | inl (e, failure) ↦ rw failure (refused _)
    | inr (s, made) ↦ rw made (
        place-Settled p (record p { store = s }) (place (record p { store = s })) refl
          (place-Placed fresh run profile put keeps (record p { store = s })
            (create-load p.store run made)))
  ]
