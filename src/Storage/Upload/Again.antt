-- ===== src/Storage/Upload/Again.antt =====
-- Repeated calls of `DirectUploadService.finalize` in
-- v2/src/footballai_v2/storage/upload_service.py.
use football_ai.Prelude.{◌≡◌, refl, sym, ap, ◌∙◌, subst, String, ℕ, true, arith}
use football_ai.Prelude.Result.{ok, err, Result-cases}
use football_ai.Prelude.{inl, inr}
use football_ai.Prelude.Action.{◌>>=◌, ◌>>◌, lift, lift->>=-eq-ok, >>-pure-eq-ok}
use football_ai.Run.Status.{queued}
use football_ai.Run.Record.{AnalysisRun, CodeReference}
use football_ai.Run.Validate.Parts.{validate_input}
use football_ai.Run.Transition.{new}
use football_ai.Run.Transition.Inversion.{checked_run-eq-ok}
use football_ai.Storage.Memory.{FinalizedUpload, finalize_upload}
use football_ai.Storage.Memory.Lookup.{Objects}
use football_ai.Storage.Lifecycle.Provenance.{SameProvenance}
use football_ai.Storage.Local.{create}
use football_ai.Storage.Local.Directory.{Bytes, Store, Reply, load, run_already_exists}
use football_ai.Storage.Local.Inversion.{load-eq-ok}
use football_ai.Storage.Local.Immutable.{create-load, load_uuid, load-SameProvenance}
use football_ai.Storage.Local.History.{History}
use football_ai.Execution.Queue.{enqueue}
use football_ai.Execution.Attempts.{
  from_contract-eq-ok, Planes, Refusal, loading, found, Fresh, enqueue_run, new_job, enqueuing,
  queued_stages, from_contract,
}
use football_ai.Storage.Upload.{
  Finalize, input_of, new_run, video_content_types, uploaded_run, create_or_load, finalize, created,
  from_objects,
}

-- A run that is there is not created again.
create_again :
    (s : Store) (run : AnalysisRun) {r : AnalysisRun}
    → run.status ≡ queued
    → load s run.run_id ≡ ok r
    → create s run ≡ err run_already_exists
unfolding create
create_again s run q h =
    let (d, e, _, _) = load-eq-ok s run.run_id h in let u = load_uuid s run.run_id h in ground arith

loading_found :
    (p : Planes) (run_id : String) {r : AnalysisRun}
    → load p.store run_id ≡ ok r
    → loading run_id p ≡ (ok r, p)
unfolding loading
loading_found p run_id {r} h = rw (loading, h) refl

module _ (objects : Objects) (max_upload_bytes : ℕ) (code : CodeReference) (fresh : Fresh)
    (f : Finalize) where
  -- The run of an upload is new, under the id that was authorized.
  uploaded_run-eq-ok :
      (upload : FinalizedUpload) {run : AnalysisRun}
      → uploaded_run objects max_upload_bytes code fresh f upload ≡ ok run
      → (run.run_id ≡ f.run_id) × (run.status ≡ queued)
  unfolding uploaded_run new
  uploaded_run-eq-ok upload {run} h = elim (Result-cases (validate_input (input_of upload))) [
    | inl (v, e) ↦ absurd (ground arith)
    | inr (u, e) ↦ elim (Result-cases (queued_stages 1 (λ name. true))) [
      | inl (v, e') ↦ absurd (ground arith)
      | inr (stages, e') ↦
          let built : from_contract (new_run objects max_upload_bytes code fresh f upload stages)
              ≡ ok run =
            ground arith in
          let (same, _) = checked_run-eq-ok _ (from_contract-eq-ok _ built) in
          (ap (λ x. x.run_id) (sym same), ap (λ x. x.status) (sym same))
    ]
  ]

  -- A call for a run that is there returns it, and changes nothing.
  finalize-found :
      (p : Planes) (upload : FinalizedUpload) {run r : AnalysisRun}
      → finalize_upload objects f.run_id max_upload_bytes video_content_types ≡ ok upload
      → uploaded_run objects max_upload_bytes code fresh f upload ≡ ok run
      → load p.store f.run_id ≡ ok r
      → finalize objects max_upload_bytes code fresh f p ≡ (ok r, p)
  unfolding finalize create_or_load ◌>>=◌ lift
  finalize-found p upload {run} {r} accepted made found =
      let (same, waiting) = uploaded_run-eq-ok upload made in
      let again : create p.store run ≡ err run_already_exists =
        create_again p.store run waiting (subst (λ i. load p.store i ≡ ok r) (sym same) found) in
      rw accepted (rw made (rw again (loading_found p f.run_id found)))

enqueue_run-store :
    (fresh : Fresh) (run : AnalysisRun) (profile : String) (p : Planes)
    → (enqueue_run fresh run profile p).1.store ≡ p.store
unfolding enqueue_run enqueuing ◌>>=◌ lift
enqueue_run-store fresh run profile p = elim (Result-cases (new_job fresh run profile)) [
  | inl (e, refused) ↦ rw refused refl
  | inr (job, made) ↦ elim (Result-cases (enqueue p.queue job)) [
    | inl (e, refused) ↦ rw made (rw refused refl)
    | inr (q, accepted) ↦ rw made (rw accepted refl)
  ]
]

found-eq :
    (p q : Planes) (run_id : String) {run : AnalysisRun} (c : Reply AnalysisRun)
    → load p.store run_id ≡ c
    → found p c ≡ (ok run, q)
    → load q.store run_id ≡ ok run
found-eq p q run_id (ok r) e h = cc
found-eq p q run_id (err _) e h = cc

module _ (objects : Objects) (max_upload_bytes : ℕ) (code : CodeReference) (fresh : Fresh)
    (f : Finalize) where
  created-eq :
      (p q : Planes) (run₀ : AnalysisRun) {run : AnalysisRun} (c : Reply Store)
      → create p.store run₀ ≡ c
      → run₀.run_id ≡ f.run_id
      → created p (loading f.run_id) (enqueue_run fresh run₀ f.profile >> lift (ok run₀)) c
        ≡ (ok run, q)
      → load q.store f.run_id ≡ ok run
  unfolding loading ◌>>=◌
  created-eq p q run₀ (ok s) e same h =
      let (result, kept) =
        >>-pure-eq-ok (enqueue_run fresh run₀ f.profile) run₀ (record p { store = s }) h in
      let stores : q.store ≡ s =
        sym (ap (λ x. x.store) kept)
        ∙ enqueue_run-store fresh run₀ f.profile (record p { store = s }) in
      ap (λ x. load x f.run_id) stores
      ∙ subst (λ i. load s i ≡ ok run₀) same (create-load p.store run₀ e)
      ∙ ap ok result
  created-eq p q run₀ (err run_already_exists) e same h =
      found-eq p q f.run_id (load p.store f.run_id) refl h
  created-eq p q run₀ (err _) e same h = cc

  -- A run that a call returns is in the store.
  finalize-load :
      (p q : Planes) {run : AnalysisRun}
      → finalize objects max_upload_bytes code fresh f p ≡ (ok run, q)
      → load q.store f.run_id ≡ ok run
  unfolding finalize create_or_load
  finalize-load p q h =
      let (upload, accepted, h₁) =
        lift->>=-eq-ok
          (from_objects (finalize_upload objects f.run_id max_upload_bytes video_content_types)) _ p
          h in
      let (run, made, h₂) =
        lift->>=-eq-ok (uploaded_run objects max_upload_bytes code fresh f upload) _ p h₁ in
      let (same, _) = uploaded_run-eq-ok objects max_upload_bytes code fresh f upload made in
      created-eq p q run (create p.store run) refl same h₂

-- At-least-once finalization: when a call has returned a run, any calls of the store follow, and a
-- call for the same id, with any arguments, is accepted and valid, then that call returns the run
-- that the store holds by then, which has the identity and provenance of the run returned first, and
-- changes neither the store nor the queue.
pub finalize-again :
    (sha256 : Bytes → String) (objects objects' : Objects) (max_upload_bytes : ℕ)
    (code code' : CodeReference) (fresh fresh' : Fresh) (f f' : Finalize) (p q r : Planes)
    (upload : FinalizedUpload) (run run' : AnalysisRun)
    → finalize objects max_upload_bytes code fresh f p ≡ (ok run, q)
    → History sha256 q.store r.store
    → f'.run_id ≡ f.run_id
    → finalize_upload objects' f'.run_id max_upload_bytes video_content_types ≡ ok upload
    → uploaded_run objects' max_upload_bytes code' fresh' f' upload ≡ ok run'
    → (again : AnalysisRun) × (load r.store f'.run_id ≡ ok again)
      × (finalize objects' max_upload_bytes code' fresh' f' r ≡ (ok again, r))
      × SameProvenance run again
finalize-again sha256 objects objects' max code code' fresh fresh' f f' p q r upload run run' first
      past same accepted made =
    let loaded = finalize-load objects max code fresh f p q first in
    let (again, found, provenance) =
      load-SameProvenance sha256 q.store r.store f.run_id run loaded past in
    let there : load r.store f'.run_id ≡ ok again =
      subst (λ i. load r.store i ≡ ok again) (sym same) found in
    (
      again,
      there,
      finalize-found objects' max code' fresh' f' r upload accepted made there,
      provenance,
    )

-- When the queue refuses the job of a new upload, the call raises and leaves the run in the store
-- without a job; a call again, accepted and valid, returns the run and enqueues no job.
pub finalize-stranded :
    (objects : Objects) (max_upload_bytes : ℕ) (code : CodeReference) (fresh fresh' : Fresh)
    (f : Finalize) (p : Planes) (upload : FinalizedUpload) (run run' : AnalysisRun) (s : Store)
    (e : Refusal)
    → finalize_upload objects f.run_id max_upload_bytes video_content_types ≡ ok upload
    → uploaded_run objects max_upload_bytes code fresh f upload ≡ ok run
    → uploaded_run objects max_upload_bytes code fresh' f upload ≡ ok run'
    → create p.store run ≡ ok s
    → enqueue_run fresh run f.profile (record p { store = s }) ≡ (err e, record p { store = s })
    → (finalize objects max_upload_bytes code fresh f p ≡ (err e, record p { store = s }))
      × (finalize objects max_upload_bytes code fresh' f (record p { store = s })
          ≡ (ok run, record p { store = s }))
unfolding finalize create_or_load ◌>>=◌ lift
finalize-stranded objects max code fresh fresh' f p upload run run' s e accepted made made' new
      refused =
    let (same, _) = uploaded_run-eq-ok objects max code fresh f upload made in
    let there : load s f.run_id ≡ ok run =
      subst (λ i. load s i ≡ ok run) same (create-load p.store run new) in
    (
      rw accepted (rw made (rw new (rw refused refl))),
      finalize-found objects max code fresh' f (record p { store = s }) upload accepted made' there,
    )
