-- ===== src/Execution/Executor/Completed.antt =====
-- What `AnalysisExecutor.execute` of v2/src/footballai_v2/execution/executor.py has stored when the
-- publication of its payloads returns.
use football_ai.Prelude.{
  String, List, [], ◌∷◌, ◌++◌, map, ◌≡◌, refl, sym, ap, ◌∙◌, subst, Bool, true, false,
  if◌then◌else◌, ◌⊎◌, inl, inr,
}
use football_ai.Prelude.Result.{Result, ok, err, ok_eq}
use football_ai.Prelude.Action.{◌>>=◌, lift, lift->>=-eq-ok, >>=-returned}
use football_ai.Run.Json.{get}
use football_ai.Run.Status.{AnalysisRunStatus, partial, succeeded}
use football_ai.Run.Record.{AnalysisRun, ArtifactReference}
use football_ai.Run.Checks.{Checked}
use football_ai.Run.Transition.{Operation, apply, replaced}
use football_ai.Run.Transition.Inversion.{apply-eq-ok}
use football_ai.Storage.Local.Directory.{Store, Reply, load}
use football_ai.Storage.Local.Inversion.{load-eq-ok}
use football_ai.Storage.Local.Immutable.{save-load}
use football_ai.Execution.Job.{ExecutionJob}
use football_ai.Execution.Executor.World.{
  Payloads, Host, World, current, reading, repository_save, save_applied, from_store, from_contract,
  stored, Act, Raised, repository_load, now,
}
use football_ai.Execution.Executor.Produced.{is_true}
use football_ai.Execution.Executor.Publication.{
  write_payloads, write_summary_alias, write_advisory_alias, check_integrity, complete,
  publish_built,
}
use football_ai.Execution.Executor.Written.{
  published_id, ids, ids-append, write_payloads-ids, write_summary_alias-id,
  write_advisory_alias-id,
}

applied-eq-ok : (c : Checked AnalysisRun) {r : AnalysisRun} → from_contract c ≡ ok r → c ≡ ok r
applied-eq-ok (ok a) h = ap ok (ok_eq h)
applied-eq-ok (err e) h = cc

-- The run that the store holds when its payloads are published.
pub record Completed (run_id : String) (payloads : Payloads) (status : AnalysisRunStatus)
    (s : Store) : Type 0 where
  pub run : AnalysisRun
  pub loaded : load s run_id ≡ ok run
  pub same_status : run.status ≡ status
  pub chosen :
      status ≡ (if is_true (get run.parameters "force_partial") then partial else succeeded)
  pub artifacts_are :
      ids run.artifacts
      ≡ map published_id payloads ++ "legacy-player-summary" ∷ "dashboard-workload-advisory" ∷ []

module _ (host : Host) where
  stored-eq-ok :
      (w u : World) (reply : Reply Store)
      → stored host w reply ≡ (ok tt, u)
      → (s : Store) × (reply ≡ ok s) × (u.store ≡ s)
  stored-eq-ok w u (ok s) h = (s, refl, sym (ap (λ x. x.1.store) h))
  stored-eq-ok w u (err e) h = cc

  save_applied-returned :
      (op : Operation) (run : AnalysisRun) (w v : World) {r : AnalysisRun}
      → save_applied host op run w ≡ (ok r, v)
      → (replaced op run ≡ r) × (load v.store r.run_id ≡ ok r)
  unfolding save_applied repository_save lift
  save_applied-returned op run w v {r} h =
      let (r', made, rest) = lift->>=-eq-ok (from_contract (apply op run)) _ w h in
      let (_, u, saved, done) = >>=-returned (repository_save host r') _ w rest in
      let (s, accepted, store_is) = stored-eq-ok (current host w) u _ saved in
      let same : r' ≡ r = ok_eq (ap (λ x. x.0) done) in
      let world : u ≡ v = ap (λ x. x.1) done in
      let (_, is_replaced, _) = apply-eq-ok op run (applied-eq-ok (apply op run) made) in
      (
        is_replaced ∙ same,
        subst (λ x. load v.store x.run_id ≡ ok x) same
            (subst (λ z. load z r'.run_id ≡ ok r') (sym store_is ∙ ap (λ x. x.store) world)
              (save-load host.sha256 (current host w).store r' accepted)),
      )

  loaded-eq-ok : (c : Reply AnalysisRun) {r : AnalysisRun} → from_store c ≡ ok r → c ≡ ok r
  loaded-eq-ok (ok a) h = ap ok (ok_eq h)
  loaded-eq-ok (err e) h = cc

  if-at :
      {A : Type 0} (b : Bool) (m n : Act A) (u : World) {x : Result Raised A × World}
      → (if b then m else n) u ≡ x
      → ((b ≡ true) × (m u ≡ x)) ⊎ ((b ≡ false) × (n u ≡ x))
  if-at true m n u h = inl (refl, h)
  if-at false m n u h = inr (refl, h)

  saved_run :
      (current : AnalysisRun) (run_id : String) (op : Operation)
      (artifacts : List ArtifactReference) (u v : World) {status : AnalysisRunStatus}
      → current.run_id ≡ run_id
      → (replaced op current).run_id ≡ current.run_id
      → (replaced op current).artifacts ≡ artifacts
      → (replaced op current).status ≡ (
          if is_true (get (replaced op current).parameters "force_partial")
          then partial
          else succeeded)
      → (save_applied host op current >>= λ r. lift (ok r.status)) u ≡ (ok status, v)
      → (run : AnalysisRun) × (load v.store run_id ≡ ok run)
        × (run.artifacts ≡ artifacts)
        × (run.status ≡ status)
        × (status ≡ (if is_true (get run.parameters "force_partial") then partial else succeeded))
  unfolding lift
  saved_run current run_id op artifacts u v {status} same_id kept_id kept chosen h =
      let (r, u₁, saved, done) = >>=-returned (save_applied host op current) _ u h in
      let (is_replaced, there) = save_applied-returned op current u u₁ saved in
      let same_status : r.status ≡ status = ok_eq (ap (λ x. x.0) done) in
      let id : r.run_id ≡ run_id = ap (λ x. x.run_id) (sym is_replaced) ∙ kept_id ∙ same_id in
      (
        r,
        ap (λ i. load v.store i) (sym id) ∙ ap (λ x. load x.1.store r.run_id) (sym done) ∙ there,
        ap (λ x. x.artifacts) (sym is_replaced) ∙ kept,
        same_status,
        sym same_status
            ∙ subst
                (λ x.
                  x.status
                  ≡ (if is_true (get x.parameters "force_partial") then partial else succeeded))
                is_replaced chosen,
      )

  -- The run that `complete` has stored.
  complete-returned :
      (run_id : String) (artifacts : List ArtifactReference) (w v : World)
      {status : AnalysisRunStatus}
      → complete host run_id artifacts w ≡ (ok status, v)
      → (run : AnalysisRun) × (load v.store run_id ≡ ok run)
        × (run.artifacts ≡ artifacts)
        × (run.status ≡ status)
        × (status ≡ (if is_true (get run.parameters "force_partial") then partial else succeeded))
  unfolding complete lift reading
  complete-returned run_id artifacts w v {status} h =
      let (run, u, read, h₁) = >>=-returned (repository_load host run_id) _ w h in
      let (stages, _, h₂) = lift->>=-eq-ok _ _ u h₁ in
      let there : load (current host w).store run_id ≡ ok run =
        loaded-eq-ok _ (ap (λ x. x.0) read) in
      let (_, _, _, same_id) = load-eq-ok _ run_id there in
      elim (if-at (is_true (get run.parameters "force_partial")) _ _ u h₂) [
        | inl (e, k) ↦
            let (stopped, _, k₁) = lift->>=-eq-ok _ _ u k in
            let (at, u₁, _, k₂) = >>=-returned (now host) _ u k₁ in
            saved_run run run_id _ artifacts u₁ v same_id refl refl (rw e refl) k₂
        | inr (e, k) ↦
            let (at, u₁, _, k₁) = >>=-returned (now host) _ u k in
            saved_run run run_id _ artifacts u₁ v same_id refl refl (rw e refl) k₁
      ]

  -- What the publication of payloads that returns has stored: the run with one artifact for each
  -- payload, in their order, and the two aliases after them, and nothing else; and its status, which
  -- is the one that is returned, is partial if a parameter forces it and succeeded otherwise.
  pub publish_built-Completed :
      (job : ExecutionJob) (run : AnalysisRun) (payloads : Payloads) (w v : World)
      (status : AnalysisRunStatus)
      → publish_built host job run payloads w ≡ (ok status, v)
      → Completed job.run_id payloads status v.store
  unfolding publish_built
  publish_built-Completed job run payloads w v status h =
      let (written_artifacts, u₁, e₁, h₁) =
        >>=-returned (write_payloads host run.run_id payloads []) _ w h in
      let (summary, u₂, e₂, h₂) =
        >>=-returned (write_summary_alias host run.run_id payloads) _ u₁ h₁ in
      let (advisory, u₃, e₃, h₃) =
        >>=-returned (write_advisory_alias host run.run_id payloads) _ u₂ h₂ in
      let artifacts = written_artifacts ++ summary ∷ advisory ∷ [] in
      let (_, u₄, _, h₄) = >>=-returned (check_integrity host run.run_id artifacts) _ u₃ h₃ in
      let (end, loaded, artifacts_are, same_status, chosen) =
        complete-returned job.run_id artifacts u₄ v h₄ in
      record {
        run = end;
        loaded = loaded;
        same_status = same_status;
        chosen = chosen;
        artifacts_are =
            ap ids artifacts_are
            ∙ ids-append written_artifacts (summary ∷ advisory ∷ [])
            ∙ rw (write_payloads-ids host run.run_id payloads [] w u₁ e₁) (
                rw (write_summary_alias-id host run.run_id payloads u₁ u₂ e₂)
                  (rw (write_advisory_alias-id host run.run_id payloads u₂ u₃ e₃) refl));
      }
