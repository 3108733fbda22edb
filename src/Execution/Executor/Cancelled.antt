-- ===== src/Execution/Executor/Cancelled.antt =====
-- A cancellation that reaches `AnalysisExecutor.execute` of
-- v2/src/footballai_v2/execution/executor.py before the run is started.
use football_ai.Prelude.{
  ◌≡◌, refl, sym, ap, ◌∙◌, subst, ℕ, Bool, if◌then◌else◌, suc, String, true, false, none, some, ◌≤◌,
  arith,
}
use football_ai.Prelude.Result.{Result, ok}
use football_ai.Run.Status.{queued, cancelled, is_terminal, run_status_is}
use football_ai.Run.Record.{AnalysisRun, Datetime}
use football_ai.Run.Checks.{validate_safe_text}
use football_ai.Run.Text.{is_unsafe}
use football_ai.Run.Text.Identifiers.{non_empty}
use football_ai.Run.Validate.{validate_run}
use football_ai.Run.Transition.{Operation, cancel, apply, replaced}
use football_ai.Run.Transition.Cancel.{apply-cancel}
use football_ai.Storage.Lifecycle.Provenance.{provenance_differs_of_same}
use football_ai.Storage.Local.{save, cancellation_requested}
use football_ai.Storage.Local.Directory.{Bytes, Store, load}
use football_ai.Storage.Local.Inversion.{load-eq-ok, save_active}
use football_ai.Storage.Local.Immutable.{save-load}
use football_ai.Execution.Job.{ExecutionJob}
use football_ai.Prelude.Action.{follow, ◌>>=◌, lift}
use football_ai.Execution.Executor.World.{
  Raised, Act, from_store, Host, World, reading, repository_save, save_applied, now,
}
use football_ai.Execution.Executor.{begin, execute}

abbrev cancel_reason : String
cancel_reason = "Cancelled before execution."

abbrev pub cancelled_at : Datetime → AnalysisRun → AnalysisRun
cancelled_at at run = replaced (cancel at (some cancel_reason) none) run

save-cancelled :
    (sha256 : Bytes → String) (s : Store) (run_id : String) (run : AnalysisRun) (at : Datetime)
    → load s run_id ≡ ok run
    → run.status ≡ queued
    → (s' : Store) × (save sha256 s (cancelled_at at run) ≡ ok s')
save-cancelled sha256 s run_id run at loaded waiting =
    let (_, _, _, same) = load-eq-ok s run_id loaded in
    let loaded' : load s run.run_id ≡ ok run = subst (λ i. load s i ≡ ok run) (sym same) loaded in
    save_active sha256 s run (cancelled_at at run) loaded' (rw waiting refl) (rw waiting refl)
      (provenance_differs_of_same (ground arith)) refl

cancel_reason-IsSafe : validate_safe_text cancel_reason ≡ ok tt
unfolding validate_safe_text non_empty is_unsafe
cancel_reason-IsSafe = refl

-- What an action returns, from what its parts return.
>>=-runs :
    {A B : Type 0} (m : Act A) (f : A → Act B) (w : World) {a : A} {v : World}
    {x : Result Raised B × World}
    → m w ≡ (ok a, v)
    → f a v ≡ x
    → (m >>= f) w ≡ x
unfolding ◌>>=◌
>>=-runs m f w p q = ap (follow f) p ∙ q

if-runs :
    {A : Type 0} (b : Bool) (m n : Act A) {w : World} {x : Result Raised A × World}
    → b ≡ true
    → m w ≡ x
    → (if b then m else n) w ≡ x
if-runs b m n e h = rw e h

else-runs :
    {A : Type 0} (b : Bool) (m n : Act A) {w : World} {x : Result Raised A × World}
    → b ≡ false
    → n w ≡ x
    → (if b then m else n) w ≡ x
else-runs b m n e h = rw e h

module _ (host : Host) (alone : (n : ℕ) (s : Store) → host.interfere n s ≡ s) (w : World) where
  abbrev ticked : World
  ticked = record w { ticks = suc w.ticks }

  reading-runs :
      {A : Type 0} (f : Store → Result Raised A) {a : A}
      → f w.store ≡ ok a
      → reading host f w ≡ (ok a, ticked)
  unfolding reading
  reading-runs f e = rw (alone w.ticks w.store) (rw e refl)

  save_applied-runs :
      (op : Operation) (run : AnalysisRun) {r : AnalysisRun} {s : Store}
      → apply op run ≡ ok r
      → save host.sha256 w.store r ≡ ok s
      → save_applied host op run w ≡ (ok r, record ticked { store = s })
  unfolding save_applied repository_save ◌>>=◌ lift
  save_applied-runs op run e h = rw e (rw (alone w.ticks w.store) (rw h refl))

module _ (host : Host) (job : ExecutionJob) (worker_id : String) (w : World) where
  -- The instant at which the run is cancelled, after two steps.
  abbrev stopped_at : Datetime
  stopped_at = host.clock (suc (suc w.ticks))

  -- A worker that has the store to itself ends a queued run whose cancellation was requested: it
  -- returns cancelled, and the store holds the run as cancelled by the clock. The run is valid, has
  -- no partial reason, and was created before.
  pub execute-cancelled :
      (run : AnalysisRun)
      → ((n : ℕ) (s : Store) → host.interfere n s ≡ s)
      → load w.store job.run_id ≡ ok run
      → cancellation_requested w.store job.run_id ≡ ok true
      → run.status ≡ queued
      → validate_run run ≡ ok tt
      → run.partial_reason ≡ none
      → run.created_at ≤ stopped_at
      → ((execute host job worker_id w).0 ≡ ok cancelled)
        × (load (execute host job worker_id w).1.store job.run_id
            ≡ ok (cancelled_at stopped_at run))
  unfolding execute begin now lift
  execute-cancelled run alone loaded requested waiting valid no_reason late =
      let (_, _, _, same) = load-eq-ok w.store job.run_id loaded in
      let (s', saved) =
        save-cancelled host.sha256 w.store job.run_id run stopped_at loaded waiting in
      let accepted =
        apply-cancel run stopped_at cancel_reason valid waiting no_reason late
          cancel_reason-IsSafe in
      let asked : cancellation_requested w.store run.run_id ≡ ok true =
        subst (λ i. cancellation_requested w.store i ≡ ok true) (sym same) requested in
      let runs : execute host job worker_id w ≡ (ok cancelled, _) =
        >>=-runs _ _ w (reading-runs host alone w _ (ap from_store loaded)) (
          else-runs (is_terminal run.status) _ _ (ap is_terminal waiting) (
            if-runs (run_status_is run.status queued) _ _ (ap (λ x. run_status_is x queued) waiting)
              (>>=-runs _ _ _ (reading-runs host alone _ _ (ap from_store asked)) (
                >>=-runs _ _ _ refl
                  (>>=-runs _ _ _ (save_applied-runs host alone _ _ run accepted saved) refl))))) in
      (
        ap (λ x. x.0) runs,
        subst (λ x. load x.1.store job.run_id ≡ ok (cancelled_at stopped_at run)) (sym runs)
            (subst (λ i. load s' i ≡ ok (cancelled_at stopped_at run)) same
              (save-load host.sha256 w.store (cancelled_at stopped_at run) saved)),
      )
