-- ===== src/Execution/Executor/Ends.antt =====
-- How `AnalysisExecutor.execute` of v2/src/footballai_v2/execution/executor.py ends.
pub mod Run
use football_ai.Prelude.{
  ◌≡◌, refl, sym, ap, ◌∙◌, subst, String, Bool, true, false, if◌then◌else◌, if_both,
}
use football_ai.Prelude.Result.{Result, ok, err}
use football_ai.Run.Status.{AnalysisRunStatus, is_terminal}
use football_ai.Run.Record.{AnalysisRun}
use football_ai.Run.Checks.{Checked}
use football_ai.Run.Transition.{Operation, apply, replaced}
use football_ai.Run.Transition.Inversion.{apply-eq-ok}
use football_ai.Storage.Local.{save}
use football_ai.Storage.Local.Directory.{Store, Reply, load}
use football_ai.Storage.Local.Immutable.{save-load}
use football_ai.Prelude.Action.{◌>>=◌, follow, handle, lift, rescue}
use football_ai.Execution.Executor.World.{
  Raised, Host, World, Act, reading, current, stored, repository_save, repository_load,
  save_applied, from_store, from_contract,
}

-- The store holds the run, in a terminal state.
pub record Ended (run_id : String) (status : AnalysisRunStatus) (s : Store) : Type 0 where
  pub run : AnalysisRun
  pub loaded : load s run_id ≡ ok run
  pub same_status : run.status ≡ status
  pub terminal : is_terminal status ≡ true

-- What a status that is returned says of the store.
abbrev pub Outcome : String → Result Raised AnalysisRunStatus × World → Type 0
Outcome run_id (ok status, w) = Ended run_id status w.store
Outcome run_id (err e, w) = Unit

pub record Ends (run_id : String) (m : Act AnalysisRunStatus) : Type 0 where
  pub at : (w : World) → Outcome run_id (m w)

module _ {run_id : String} where
  pub >>=-Ends :
      {A : Type 0} (m : Act A) (f : A → Act AnalysisRunStatus)
      → ((a : A) → Ends run_id (f a))
      → Ends run_id (m >>= f)
  unfolding ◌>>=◌
  >>=-Ends {A} m f k = record { at = λ w. after (m w) }
    where
      after : (x : Result Raised A × World) → Outcome run_id (follow f x)
      after (ok a, v) = (k a).at v
      after (err e, v) = tt

  pub rescue-Ends :
      (m : Act AnalysisRunStatus) (h : Raised → Act AnalysisRunStatus)
      → Ends run_id m
      → ((e : Raised) → Ends run_id (h e))
      → Ends run_id (rescue m h)
  unfolding rescue
  rescue-Ends m h k l = record { at = λ w. after (m w) (k.at w) }
    where
      after :
          (x : Result Raised AnalysisRunStatus × World)
          → Outcome run_id x
          → Outcome run_id (handle h x)
      after (ok a, v) p = p
      after (err e, v) p = (l e).at v

  pub if-Ends :
      (b : Bool) {m n : Act AnalysisRunStatus}
      → Ends run_id m
      → Ends run_id n
      → Ends run_id (if b then m else n)
  if-Ends true h k = h
  if-Ends false h k = k

module _ (host : Host) (run_id : String) where
  -- What follows a load starts in a store that holds the run.
  pub load-Ends :
      (f : AnalysisRun → Act AnalysisRunStatus)
      → ((run : AnalysisRun) (w : World) → load w.store run_id ≡ ok run → Outcome run_id (f run w))
      → Ends run_id (repository_load host run_id >>= f)
  unfolding ◌>>=◌ reading
  load-Ends f k = record {
    at = λ w. after (current host w) (load (current host w).store run_id) refl;
  }
    where
      after :
          (w : World) (r : Reply AnalysisRun)
          → load w.store run_id ≡ r
          → Outcome run_id (follow f (from_store r, w))
      after w (ok run) e = k run w e
      after w (err _) e = tt

  -- A run that is terminal is returned as it is.
  pub terminal-Ends :
      (run : AnalysisRun) (w : World) (rest : Act AnalysisRunStatus)
      → load w.store run_id ≡ ok run
      → Ends run_id rest
      → Outcome run_id ((if is_terminal run.status then lift (ok run.status) else rest) w)
  unfolding lift
  terminal-Ends run w rest h k =
      if_both (λ (m : Act AnalysisRunStatus). Outcome run_id (m w)) (is_terminal run.status)
        (λ e. record { run = run; loaded = h; same_status = refl; terminal = e }) (λ _. k.at w)

  -- A lifecycle call that ends the run, and its save.
  pub save_applied-Ends :
      (op : Operation) (run : AnalysisRun) (result : AnalysisRun → AnalysisRunStatus)
      → (replaced op run).run_id ≡ run_id
      → (replaced op run).status ≡ result (replaced op run)
      → is_terminal (result (replaced op run)) ≡ true
      → Ends run_id (save_applied host op run >>= λ r. lift (ok (result r)))
  unfolding ◌>>=◌ save_applied lift repository_save
  save_applied-Ends op run result same_id same_status terminal = record {
    at = λ w. applied w (apply op run) refl;
  }
    where
      saved :
          (w : World) (r : AnalysisRun) (reply : Reply Store)
          → replaced op run ≡ r
          → save host.sha256 (current host w).store r ≡ reply
          → Outcome run_id (
              follow
                (λ r. lift (ok (result r)))
                (follow (λ _. lift (ok r)) (stored host (current host w) reply)))
      saved w r (ok s) e h = record {
        run = r;
        loaded =
            subst (λ i. load s i ≡ ok r) (sym (ap (λ x. x.run_id) e) ∙ same_id)
              (save-load host.sha256 (current host w).store r h);
        same_status = subst (λ x. x.status ≡ result x) e same_status;
        terminal = subst (λ x. is_terminal (result x) ≡ true) e terminal;
      }
      saved w r (err _) e h = tt

      applied :
          (w : World) (c : Checked AnalysisRun)
          → apply op run ≡ c
          → Outcome run_id (
              follow
                (λ r. lift (ok (result r)))
                (follow
                  (λ r. (repository_save host r >>= λ _. lift (ok r)))
                  (lift (from_contract c) w)))
      applied w (ok r) h =
          let (_, e, _) = apply-eq-ok op run h in
          saved w r (save host.sha256 (current host w).store r) e refl
      applied w (err _) h = tt
