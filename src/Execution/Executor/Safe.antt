-- ===== src/Execution/Executor/Safe.antt =====
-- What `AnalysisExecutor.execute` of v2/src/footballai_v2/execution/executor.py does to the store:
-- calls of the store, among those of the API and of the other workers.
pub mod Run
use football_ai.Prelude.{ℕ, String, Bool, true, false, ◌≡◌, refl, Option, if◌then◌else◌}
use football_ai.Prelude.Result.{Result, ok, err}
use football_ai.Run.Status.{ArtifactCategory}
use football_ai.Run.Record.{AnalysisRun}
use football_ai.Run.Transition.{Operation}
use football_ai.Storage.Local.{save, write_artifact}
use football_ai.Storage.Local.Directory.{Bytes, Store, StoreError, Reply}
use football_ai.Storage.Local.History.{History, here, next, saved, written}
use football_ai.Prelude.Action.{◌>>=◌, follow, handle, lift, rescue}
use football_ai.Execution.Executor.World.{
  Raised, Host, World, Act, reading, current, stored, repository_save, save_applied, storage_write,
  now, step, set_active, get_active,
}

module _ (sha256 : Bytes → String) where
  pub History-trans : {s t u : Store} → History sha256 s t → History sha256 t u → History sha256 s u
  History-trans h here = h
  History-trans h (next k step) = next (History-trans h k) step

-- The action makes a history of calls, from any world.
pub record Safe (sha256 : Bytes → String) {A : Type 0} (m : Act A) : Type 0 where
  pub at : (w : World) → History sha256 w.store (m w).1.store

module _ {sha256 : Bytes → String} where
  pub >>=-Safe :
      {A B : Type 0} (m : Act A) (f : A → Act B)
      → Safe sha256 m
      → ((a : A) → Safe sha256 (f a))
      → Safe sha256 (m >>= f)
  unfolding ◌>>=◌
  >>=-Safe {A} {B} m f h k = record { at = λ w. after (m w) (h.at w) }
    where
      after :
          {s : Store} (x : Result Raised A × World)
          → History sha256 s x.1.store
          → History sha256 s (follow f x).1.store
      after (ok a, v) p = History-trans sha256 p ((k a).at v)
      after (err e, v) p = p

  pub rescue-Safe :
      {A : Type 0} (m : Act A) (h : Raised → Act A)
      → Safe sha256 m
      → ((e : Raised) → Safe sha256 (h e))
      → Safe sha256 (rescue m h)
  unfolding rescue
  rescue-Safe {A} m f h k = record { at = λ w. after (m w) (h.at w) }
    where
      after :
          {s : Store} (x : Result Raised A × World)
          → History sha256 s x.1.store
          → History sha256 s (handle f x).1.store
      after (ok a, v) p = p
      after (err e, v) p = History-trans sha256 p ((k e).at v)

  pub if-Safe :
      {A : Type 0} (b : Bool) {m n : Act A}
      → Safe sha256 m
      → Safe sha256 n
      → Safe sha256 (if b then m else n)
  if-Safe true h k = h
  if-Safe false h k = k

  pub lift-Safe : {A : Type 0} (r : Result Raised A) → Safe sha256 (lift r)
  unfolding lift
  lift-Safe r = record { at = λ w. here }

  pub set_active-Safe : (i : Option ℕ) → Safe sha256 (set_active i)
  unfolding set_active
  set_active-Safe i = record { at = λ w. here }

  pub get_active-Safe : Safe sha256 get_active
  unfolding get_active
  get_active-Safe = record { at = λ w. here }

module _ (host : Host) where
  -- What happens between two steps of the executor is calls of the store.
  pub record SharedStore : Type 0 where
    pub calls : (n : ℕ) (s : Store) → History host.sha256 s (host.interfere n s)

  pub now-Safe : Safe host.sha256 (now host)
  unfolding now
  now-Safe = record { at = λ w. here }

  pub step-Safe : Safe host.sha256 (step host)
  unfolding step
  step-Safe = record { at = λ w. here }

module _ (host : Host) (shared : SharedStore host) where
  pub reading-Safe : {A : Type 0} (f : Store → Result Raised A) → Safe host.sha256 (reading host f)
  unfolding reading
  reading-Safe f = record { at = λ w. shared.calls w.ticks w.store }

  repository_save-Safe : (run : AnalysisRun) → Safe host.sha256 (repository_save host run)
  unfolding repository_save
  repository_save-Safe run = record {
    at = λ w. after w (save host.sha256 (current host w).store run) refl;
  }
    where
      after :
          (w : World) (r : Reply Store)
          → save host.sha256 (current host w).store run ≡ r
          → History host.sha256 w.store (stored host (current host w) r).1.store
      after w (ok s) e = next (shared.calls w.ticks w.store) (saved run e)
      after w (err _) e = shared.calls w.ticks w.store

  pub save_applied-Safe :
      (op : Operation) (run : AnalysisRun) → Safe host.sha256 (save_applied host op run)
  unfolding save_applied
  save_applied-Safe op run = search (>>=-Safe, lift-Safe, repository_save-Safe)

  pub storage_write-Safe :
      (run_id artifact_id name : String) (category : ArtifactCategory) (path : String)
      (content : Bytes) (media_type : String) (schema : Option String)
      → Safe host.sha256
          (storage_write host run_id artifact_id name category path content media_type schema)
  unfolding storage_write
  storage_write-Safe run_id artifact_id name category path content media_type schema = record {
    at = λ w.
        next (shared.calls w.ticks w.store)
          (written run_id artifact_id name category path content media_type schema refl);
  }

pub ruleset safe_rules = (
  >>=-Safe, rescue-Safe, if-Safe, lift-Safe, set_active-Safe, get_active-Safe, now-Safe, step-Safe,
  reading-Safe, save_applied-Safe, storage_write-Safe,
)
