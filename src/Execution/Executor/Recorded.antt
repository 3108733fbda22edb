-- ===== src/Execution/Executor/Recorded.antt =====
-- What `AnalysisExecutor.execute` of v2/src/footballai_v2/execution/executor.py promises to the
-- workers that call it.
use football_ai.Prelude.{◌≡◌, refl, String, true}
use football_ai.Prelude.Result.{ok}
use football_ai.Run.Status.{is_terminal}
use football_ai.Run.Record.{AnalysisRun}
use football_ai.Storage.Local.Directory.{load}
use football_ai.Storage.Local.History.{History}
use football_ai.Storage.Local.Immutable.{load-terminal}
use football_ai.Execution.Job.{ExecutionJob}
use football_ai.Prelude.Action.{◌>>=◌, lift}
use football_ai.Execution.Executor.World.{Host, World, reading, current}
use football_ai.Execution.Executor.Safe.{SharedStore}
use football_ai.Execution.Executor.Safe.Run.{execute-Safe}
use football_ai.Execution.Executor.Ends.{Outcome}
use football_ai.Execution.Executor.Ends.Run.{execute-Ends}
use football_ai.Execution.Executor.{execute}

-- Whether it returns or raises, `execute` has made calls of the store, among those of others, and
-- nothing else. A status that it returns is terminal, and the store holds the run with it.
pub execute-Outcome :
    (host : Host) (job : ExecutionJob) (worker_id : String) (w : World)
    → SharedStore host
    → History host.sha256 w.store (execute host job worker_id w).1.store
      × Outcome job.run_id (execute host job worker_id w)
execute-Outcome host job worker_id w shared =
    ((execute-Safe host shared job worker_id).at w, (execute-Ends host job worker_id).at w)

-- The execution of a run that is terminal, however the store is shared, returns the status of the
-- run and makes no call that changes the store.
pub execute-terminal :
    (host : Host) (job : ExecutionJob) (worker_id : String) (w : World) (run : AnalysisRun)
    → SharedStore host
    → load w.store job.run_id ≡ ok run
    → is_terminal run.status ≡ true
    → execute host job worker_id w ≡ (ok run.status, current host w)
unfolding execute ◌>>=◌ reading lift
execute-terminal host job worker_id w run shared loaded terminal =
    let still =
      load-terminal host.sha256 w.store (current host w).store job.run_id run loaded terminal
        (shared.calls w.ticks w.store) in
    rw still (rw terminal refl)
