-- ===== src/Execution/Queue.antt =====
-- v2/src/footballai_v2/execution/queue/local_filesystem.py. A directory of the queue is a dictionary
-- from job ids, the names of its files, to records, and a record that `_read` refuses is `malformed`.
-- Each method is one step: other workers come before it or after it. A run is looked up by the
-- argument `status_of`, which is `none` for `RunNotFoundError`.
pub mod Places
pub mod Calls
pub mod Directories
use Prim.Native.String.{compare}
use Prim.Native.Nat.{Ordering}
use football_ai.Prelude.{
  ℕ, ◌≡◌, ◌+◌, ◌-◌, String, Bool, true, false, not, ◌&&◌, Option, none, some, is_some, List, [],
  ◌∷◌, ltb, member, String-discrete, str_eq, if◌then◌else◌, any,
}
use football_ai.Prelude.Result.{Result, ok, err, ◌>>=◌}
use football_ai.Prelude.Dict
use football_ai.Run.Status.{AnalysisRunStatus, is_terminal}
use football_ai.Run.Record.{Datetime}
use football_ai.Execution.Job.{ExecutionJob, is_worker_id}
use football_ai.Execution.Queue.Directories.{
  Directory, Queue, QueueError, QueueRecord, QueueState, at, content, duplicate_job, file_not_found,
  in_cancelled, in_claimed, in_completed, in_failed, in_queued, invalid_worker, malformed, move_raw,
  names, readable, replace, sorted_names, unlink, with_directory, write,
}

unfoldable pub enqueue : Queue → ExecutionJob → Result QueueError Queue
enqueue q job =
    if member String-discrete job.run_id q.run_index
    then err duplicate_job
    else if is_some (Dict.get q.queued job.job_id)
    then err duplicate_job
    else ok (record q {
      run_index = job.run_id ∷ q.run_index;
      queued = Dict.put q.queued job.job_id (readable job);
    })

-- One name of the loop of `claim`, with what `_read` finds and the rest of the loop. A file that is
-- gone is passed over.
unfoldable pub claim_record :
    Queue
    → (worker_id : String) (now : Datetime) (name : String)
    → (rest : Queue → Result QueueError (Option ExecutionJob × Queue)) → Option QueueRecord
    → Result QueueError (Option ExecutionJob × Queue)
claim_record q worker_id now name rest none = rest q
claim_record q worker_id now name rest (some malformed) =
    move_raw q in_queued name in_failed name >>= rest
claim_record q worker_id now name rest (some (readable job)) =
    let claimed : ExecutionJob = record job { claimed_at = some now; worker_id = some worker_id } in
    replace q in_queued name in_claimed job.job_id >>= λ q'.
    ok (some claimed, write q' in_claimed job.job_id (readable claimed))

-- The loop of `claim` over the names.
unfoldable pub claim_first :
    Queue
    → (worker_id : String) (now : Datetime) → List String
    → Result QueueError (Option ExecutionJob × Queue)
claim_first q worker_id now [] = ok (none, q)
claim_first q worker_id now (name ∷ rest) =
    claim_record q worker_id now name (λ q'. claim_first q' worker_id now rest)
      (Dict.get q.queued name)

unfoldable pub claim :
    Queue → (worker_id : String) (now : Datetime) → Result QueueError (Option ExecutionJob × Queue)
claim q worker_id now =
    if not (is_worker_id worker_id)
    then err invalid_worker
    else claim_first q worker_id now (sorted_names (names q.queued))

-- `_terminal_move`: `complete` for `in_completed`, `fail` for `in_failed`.
unfoldable pub terminal_move : Queue → ExecutionJob → QueueState → Result QueueError Queue
terminal_move q job state =
    if is_some (Dict.get (at q state) job.job_id)
    then ok q
    else if is_some (Dict.get q.claimed job.job_id)
    then replace q in_claimed job.job_id state job.job_id
    else ok q

unfoldable pub complete_job : Queue → ExecutionJob → Result QueueError Queue
complete_job q job = terminal_move q job in_completed

unfoldable pub fail_job : Queue → ExecutionJob → Result QueueError Queue
fail_job q job = terminal_move q job in_failed

abbrev is_of_run : String → ExecutionJob → Bool
is_of_run run_id job = str_eq job.run_id run_id

-- One name of the loop of `cancel`, with what `_read` finds and the rest of the loop.
unfoldable pub cancel_record :
    Queue
    → (run_id : String) → QueueState
    → (name : String) → (rest : Result QueueError (Bool × Queue)) → Option QueueRecord
    → Result QueueError (Bool × Queue)
cancel_record q run_id state name rest none = rest
cancel_record q run_id state name rest (some malformed) = rest
cancel_record q run_id state name rest (some (readable job)) =
    if is_of_run run_id job
    then (move_raw q state name in_cancelled job.job_id >>= λ q'. ok (true, q'))
    else rest

unfoldable pub cancel_in :
    Queue → (run_id : String) → QueueState → List String → Result QueueError (Bool × Queue)
cancel_in q run_id state [] = ok (false, q)
cancel_in q run_id state (name ∷ rest) =
    cancel_record q run_id state name (cancel_in q run_id state rest) (Dict.get (at q state) name)

-- `cancel`, of a run id that is valid.
unfoldable pub cancel_run : Queue → (run_id : String) → Result QueueError (Bool × Queue)
cancel_run q run_id = cancel_in q run_id in_queued (names q.queued) >>= λ t.
    if t.0 then ok t else cancel_in t.1 run_id in_claimed (names t.1.claimed)

-- Where the job of a run that has ended goes.
abbrev pub resting_place : AnalysisRunStatus → QueueState
resting_place AnalysisRunStatus.succeeded = in_completed
resting_place AnalysisRunStatus.partial = in_completed
resting_place AnalysisRunStatus.cancelled = in_cancelled
resting_place _ = in_failed

abbrev is_abandoned : (cutoff : Datetime) → Option Datetime → Bool
is_abandoned cutoff none = false
is_abandoned cutoff (some claimed_at) = ltb claimed_at cutoff

abbrev unclaimed : ExecutionJob → ExecutionJob
unclaimed job = record job { claimed_at = none; worker_id = none }

-- A call of a method, with its arguments.
pub data QueueCall : Type 0 where
  enqueues : ExecutionJob → QueueCall
  claims : (worker_id : String) (now : Datetime) → QueueCall
  completes : ExecutionJob → QueueCall
  fails : ExecutionJob → QueueCall
  cancels : (run_id : String) → QueueCall
  recovers : (now timeout : ℕ) → QueueCall

-- A job that is enqueued has an id that names no file, as `uuid4` gives it.
abbrev pub HasFreshId : QueueCall → Queue → Type 0
HasFreshId (enqueues job) q = (s : QueueState) → Dict.get (at q s) job.job_id ≡ none
HasFreshId _ q = Unit

module _ (status_of : String → Option AnalysisRunStatus) where
  -- A readable file of `claimed`, by the status of its run: whether it is recovered, and the queue
  -- after it.
  unfoldable pub recover_job :
      Queue
      → (cutoff : Datetime) (name : String) → ExecutionJob
      → Option AnalysisRunStatus
      → Result QueueError (Bool × Queue)
  recover_job q cutoff name job none =
      move_raw q in_claimed name in_failed name >>= λ q'. ok (false, q')
  recover_job q cutoff name job (some status) =
      if is_terminal status
      then (move_raw q in_claimed name (resting_place status) job.job_id >>= λ q'. ok (false, q'))
      else if is_abandoned cutoff job.claimed_at
      then (move_raw q in_claimed name in_queued job.job_id >>= λ q'.
          ok (true, write q' in_queued job.job_id (readable (unclaimed job))))
      else ok (false, q)

  unfoldable pub recover_record :
      Queue
      → (cutoff : Datetime) (name : String) → Option QueueRecord
      → Result QueueError (Bool × Queue)
  recover_record q cutoff name (some (readable job)) =
      recover_job q cutoff name job (status_of job.run_id)
  recover_record q cutoff name (some malformed) =
      move_raw q in_claimed name in_failed name >>= λ q'. ok (false, q')
  recover_record q cutoff name none =
      move_raw q in_claimed name in_failed name >>= λ q'. ok (false, q')

  unfoldable pub recover_file :
      Queue → (cutoff : Datetime) (name : String) → Result QueueError (Bool × Queue)
  recover_file q cutoff name = recover_record q cutoff name (Dict.get q.claimed name)

  unfoldable pub recover_files :
      Queue → (cutoff : Datetime) → List String → Result QueueError (ℕ × Queue)
  recover_files q cutoff [] = ok (0, q)
  recover_files q cutoff (name ∷ rest) = recover_file q cutoff name >>= λ t.
      recover_files t.1 cutoff rest >>= λ u. ok ((if t.0 then u.0 + 1 else u.0), u.1)

  -- `recover_abandoned`, at the time `now`, with the timeout in microseconds.
  unfoldable pub recover_abandoned : Queue → (now timeout : ℕ) → Result QueueError (ℕ × Queue)
  recover_abandoned q now timeout =
      recover_files q (now - (if ltb timeout 1_000_000 then 1_000_000 else timeout))
        (names q.claimed)

  -- The queue after the call.
  unfoldable pub perform : QueueCall → Queue → Result QueueError Queue
  perform (enqueues job) q = enqueue q job
  perform (claims worker_id now) q = claim q worker_id now >>= λ t. ok t.1
  perform (completes job) q = complete_job q job
  perform (fails job) q = fail_job q job
  perform (cancels run_id) q = cancel_run q run_id >>= λ t. ok t.1
  perform (recovers now timeout) q = recover_abandoned q now timeout >>= λ t. ok t.1
