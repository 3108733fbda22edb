-- ===== src/Tests/Queue.antt =====
-- The queue of v2/src/footballai_v2/execution/queue/local_filesystem.py on one job.
use football_ai.Prelude.{◌≡◌, refl, none, some, String, [], ◌∷◌}
use football_ai.Prelude.Result.{ok}
use football_ai.Prelude.Dict
use football_ai.Run.Text.Identifiers.{is_uuid_v4}
use football_ai.Execution.Job.{ExecutionJob, validate_job}
use football_ai.Execution.Queue.{
  enqueue, claim, claim_first, claim_record, recover_abandoned, recover_files, recover_file,
  recover_record, recover_job, perform, enqueues, claims, terminal_move, complete_job,
}
use football_ai.Execution.Queue.Directories.{
  Queue, QueueState, QueueRecord, at, readable, sorted_names, names, replace, move_raw, in_queued,
  in_claimed, in_completed, in_failed, in_cancelled,
}
use football_ai.Execution.Queue.Places.{IsPlaced}
use football_ai.Execution.Queue.Calls.{perform-IsPlaced}

abbrev job : ExecutionJob
job = record {
  job_id = "3f2504e0-4f89-41d3-9a0c-0305e82c3302";
  run_id = "3f2504e0-4f89-41d3-9a0c-0305e82c3301";
  logical_analysis_id = "3f2504e0-4f89-41d3-9a0c-0305e82c3303";
  attempt_number = 1;
  pipeline_profile = "demo_fast";
  created_at = 5;
  claimed_at = none;
  worker_id = none;
}

abbrev claimed_job : ExecutionJob
claimed_job = record job { claimed_at = some 9; worker_id = some "worker-1" }

job_example : validate_job job ≡ ok tt
unfolding validate_job is_uuid_v4
job_example = refl

abbrev empty : Queue
empty = record {
  run_index = [];
  queued = [];
  claimed = [];
  completed = [];
  failed = [];
  cancelled = [];
}

abbrev holding_one : Queue
holding_one = record empty { run_index = job.run_id ∷ []; queued = (job.job_id, readable job) ∷ [] }

abbrev claimed_one : Queue
claimed_one = record empty {
  run_index = job.run_id ∷ [];
  claimed = (job.job_id, readable claimed_job) ∷ [];
}

steps : Unit {0}
unfolding enqueue claim claim_first claim_record sorted_names names replace move_raw
    recover_abandoned recover_files recover_file recover_record recover_job perform terminal_move
    complete_job Dict.get Dict.put Dict.remove
steps = tt

enqueued_example : perform (λ i. none) (enqueues job) empty ≡ ok holding_one
unfolding steps
enqueued_example = refl

claimed_example : perform (λ i. none) (claims "worker-1" 9) holding_one ≡ ok claimed_one
unfolding steps
claimed_example = refl

empty-IsPlaced : IsPlaced empty
unfolding steps
empty-IsPlaced = record {
  named = λ s n j h. absurd (nothing s n h);
  single = λ s u n r r' h k. absurd (nothing s n h);
}
  where
    nothing : (s : QueueState) (n : String) {r : QueueRecord} → Dict.get (at empty s) n ≡ some r → ⊥
    nothing in_queued n h = cc
    nothing in_claimed n h = cc
    nothing in_completed n h = cc
    nothing in_failed n h = cc
    nothing in_cancelled n h = cc

free_example : (s : QueueState) → Dict.get (at empty s) job.job_id ≡ none
unfolding steps
free_example in_queued = refl
free_example in_claimed = refl
free_example in_completed = refl
free_example in_failed = refl
free_example in_cancelled = refl

enqueued-IsPlaced : IsPlaced holding_one
enqueued-IsPlaced =
    perform-IsPlaced (λ i. none) (enqueues job) empty holding_one free_example enqueued_example
      empty-IsPlaced

perform-IsPlaced_example : IsPlaced claimed_one
perform-IsPlaced_example =
    perform-IsPlaced (λ i. none) (claims "worker-1" 9) holding_one claimed_one tt claimed_example
      enqueued-IsPlaced
