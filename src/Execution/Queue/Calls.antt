-- ===== src/Execution/Queue/Calls.antt =====
-- The methods of v2/src/footballai_v2/execution/queue/local_filesystem.py keep each job in one place.
pub mod Moves
use football_ai.Prelude.{
  ℕ, ◌≡◌, refl, sym, subst, Bool, false, not, Option, none, some, String, String-discrete, if-eq,
  inl, inr, is_some, member, List, [], ◌∷◌,
}
use football_ai.Prelude.Result.{Result, ok, ok_eq, >>=-eq-ok, unless-eq-ok, ◌>>=◌}
use football_ai.Prelude.Dict
use football_ai.Run.Status.{AnalysisRunStatus, is_terminal}
use football_ai.Run.Record.{Datetime}
use football_ai.Execution.Job.{ExecutionJob, is_worker_id}
use football_ai.Execution.Queue.{
  enqueue, claim, claim_first, claim_record, terminal_move, complete_job, fail_job, cancel_run,
  cancel_in, cancel_record, recover_job, recover_record, recover_file, recover_files,
  recover_abandoned, resting_place, QueueCall, enqueues, claims, completes, fails, cancels,
  recovers, perform, HasFreshId, is_of_run, is_abandoned,
}
use football_ai.Execution.Queue.Directories.{
  Queue, QueueState, QueueRecord, QueueError, in_queued, in_claimed, in_completed, in_failed,
  in_cancelled, at, readable, malformed, replace, move_raw, sorted_names, names, duplicate_job,
  invalid_worker,
}
use football_ai.Execution.Queue.Places.{
  IsPlaced, write-IsPlaced, replace-IsPlaced, move_raw-IsPlaced, replace_there, move_raw_there,
  overwrite-IsPlaced, same_state,
}
use football_ai.Execution.Queue.Calls.Moves.{
  cancel_in-IsPlaced, claim_first-IsPlaced, own_name, terminal_move-IsPlaced,
}

at-run_index :
    (q : Queue) (is : List String) (s : QueueState) → at (record q { run_index = is }) s ≡ at q s
at-run_index q is in_queued = refl
at-run_index q is in_claimed = refl
at-run_index q is in_completed = refl
at-run_index q is in_failed = refl
at-run_index q is in_cancelled = refl

-- The reservations of runs are no files of the five directories.
reserved-IsPlaced :
    (q : Queue) (is : List String) → IsPlaced q → IsPlaced (record q { run_index = is })
reserved-IsPlaced q is p = record {
  named = λ s n j h.
      p.named s n j (subst (λ d. Dict.get d n ≡ some (readable j)) (at-run_index q is s) h);
  single = λ s u n r r' h k.
      p.single s u n r r' (subst (λ d. Dict.get d n ≡ some r) (at-run_index q is s) h)
        (subst (λ d. Dict.get d n ≡ some r') (at-run_index q is u) k);
}

enqueue-IsPlaced :
    (q : Queue) (j : ExecutionJob) {q' : Queue}
    → ((s : QueueState) → Dict.get (at q s) j.job_id ≡ none)
    → enqueue q j ≡ ok q'
    → IsPlaced q
    → IsPlaced q'
unfolding enqueue
enqueue-IsPlaced q j {q'} fresh h p =
    let reserved : Queue = record q { run_index = j.run_id ∷ q.run_index } in
    let (new_run, rest) =
      unless-eq-ok (member String-discrete j.run_id q.run_index) duplicate_job _ h in
    let (new_job, done) =
      unless-eq-ok (is_some (Dict.get q.queued j.job_id)) duplicate_job _ rest in
    subst IsPlaced (ok_eq done) (
      write-IsPlaced reserved in_queued j.job_id (readable j) (reserved-IsPlaced q _ p)
        (λ u r k. absurd (
          nothing (fresh u)
            (subst (λ d. Dict.get d j.job_id ≡ some r) (at-run_index q reserved.run_index u) k)))
        (λ k e. same_job k e))
  where
    nothing : {o : Option QueueRecord} {r : QueueRecord} → o ≡ none → o ≡ some r → ⊥
    nothing e f = cc

    same_job : (k : ExecutionJob) → readable j ≡ readable k → k.job_id ≡ j.job_id
    same_job k e = cc

module _ (status_of : String → Option AnalysisRunStatus) where
  moved_only :
      (q : Queue) (n : String) (s : QueueState) {t : Bool × Queue}
      → (move_raw q in_claimed n s n >>= λ q'. ok (false, q')) ≡ ok t
      → IsPlaced q
      → IsPlaced t.1
  moved_only q n s h p =
      let (q', moved, done) = >>=-eq-ok (move_raw q in_claimed n s n) _ h in
      subst (λ t. IsPlaced t.1) (ok_eq done) (move_raw-IsPlaced q in_claimed n s moved p)

  recover_job-IsPlaced :
      (q : Queue) (cutoff : Datetime) (n : String) (j : ExecutionJob) (o : Option AnalysisRunStatus)
      {t : Bool × Queue}
      → Dict.get q.claimed n ≡ some (readable j)
      → recover_job status_of q cutoff n j o ≡ ok t
      → IsPlaced q
      → IsPlaced t.1
  unfolding recover_job same_state
  recover_job-IsPlaced q cutoff n j none e h p = moved_only q n in_failed h p
  recover_job-IsPlaced q cutoff n j (some status) {t} e h p =
      let own = p.named in_claimed n j e in
      elim (if-eq (is_terminal status) _ _ h) [
        | inl (f, moves) ↦
            moved_only q n (resting_place status)
              (subst
                (λ z.
                  (move_raw q in_claimed n (resting_place status) z >>= λ q'. ok (false, q'))
                  ≡ ok t)
                own moves)
              p
        | inr (f, rest) ↦ elim (if-eq (is_abandoned cutoff j.claimed_at) _ _ rest) [
          | inl (g, moves) ↦
              let (q', moved, done) =
                >>=-eq-ok (move_raw q in_claimed n in_queued j.job_id) _ moves in
              let moved' = own_name q in_claimed n in_queued j e p moved in
              let (r, there) = move_raw_there q in_claimed n in_queued refl moved' in
              subst (λ t. IsPlaced t.1) (ok_eq done)
                (overwrite-IsPlaced q' in_queued j.job_id r _
                  (move_raw-IsPlaced q in_claimed n in_queued moved' p)
                  (subst (λ z. Dict.get q'.queued z ≡ some r) (sym own) there) refl)
          | inr (g, done) ↦ subst (λ t. IsPlaced t.1) (ok_eq done) p
        ]
      ]

  recover_record-IsPlaced :
      (q : Queue) (cutoff : Datetime) (n : String) (o : Option QueueRecord) {t : Bool × Queue}
      → Dict.get q.claimed n ≡ o
      → recover_record status_of q cutoff n o ≡ ok t
      → IsPlaced q
      → IsPlaced t.1
  unfolding recover_record
  recover_record-IsPlaced q cutoff n (some (readable j)) e h p =
      recover_job-IsPlaced q cutoff n j (status_of j.run_id) e h p
  recover_record-IsPlaced q cutoff n (some malformed) e h p = moved_only q n in_failed h p
  recover_record-IsPlaced q cutoff n none e h p = moved_only q n in_failed h p

  recover_files-IsPlaced :
      (q : Queue) (cutoff : Datetime) (ns : List String) {t : ℕ × Queue}
      → recover_files status_of q cutoff ns ≡ ok t
      → IsPlaced q
      → IsPlaced t.1
  unfolding recover_files recover_file
  recover_files-IsPlaced q cutoff [] h p = subst (λ t. IsPlaced t.1) (ok_eq h) p
  recover_files-IsPlaced q cutoff (n ∷ ns) h p =
      let (a, first, rest) =
        >>=-eq-ok (recover_record status_of q cutoff n (Dict.get q.claimed n)) _ h in
      let (b, others, done) = >>=-eq-ok (recover_files status_of a.1 cutoff ns) _ rest in
      subst (λ t. IsPlaced t.1) (ok_eq done)
        (recover_files-IsPlaced a.1 cutoff ns others
          (recover_record-IsPlaced q cutoff n (Dict.get q.claimed n) refl first p))

  -- Each method that returns keeps every file in one place: no name stands in two directories of the
  -- queue, and a readable file has the id of its job as its name. A job that is enqueued must have an
  -- id that no file has.
  pub perform-IsPlaced :
      (c : QueueCall) (q q' : Queue)
      → HasFreshId c q
      → perform status_of c q ≡ ok q'
      → IsPlaced q
      → IsPlaced q'
  unfolding perform claim complete_job fail_job cancel_run recover_abandoned
  perform-IsPlaced (enqueues j) q q' f h p = enqueue-IsPlaced q j f h p
  perform-IsPlaced (claims w now) q q' f h p =
      let (t, claimed, done) = >>=-eq-ok (claim q w now) _ h in
      let (fits, first) = unless-eq-ok (not (is_worker_id w)) invalid_worker _ claimed in
      subst IsPlaced (ok_eq done)
        (claim_first-IsPlaced q w now (sorted_names (names q.queued)) first p)
  perform-IsPlaced (completes j) q q' f h p = terminal_move-IsPlaced q j in_completed h p
  perform-IsPlaced (fails j) q q' f h p = terminal_move-IsPlaced q j in_failed h p
  perform-IsPlaced (cancels i) q q' f h p =
      let (t, cancelled, done) = >>=-eq-ok (cancel_run q i) _ h in
      let (a, first, rest) = >>=-eq-ok (cancel_in q i in_queued (names q.queued)) _ cancelled in
      let first_kept = cancel_in-IsPlaced q i in_queued (names q.queued) first p in
      subst IsPlaced (ok_eq done) (elim (if-eq a.0 _ _ rest) [
        | inl (e, same) ↦ subst (λ t. IsPlaced t.1) (ok_eq same) first_kept
        | inr (e, second) ↦
            cancel_in-IsPlaced a.1 i in_claimed (names a.1.claimed) second first_kept
      ])
  perform-IsPlaced (recovers now timeout) q q' f h p =
      let (t, recovered, done) = >>=-eq-ok (recover_abandoned status_of q now timeout) _ h in
      subst IsPlaced (ok_eq done) (recover_files-IsPlaced q _ (names q.claimed) recovered p)
