-- ===== src/Execution/Queue/Calls/Moves.antt =====
-- The claims, the terminal moves and the cancellations of v2/src/footballai_v2/execution/queue/local_filesystem.py
-- keep each job in one place.
use football_ai.Prelude.{
  ◌≡◌, refl, sym, subst, Bool, Option, none, some, String, if-eq, inl, inr, is_some, List, [], ◌∷◌,
}
use football_ai.Prelude.Result.{Result, ok, ok_eq, >>=-eq-ok}
use football_ai.Prelude.Dict
use football_ai.Run.Record.{Datetime}
use football_ai.Execution.Job.{ExecutionJob}
use football_ai.Execution.Queue.{
  claim_first, claim_record, terminal_move, cancel_in, cancel_record, is_of_run,
}
use football_ai.Execution.Queue.Directories.{
  Queue, QueueState, QueueRecord, QueueError, in_queued, in_claimed, in_failed, in_cancelled, at,
  readable, malformed, replace, move_raw,
}
use football_ai.Execution.Queue.Places.{
  IsPlaced, replace-IsPlaced, move_raw-IsPlaced, replace_there, overwrite-IsPlaced,
}

-- A move to the name of the job that stands under the name.
pub own_name :
    (q : Queue) (s : QueueState) (n : String) (t : QueueState) (j : ExecutionJob) {q' : Queue}
    → Dict.get (at q s) n ≡ some (readable j)
    → IsPlaced q
    → move_raw q s n t j.job_id ≡ ok q'
    → move_raw q s n t n ≡ ok q'
own_name q s n t j {q'} e p h = subst (λ z. move_raw q s n t z ≡ ok q') (p.named s n j e) h

claim_record-IsPlaced :
    (q : Queue) (w : String) (now : Datetime) (n : String)
    (rest : Queue → Result QueueError (Option ExecutionJob × Queue)) (o : Option QueueRecord)
    {t : Option ExecutionJob × Queue}
    → Dict.get q.queued n ≡ o
    → claim_record q w now n rest o ≡ ok t
    → ((q' : Queue) → rest q' ≡ ok t → IsPlaced q' → IsPlaced t.1)
    → IsPlaced q
    → IsPlaced t.1
unfolding claim_record
claim_record-IsPlaced q w now n rest none e h k p = k q h p
claim_record-IsPlaced q w now n rest (some malformed) e h k p =
    let (q', moved, others) = >>=-eq-ok (move_raw q in_queued n in_failed n) rest h in
    k q' others (move_raw-IsPlaced q in_queued n in_failed moved p)
claim_record-IsPlaced q w now n rest (some (readable j)) {t} e h k p =
    let (q', moved, done) = >>=-eq-ok (replace q in_queued n in_claimed j.job_id) _ h in
    let own = p.named in_queued n j e in
    let moved' : replace q in_queued n in_claimed n ≡ ok q' =
      subst (λ z. replace q in_queued n in_claimed z ≡ ok q') own moved in
    let (r, there) = replace_there q in_queued n in_claimed moved' in
    subst (λ t. IsPlaced t.1) (ok_eq done)
      (overwrite-IsPlaced q' in_claimed j.job_id r _
        (replace-IsPlaced q in_queued n in_claimed moved' p)
        (subst (λ z. Dict.get q'.claimed z ≡ some r) (sym own) there) refl)

pub claim_first-IsPlaced :
    (q : Queue) (w : String) (now : Datetime) (ns : List String) {t : Option ExecutionJob × Queue}
    → claim_first q w now ns ≡ ok t
    → IsPlaced q
    → IsPlaced t.1
unfolding claim_first
claim_first-IsPlaced q w now [] h p = subst (λ t. IsPlaced t.1) (ok_eq h) p
claim_first-IsPlaced q w now (n ∷ ns) h p =
    claim_record-IsPlaced q w now n (λ q'. claim_first q' w now ns) (Dict.get q.queued n) refl h
      (λ q' others p'. claim_first-IsPlaced q' w now ns others p') p

pub terminal_move-IsPlaced :
    (q : Queue) (j : ExecutionJob) (s : QueueState) {q' : Queue}
    → terminal_move q j s ≡ ok q'
    → IsPlaced q
    → IsPlaced q'
unfolding terminal_move
terminal_move-IsPlaced q j s h p = elim (if-eq (is_some (Dict.get (at q s) j.job_id)) _ _ h) [
  | inl (e, done) ↦ subst IsPlaced (ok_eq done) p
  | inr (e, rest) ↦ elim (if-eq (is_some (Dict.get q.claimed j.job_id)) _ _ rest) [
    | inl (f, moved) ↦ replace-IsPlaced q in_claimed j.job_id s moved p
    | inr (f, done) ↦ subst IsPlaced (ok_eq done) p
  ]
]

cancel_record-IsPlaced :
    (q : Queue) (i : String) (s : QueueState) (n : String) (rest : Result QueueError (Bool × Queue))
    (o : Option QueueRecord) {t : Bool × Queue}
    → Dict.get (at q s) n ≡ o
    → cancel_record q i s n rest o ≡ ok t
    → (rest ≡ ok t → IsPlaced t.1)
    → IsPlaced q
    → IsPlaced t.1
unfolding cancel_record
cancel_record-IsPlaced q i s n rest none e h k p = k h
cancel_record-IsPlaced q i s n rest (some malformed) e h k p = k h
cancel_record-IsPlaced q i s n rest (some (readable j)) e h k p =
    elim (if-eq (is_of_run i j) _ rest h) [
      | inl (f, moves) ↦
          let (q', moved, done) = >>=-eq-ok (move_raw q s n in_cancelled j.job_id) _ moves in
          subst (λ t. IsPlaced t.1) (ok_eq done)
            (move_raw-IsPlaced q s n in_cancelled (own_name q s n in_cancelled j e p moved) p)
      | inr (f, others) ↦ k others
    ]

pub cancel_in-IsPlaced :
    (q : Queue) (i : String) (s : QueueState) (ns : List String) {t : Bool × Queue}
    → cancel_in q i s ns ≡ ok t
    → IsPlaced q
    → IsPlaced t.1
unfolding cancel_in
cancel_in-IsPlaced q i s [] h p = subst (λ t. IsPlaced t.1) (ok_eq h) p
cancel_in-IsPlaced q i s (n ∷ ns) h p =
    cancel_record-IsPlaced q i s n (cancel_in q i s ns) (Dict.get (at q s) n) refl h
      (λ others. cancel_in-IsPlaced q i s ns others p) p
