-- ===== src/Execution/Queue/Places.antt =====
-- Where the files of the queue stand, in v2/src/footballai_v2/execution/queue/local_filesystem.py.
use football_ai.Prelude.{
  ◌≡◌, ◌≢◌, ◌⊎◌, if-eq, refl, sym, ap, ◌∙◌, subst, Bool, true, false, Option, none, some, String,
  if◌then◌else◌, arith, str_eq, eq_iff, inl, inr, is_some, Bool-cases, Option-cases,
}
use football_ai.Prelude.Result.{ok, ok_eq, >>=-eq-ok}
use football_ai.Prelude.Dict
use football_ai.Execution.Job.{ExecutionJob}
use football_ai.Execution.Queue.Directories.{
  Queue, QueueState, QueueRecord, Directory, in_queued, in_claimed, in_completed, in_failed,
  in_cancelled, at, with_directory, readable, write, unlink, replace, move_raw, content,
}

unfoldable pub same_state : QueueState → QueueState → Bool
same_state in_queued in_queued = true
same_state in_claimed in_claimed = true
same_state in_completed in_completed = true
same_state in_failed in_failed = true
same_state in_cancelled in_cancelled = true
same_state _ _ = false

at-with_directory :
    (q : Queue) (s u : QueueState) (d : Directory)
    → at (with_directory q s d) u ≡ (if same_state s u then d else at q u)
unfolding same_state
at-with_directory q s u d = ground arith

same_state_iff : (s u : QueueState) → same_state s u ≡ true → s ≡ u
unfolding same_state
same_state_iff s u h = ground arith

-- `named`: a readable file has the name of its job. `single`: no name stands in two directories.
pub record IsPlaced (q : Queue) : Type 0 where
  pub named :
      (s : QueueState) (n : String) (j : ExecutionJob)
      → Dict.get (at q s) n ≡ some (readable j)
      → j.job_id ≡ n
  pub single :
      (s u : QueueState) (n : String) (r r' : QueueRecord)
      → Dict.get (at q s) n ≡ some r
      → Dict.get (at q u) n ≡ some r'
      → s ≡ u

unlink-get :
    (q : Queue) (s u : QueueState) (n i : String)
    → Dict.get (at (unlink q s n) u) i ≡ (
        if same_state s u
        then (if str_eq n i then none else Dict.get (at q s) i)
        else Dict.get (at q u) i)
unlink-get q s u n i =
    rw (at-with_directory q s u (Dict.remove (at q s) n))
      (ground (arith, Dict.get-remove (at q s) n i))

unlink_kept :
    (q : Queue) (s u : QueueState) (n i : String) {r : QueueRecord}
    → Dict.get (at (unlink q s n) u) i ≡ some r
    → Dict.get (at q u) i ≡ some r
unlink_kept q s u n i {r} h = elim (Bool-cases (same_state s u)) [
  | inl e ↦
      subst (λ z. Dict.get (at q z) i ≡ some r) (same_state_iff s u e)
        (ground (arith, e, h, unlink-get q s u n i))
  | inr e ↦ ground (arith, e, h, unlink-get q s u n i)
]

same_state_refl : (s : QueueState) → same_state s s ≡ true
unfolding same_state
same_state_refl s = ground arith

not_found : {r : QueueRecord} → none ≢ some r
not_found h = cc

unlink_gone :
    (q : Queue) (s : QueueState) (n : String) {r : QueueRecord}
    → Dict.get (at (unlink q s n) s) n ≢ some r
unlink_gone q s n h =
    not_found
      (sym (unlink-get q s s n n ∙ rw (same_state_refl s) (rw ((eq_iff n n).1 refl) refl)) ∙ h)

unlink-IsPlaced : (q : Queue) (s : QueueState) (n : String) → IsPlaced q → IsPlaced (unlink q s n)
unlink-IsPlaced q s n p = record {
  named = λ u i j h. p.named u i j (unlink_kept q s u n i h);
  single =
      λ u v i r r' h h'. p.single u v i r r' (unlink_kept q s u n i h) (unlink_kept q s v n i h');
}

write-get :
    (q : Queue) (t u : QueueState) (n i : String) (r : QueueRecord)
    → Dict.get (at (write q t n r) u) i ≡ (
        if same_state t u
        then (if str_eq n i then some r else Dict.get (at q t) i)
        else Dict.get (at q u) i)
write-get q t u n i r =
    rw (at-with_directory q t u (Dict.put (at q t) n r))
      (ground (arith, Dict.get-put (at q t) n r i))

write_found :
    (q : Queue) (t u : QueueState) (n i : String) (r : QueueRecord) {r' : QueueRecord}
    → Dict.get (at (write q t n r) u) i ≡ some r'
    → ((t ≡ u) × (n ≡ i) × (r ≡ r')) ⊎ (Dict.get (at q u) i ≡ some r')
write_found q t u n i r {r'} h = elim (Bool-cases (same_state t u)) [
  | inl e ↦ elim (Bool-cases (str_eq n i)) [
    | inl f ↦
        inl (same_state_iff t u e, (eq_iff n i).0 f, grind (arith, e, f, h, write-get q t u n i r))
    | inr f ↦ inr (
        subst (λ z. Dict.get (at q z) i ≡ some r') (same_state_iff t u e)
          (ground (arith, e, f, h, write-get q t u n i r)))
  ]
  | inr e ↦ inr (ground (arith, e, h, write-get q t u n i r))
]

-- Writing a file whose name stands nowhere else.
pub write-IsPlaced :
    (q : Queue) (t : QueueState) (n : String) (r : QueueRecord)
    → IsPlaced q
    → ((u : QueueState) (r' : QueueRecord) → Dict.get (at q u) n ≡ some r' → u ≡ t)
    → ((j : ExecutionJob) → r ≡ readable j → j.job_id ≡ n)
    → IsPlaced (write q t n r)
write-IsPlaced q t n r p only own = record {
  named = λ u i j h. elim (write_found q t u n i r h) [
    | inl (e, f, g) ↦ own j g ∙ f
    | inr g ↦ p.named u i j g
  ];
  single = λ u v i a b h k. elim (write_found q t u n i r h) [
    | inl (e, f, g) ↦ elim (write_found q t v n i r k) [
      | inl (e', f', g') ↦ sym e ∙ e'
      | inr g' ↦ sym e ∙ sym (only v b (subst (λ z. Dict.get (at q v) z ≡ some b) (sym f) g'))
    ]
    | inr g ↦ elim (write_found q t v n i r k) [
      | inl (e', f', g') ↦ only u a (subst (λ z. Dict.get (at q u) z ≡ some a) (sym f') g) ∙ e'
      | inr g' ↦ p.single u v i a b g g'
    ]
  ];
}

content-eq-ok : (o : Option QueueRecord) {r : QueueRecord} → content o ≡ ok r → o ≡ some r
content-eq-ok (some r) h = ap some (ok_eq h)
content-eq-ok none h = cc

pub replace-IsPlaced :
    (q : Queue) (s : QueueState) (n : String) (t : QueueState) {q' : Queue}
    → replace q s n t n ≡ ok q'
    → IsPlaced q
    → IsPlaced q'
unfolding replace
replace-IsPlaced q s n t {q'} h p =
    let (r, found, moved) = >>=-eq-ok (content (Dict.get (at q s) n)) _ h in
    let e = content-eq-ok (Dict.get (at q s) n) found in
    subst IsPlaced (ok_eq moved) (
      write-IsPlaced (unlink q s n) t n r (unlink-IsPlaced q s n p)
        (λ u r' k. absurd (
          unlink_gone q s n (
            subst (λ z. Dict.get (at (unlink q s n) z) n ≡ some r')
              (sym (p.single s u n r r' e (unlink_kept q s u n n k))) k)))
        (λ j g. p.named s n j (e ∙ ap some g)))

pub move_raw-IsPlaced :
    (q : Queue) (s : QueueState) (n : String) (t : QueueState) {q' : Queue}
    → move_raw q s n t n ≡ ok q'
    → IsPlaced q
    → IsPlaced q'
unfolding move_raw
move_raw-IsPlaced q s n t {q'} h p =
    elim (if-eq (is_some (Dict.get (at q t) n)) (ok (unlink q s n)) (replace q s n t n) h) [
      | inl (e, done) ↦ subst IsPlaced (ok_eq done) (unlink-IsPlaced q s n p)
      | inr (e, done) ↦ replace-IsPlaced q s n t done p
    ]

-- A replaced file stands in its target.
pub replace_there :
    (q : Queue) (s : QueueState) (n : String) (t : QueueState) {q' : Queue}
    → replace q s n t n ≡ ok q'
    → (r : QueueRecord) × (Dict.get (at q' t) n ≡ some r)
unfolding replace
replace_there q s n t {q'} h =
    let (r, found, moved) = >>=-eq-ok (content (Dict.get (at q s) n)) _ h in
    (
      r,
      subst (λ z. Dict.get (at z t) n ≡ some r) (ok_eq moved)
          (write-get (unlink q s n) t t n n r
            ∙ rw (same_state_refl t) (rw ((eq_iff n n).1 refl) refl)),
    )

pub move_raw_there :
    (q : Queue) (s : QueueState) (n : String) (t : QueueState) {q' : Queue}
    → same_state s t ≡ false
    → move_raw q s n t n ≡ ok q'
    → (r : QueueRecord) × (Dict.get (at q' t) n ≡ some r)
unfolding move_raw
move_raw_there q s n t {q'} d h =
    elim (if-eq (is_some (Dict.get (at q t) n)) (ok (unlink q s n)) (replace q s n t n) h) [
      | inl (e, done) ↦ elim (Option-cases (Dict.get (at q t) n)) [
        | inl f ↦ absurd (not_there f e)
        | inr (r, f) ↦ (
          r,
          subst (λ z. Dict.get (at z t) n ≡ some r) (ok_eq done) (unlink-get q s t n n ∙ rw d f),
        )
      ]
      | inr (e, done) ↦ replace_there q s n t done
    ]
  where
    not_there : {o : Option QueueRecord} → o ≡ none → is_some o ≡ true → ⊥
    not_there f e = cc

-- Writing over a file that is there.
pub overwrite-IsPlaced :
    (q : Queue) (t : QueueState) (n : String) (r : QueueRecord) (j : ExecutionJob)
    → IsPlaced q
    → Dict.get (at q t) n ≡ some r
    → j.job_id ≡ n
    → IsPlaced (write q t n (readable j))
overwrite-IsPlaced q t n r j p there own =
    write-IsPlaced q t n (readable j) p (λ u r' h. p.single u t n r' r h there)
      (λ k e. same_job k e ∙ own)
  where
    same_job : (k : ExecutionJob) → readable j ≡ readable k → k.job_id ≡ j.job_id
    same_job k e = cc
