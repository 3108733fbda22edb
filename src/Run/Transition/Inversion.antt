-- ===== src/Run/Transition/Inversion.antt =====
-- What an accepted lifecycle call of v2/src/footballai_v2/contracts/v1/analysis_run.py returns.
use football_ai.Prelude.{◌≡◌, true}
use football_ai.Prelude.Result.{ok, >>-eq-ok, guarded-eq-ok}
use football_ai.Run.Record.{AnalysisRun}
use football_ai.Run.Validate.{validate_run, checked_run}
use football_ai.Run.Checks.{invalid_status_transition}
use football_ai.Run.Transition.{Operation, permitted, replaced, apply}

-- A constructed record is the value given, and is valid.
pub checked_run-eq-ok :
    (r : AnalysisRun) {r' : AnalysisRun}
    → checked_run r ≡ ok r'
    → (r ≡ r') × (validate_run r ≡ ok tt)
unfolding checked_run
checked_run-eq-ok r h = let (v, e) = >>-eq-ok (validate_run r) (ok r) h in (cc, v)

pub apply-eq-ok :
    (op : Operation) (r : AnalysisRun) {r' : AnalysisRun}
    → apply op r ≡ ok r'
    → (permitted op r.status ≡ true) × (replaced op r ≡ r') × (validate_run (replaced op r) ≡ ok tt)
unfolding apply
apply-eq-ok op r h =
    let (p, e) =
      guarded-eq-ok (permitted op r.status) invalid_status_transition (checked_run (replaced op r))
        h in
    let (same, valid) = checked_run-eq-ok (replaced op r) e in (p, same, valid)
