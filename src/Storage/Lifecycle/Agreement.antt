-- ===== src/Storage/Lifecycle/Agreement.antt =====
-- The lifecycle methods of v2/src/footballai_v2/contracts/v1/analysis_run.py against the storage
-- rules of v2/src/footballai_v2/storage/lifecycle.py.
use football_ai.Prelude.{◌≡◌, true, false, arith, subst}
use football_ai.Prelude.Result.{ok, err}
use football_ai.Run.Status.{is_terminal}
use football_ai.Run.Record.{AnalysisRun}
use football_ai.Run.Checks.{invalid_status_transition}
use football_ai.Run.Transition.{Operation, start, permitted, replaced, apply}
use football_ai.Run.Transition.Inversion.{apply-eq-ok}
use football_ai.Storage.Lifecycle.{allowed, ensure_transition_allowed}
use football_ai.Storage.Lifecycle.Provenance.{SameProvenance, provenance_differs_of_same}

-- No method touches the identity or the provenance.
replaced-SameProvenance : (op : Operation) (r : AnalysisRun) → SameProvenance r (replaced op r)
replaced-SameProvenance (start at stages) r = ground arith
replaced-SameProvenance op r = ground arith

permitted-allowed :
    (op : Operation) (r : AnalysisRun)
    → permitted op r.status ≡ true
    → (is_terminal r.status ≡ false) × (allowed r.status (replaced op r).status ≡ true)
permitted-allowed (start at stages) r h = ground arith
permitted-allowed op r h = ground arith

-- Every run that a lifecycle method returns may replace the run that it was called on.
pub apply-ensure_transition_allowed :
    (op : Operation) (r r' : AnalysisRun)
    → apply op r ≡ ok r'
    → ensure_transition_allowed r r' ≡ ok tt
unfolding ensure_transition_allowed
apply-ensure_transition_allowed op r r' h =
    let (p, same, _) = apply-eq-ok op r h in
    let (active, next) = permitted-allowed op r p in
    subst (λ x. ensure_transition_allowed r x ≡ ok tt) same
      (simp (active, next, provenance_differs_of_same (replaced-SameProvenance op r)))

-- No lifecycle method accepts a run in a terminal state.
pub apply_terminal :
    (op : Operation) (r : AnalysisRun)
    → is_terminal r.status ≡ true
    → apply op r ≡ err invalid_status_transition
unfolding apply
apply_terminal (start at stages) r h = ground arith
apply_terminal op r h = ground arith
