-- ===== src/Execution/Progress/Bounds.antt =====
-- The range of the progress of a run in v2/src/footballai_v2/execution/progress.py.
use Prim.Native.Nat.{◌/◌, ◌%◌}
use native.Mathlib.Nat.{mul-le-mul_left}
use football_ai.Prelude.{
  ℕ, ◌+◌, ◌*◌, ◌≤◌, ◌≡◌, refl, ◌∙◌, subst, Bool, true, false, Option, none, some, List, [], ◌∷◌,
  All, ltb, ◌==◌, same, if◌then◌else◌, arith, if_both, Option-cases, some_eq, if-eq, sym, inl, inr,
}
use football_ai.Run.Json.{Number, finite, not_finite, pos, negsuc}
use football_ai.Run.Checks.{progress_in_range}
use football_ai.Run.Status.{
  AnalysisRunStatus, StageStatus, StageName, StageName-discrete, stage_names, run_status_is,
  stage_status_is,
}
use football_ai.Run.Record.{StageExecution, AnalysisRun}
use football_ai.Execution.Progress.{
  stage_weight, stage_named, stage_units, units, weighted, round_tenths, overall_progress,
}

-- What `validate_stage` checks of the progress of a stage.
abbrev pub HasProgress : StageExecution → Type 0
HasProgress s = progress_in_range s.progress_percent ≡ true

units-le : (n : Number) → progress_in_range n ≡ true → units n ≤ 100_000_000
units-le (finite (pos n)) h = ground (arith, h)
units-le (finite (negsuc n)) h = omega arith
units-le not_finite h = omega arith

stage_named-HasProgress :
    (name : StageName) (stages : List StageExecution) (s : StageExecution)
    → All HasProgress stages
    → stage_named name stages ≡ some s
    → HasProgress s
unfolding stage_named
stage_named-HasProgress name [] s h e = cc
stage_named-HasProgress name (t ∷ stages) s h e = elim (Option-cases (stage_named name stages)) [
  | inl k ↦ latest k
  | inr (u, k) ↦ stage_named-HasProgress name stages s h.1 (k ∙ sym (kept u k) ∙ e)
]
  where
    latest : stage_named name stages ≡ none → HasProgress s
    latest k =
        elim (if-eq (same StageName-discrete t.stage_name name) (some t) none (sym (first k) ∙ e)) [
          | inl (f, g) ↦ subst HasProgress (some_eq g) h.0
          | inr (f, g) ↦ cc
        ]
      where
        first :
            stage_named name stages ≡ none
            → stage_named name (t ∷ stages)
              ≡ (if same StageName-discrete t.stage_name name then some t else none)
        first k = rw k refl

    kept :
        (u : StageExecution)
        → stage_named name stages ≡ some u
        → stage_named name (t ∷ stages) ≡ some u
    kept u k = rw k refl

weights : List StageName → ℕ
weights [] = 0
weights (name ∷ names) = stage_weight name + weights names

stage_units-le :
    (o : Option StageExecution)
    → ((s : StageExecution) → o ≡ some s → HasProgress s)
    → stage_units o ≤ 100_000_000
stage_units-le none h = omega arith
stage_units-le (some s) h =
    if_both (λ n. n ≤ 100_000_000) (stage_status_is s.status StageStatus.skipped) (λ _. omega arith)
      (λ _. units-le s.progress_percent (h s refl))

round_tenths-le : (n bound : ℕ) → n ≤ bound * 10_000_000 → round_tenths n ≤ bound
unfolding round_tenths
round_tenths-le n bound h =
    if_both (λ m. m ≤ bound) (ltb (n % 10_000_000) 5_000_000) (λ _. omega (arith, h))
      (λ e.
        if_both (λ m. m ≤ bound) (ltb 5_000_000 (n % 10_000_000)) (λ _. above e)
          (λ _.
            if_both (λ m. m ≤ bound) (n / 10_000_000 % 2 == 0) (λ _. omega (arith, h))
              (λ _. above e)))
  where
    above : ltb (n % 10_000_000) 5_000_000 ≡ false → n / 10_000_000 + 1 ≤ bound
    above e = ground (arith, e, h)

weighted-le :
    (names : List StageName) (stages : List StageExecution)
    → All HasProgress stages
    → weighted names stages ≤ weights names * 100_000_000
unfolding weighted weights
weighted-le [] stages h = omega arith
weighted-le (name ∷ names) stages h =
    let part =
      stage_units-le (stage_named name stages) (λ s e. stage_named-HasProgress name stages s h e) in
    omega (arith, weighted-le names stages h, mul-le-mul_left (stage_weight name) part)

-- The progress of a run whose stages have progress from 0 to 100 is at most 100.0, and at most 99.0 unless the
-- run succeeded.
pub overall_progress-le :
    (run : AnalysisRun)
    → All HasProgress run.stages
    → (overall_progress run ≤ 1_000)
      × (run_status_is run.status AnalysisRunStatus.succeeded ≡ false → overall_progress run ≤ 990)
unfolding overall_progress weights
overall_progress-le run h =
    let total : weighted stage_names run.stages ≤ 10_000_000_000 =
      weighted-le stage_names run.stages h in
    (
      if_both (λ n. n ≤ 1_000) (run_status_is run.status AnalysisRunStatus.succeeded)
          (λ _. round_tenths-le _ 1_000 total) (λ _. round_tenths-le _ 1_000 (omega arith)),
      λ e.
          if_both (λ n. n ≤ 990) (run_status_is run.status AnalysisRunStatus.succeeded)
            (λ f. absurd (differ e f)) (λ _. round_tenths-le _ 990 (omega arith)),
    )
  where
    differ : {b : Bool} → b ≡ false → b ≡ true → ⊥
    differ e f = cc
