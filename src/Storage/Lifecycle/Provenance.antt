-- ===== src/Storage/Lifecycle/Provenance.antt =====
-- What the provenance test of v2/src/footballai_v2/storage/lifecycle.py compares.
use text.Mathlib.TextPositions.{eq_refl}
use football_ai.Prelude.{◌≡◌, false, eq_iff, same_refl, same_sound, arith}
use football_ai.Run.Status.{DataOrigin-discrete}
use football_ai.Run.Record.{AnalysisRun}
use football_ai.Run.Equality.{
  Fields-discrete, InputReference-discrete, CodeReference-discrete, models-discrete,
  Option-String-discrete,
}
use football_ai.Storage.Lifecycle.{provenance_differs}

-- The identity and provenance of two records agree.
pub record SameProvenance (a b : AnalysisRun) : Type 0 where
  pub contract_version : a.contract_version ≡ b.contract_version
  pub logical_analysis_id : a.logical_analysis_id ≡ b.logical_analysis_id
  pub run_id : a.run_id ≡ b.run_id
  pub attempt_number : a.attempt_number ≡ b.attempt_number
  pub previous_attempt_run_id : a.previous_attempt_run_id ≡ b.previous_attempt_run_id
  pub data_origin : a.data_origin ≡ b.data_origin
  pub input : a.input ≡ b.input
  pub code : a.code ≡ b.code
  pub pipeline_version : a.pipeline_version ≡ b.pipeline_version
  pub parameters : a.parameters ≡ b.parameters
  pub models : a.models ≡ b.models
  pub created_at : a.created_at ≡ b.created_at

-- An agreeing pair passes the test.
pub provenance_differs_of_same :
    {a b : AnalysisRun} → SameProvenance a b → provenance_differs a b ≡ false
unfolding provenance_differs
provenance_differs_of_same {a} {b} s =
    simp
      (
        ← s.contract_version,
        ← s.logical_analysis_id,
        ← s.run_id,
        ← s.attempt_number,
        ← s.previous_attempt_run_id,
        ← s.data_origin,
        ← s.input,
        ← s.code,
        ← s.pipeline_version,
        ← s.parameters,
        ← s.models,
        ← s.created_at,
        same_refl,
        eq_refl,
      )
      (ground arith)

-- A pair that passes the test agrees.
pub same_of_provenance_differs :
    (a b : AnalysisRun) → provenance_differs a b ≡ false → SameProvenance a b
unfolding provenance_differs
same_of_provenance_differs a b h = record {
  contract_version = ground (arith, eq_iff a.contract_version b.contract_version);
  logical_analysis_id = ground (arith, eq_iff a.logical_analysis_id b.logical_analysis_id);
  run_id = ground (arith, eq_iff a.run_id b.run_id);
  attempt_number = ground arith;
  previous_attempt_run_id = ground (
    arith,
    same_sound Option-String-discrete a.previous_attempt_run_id b.previous_attempt_run_id,
  );
  data_origin = ground (arith, same_sound DataOrigin-discrete a.data_origin b.data_origin);
  input = ground (arith, same_sound InputReference-discrete a.input b.input);
  code = ground (arith, same_sound CodeReference-discrete a.code b.code);
  pipeline_version = ground (arith, eq_iff a.pipeline_version b.pipeline_version);
  parameters = ground (arith, same_sound Fields-discrete a.parameters b.parameters);
  models = ground (arith, same_sound models-discrete a.models b.models);
  created_at = ground arith;
}

pub SameProvenance-refl : (a : AnalysisRun) → SameProvenance a a
SameProvenance-refl a = ground arith

pub SameProvenance-trans :
    {a b c : AnalysisRun} → SameProvenance a b → SameProvenance b c → SameProvenance a c
SameProvenance-trans p q = ground arith
