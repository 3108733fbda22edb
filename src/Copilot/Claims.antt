-- ===== src/Copilot/Claims.antt =====
-- The data of an explanation: v2/src/footballai_v2/copilot/models.py, `EvidenceClaim` of
-- v2/src/footballai_v2/copilot/grounding.py, and the evidence records of
-- v2/src/footballai_v2/copilot/evidence.py. A mapping of JSON values is a `Fields`.
use football_ai.Prelude.{
  ℕ, String, String-discrete, Bool, Option, none, some, List, [], ◌∷◌, str_eq, if◌then◌else◌,
}
use football_ai.Run.Json.{Fields}

pub record Citation : Type 0 where
  pub run_id : String
  pub field_path : String
  pub artifact_id : Option String
  pub schema_version : Option String
  pub source_sha256 : Option String

pub record EvidenceClaim : Type 0 where
  pub claim_id : String
  pub text : String
  pub citations : List Citation

unfoldable pub EvidenceClaim-discrete : Discrete EvidenceClaim
EvidenceClaim-discrete = hlevel String-discrete

pub data SupportLevel : Type 0 where
  supported partial unavailable : SupportLevel

pub data ModelMode : Type 0 where
  offline_demo_fake real_model not_invoked : ModelMode

pub data OutputNature : Type 0 where
  synthetic verified_real unverified_or_partial : OutputNature

pub record ExplanationResponse : Type 0 where
  pub run_id : String
  pub answer : String
  pub support_level : SupportLevel
  pub output_nature : OutputNature
  pub model_mode : ModelMode
  pub citations : List Citation
  pub limitations : List String
  pub unavailable_reason : Option String

pub record EvidenceArtifact : Type 0 where
  pub artifact_id : String
  pub name : String
  pub category : String
  pub relative_path : String
  pub media_type : String
  pub size_bytes : ℕ
  pub sha256 : String
  pub schema_version : Option String
  pub integrity_state : String

pub record ValidatedRunEvidence : Type 0 where
  pub run_id : String
  pub status : String
  pub pipeline_profile : String
  pub pipeline_version : String
  pub data_origin : String
  pub created_at : String
  pub started_at : Option String
  pub completed_at : Option String
  pub is_synthetic : Bool
  pub output_nature : OutputNature
  pub synthetic_explanation : String
  pub source_video : Fields
  pub models : List Fields
  pub code : Fields
  pub artifacts : List EvidenceArtifact
  pub diagnostics : Option Fields
  pub diagnostics_schema : Option String
  pub diagnostics_artifact_id : Option String
  pub diagnostics_sha256 : Option String
  pub limitations : List String
  pub missing_evidence : List String
  pub field_paths : List String

find_artifact : List EvidenceArtifact → String → Option EvidenceArtifact
find_artifact [] i = none
find_artifact (a ∷ rest) i = if str_eq a.artifact_id i then some a else find_artifact rest i

-- `evidence.artifact`
unfoldable pub artifact_of : ValidatedRunEvidence → String → Option EvidenceArtifact
unfolding find_artifact
artifact_of evidence i = find_artifact evidence.artifacts i
