-- ===== src/Run/Record.antt =====
-- The records of v2/src/footballai_v2/contracts/v1/analysis_run.py. An aware datetime is its
-- instant, counted in microseconds.
use football_ai.Prelude.{ℕ, String, Bool, Option, List}
use football_ai.Run.Json.{Number, Fields}
use football_ai.Run.Status.{DataOrigin, AnalysisRunStatus, StageName, StageStatus, ArtifactCategory}

abbrev pub Datetime : Type 0
Datetime = ℕ

pub record InputReference : Type 0 where
  pub uri : String
  pub sha256 : String
  pub media_type : String

pub record CodeReference : Type 0 where
  pub repository : String
  pub revision : String
  pub dirty : Bool

pub record ModelReference : Type 0 where
  pub name : String
  pub version : String
  pub sha256 : Option String

pub record ArtifactReference : Type 0 where
  pub artifact_id : String
  pub name : String
  pub category : ArtifactCategory
  pub relative_path : String
  pub media_type : String
  pub sha256 : String
  pub size_bytes : ℕ
  pub schema_version : Option String

pub record StructuredError : Type 0 where
  pub error_code : String
  pub safe_message : String
  pub retryable : Bool
  pub occurred_at : Datetime
  pub technical_details : Option Fields

pub record StageExecution : Type 0 where
  pub stage_id : String
  pub stage_name : StageName
  pub required : Bool
  pub status : StageStatus
  pub progress_percent : Number
  pub attempt_number : ℕ
  pub started_at : Option Datetime
  pub finished_at : Option Datetime
  pub produced_artifact_ids : List String
  pub error : Option StructuredError
  pub performance_metrics : Fields
  pub message : Option String

pub record AnalysisRun : Type 0 where
  pub logical_analysis_id : String
  pub run_id : String
  pub attempt_number : ℕ
  pub previous_attempt_run_id : Option String
  pub status : AnalysisRunStatus
  pub data_origin : DataOrigin
  pub input : InputReference
  pub code : CodeReference
  pub pipeline_version : String
  pub parameters : Fields
  pub models : List ModelReference
  pub artifacts : List ArtifactReference
  pub stages : List StageExecution
  pub created_at : Datetime
  pub started_at : Option Datetime
  pub completed_at : Option Datetime
  pub failure : Option StructuredError
  pub partial_reason : Option String
  pub cancellation_reason : Option String
  pub contract_version : String
