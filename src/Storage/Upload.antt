-- ===== src/Storage/Upload.antt =====
-- v2/src/footballai_v2/storage/upload_service.py: `DirectUploadService.finalize`, with the in-memory
-- object storage as its authorizer.
pub mod Again
use Prim.Native.String.{◌++◌ as append}
use football_ai.Prelude.{ℕ, String, true, Option, none, some, List, [], ◌∷◌}
use football_ai.Prelude.Result.{Result, ok, err}
use football_ai.Prelude.Action.{◌>>=◌, ◌>>◌, lift, pure}
use football_ai.Run.Json.{Fields, end, put, text}
use football_ai.Run.Status.{DataOrigin}
use football_ai.Run.Record.{AnalysisRun, CodeReference, InputReference, StageExecution}
use football_ai.Run.Checks.{Checked}
use football_ai.Run.Validate.Parts.{validate_input}
use football_ai.Run.Transition.{new}
use football_ai.Storage.Keys
use football_ai.Storage.Memory.{FinalizedUpload, finalize_upload}
use football_ai.Storage.Memory.Lookup.{Objects}
use football_ai.Storage.Local.{create}
use football_ai.Storage.Local.Directory.{Store, Reply, run_already_exists}
use football_ai.Execution.Attempts.{
  Planes, Refusal, store_refused, object_refused, Call, from_contract, loading, stored,
  pipeline_version_for, Fresh, queued_stages, enqueue_run,
}

-- `VIDEO_CONTENT_TYPES`
abbrev pub video_content_types : List String
video_content_types = "video/mp4" ∷ "video/quicktime" ∷ "video/x-matroska" ∷ "video/webm" ∷ []

-- The arguments of `finalize`.
pub record Finalize : Type 0 where
  pub run_id : String
  pub profile : String
  pub data_origin : DataOrigin
  pub parameters : Fields

abbrev pub from_objects : {A : Type 0} → Keys.Reply A → Result Refusal A
from_objects (ok a) = ok a
from_objects (err e) = err (object_refused e)

-- `except RunAlreadyExistsError`: the attempt that is there, or the new one and its job.
abbrev pub created :
    Planes
    → (existing : Call AnalysisRun) (fresh : Call AnalysisRun) → Reply Store
    → Result Refusal AnalysisRun × Planes
created p existing fresh (ok s) = fresh (record p { store = s })
created p existing fresh (err run_already_exists) = existing p
created p existing fresh (err e) = (err (store_refused e), p)

abbrev pub input_of : FinalizedUpload → InputReference
input_of upload = record {
  uri = append "blob://" upload.object_reference;
  sha256 = upload.sha256;
  media_type = upload.content_type;
}

module _ (objects : Objects) (max_upload_bytes : ℕ) (code_reference : CodeReference) where
  abbrev pub new_run :
      Fresh → Finalize → FinalizedUpload → List StageExecution → Checked AnalysisRun
  new_run fresh f upload stages =
      new fresh.logical_analysis_id f.run_id f.data_origin (input_of upload) code_reference
        (pipeline_version_for f.profile) (put f.parameters "pipeline_profile" (text f.profile)) []
        stages fresh.created_at

  -- The run of an upload.
  unfoldable pub uploaded_run : Fresh → Finalize → FinalizedUpload → Result Refusal AnalysisRun
  uploaded_run fresh f upload = elim (from_contract (validate_input (input_of upload))) [
    | err e ↦ err e
    | ok _ ↦ elim (queued_stages 1 (λ name. true)) [
      | err e ↦ err e
      | ok stages ↦ from_contract (new_run fresh f upload stages)
    ]
  ]

  unfoldable pub create_or_load : Fresh → Finalize → AnalysisRun → Call AnalysisRun
  create_or_load fresh f run p =
      created p (loading f.run_id) (enqueue_run fresh run f.profile >> pure run)
        (create p.store run)

  -- `finalize`
  unfoldable pub finalize : Fresh → Finalize → Call AnalysisRun
  finalize fresh f = do
    upload ←
        lift (from_objects (finalize_upload objects f.run_id max_upload_bytes video_content_types))
    run ← lift (uploaded_run fresh f upload)
    create_or_load fresh f run
