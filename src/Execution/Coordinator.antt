-- ===== src/Execution/Coordinator.antt =====
-- v2/src/footballai_v2/execution/coordinator.py: `create_analysis`, `retry` and `clone` of
-- `AnalysisCoordinator`. The scratch file of an upload is its bytes.
pub mod Settled
use Prim.Native.String.{◌++◌ as append}
use football_ai.Prelude.{
  ℕ, String, Bool, true, false, not, Option, none, some, List, [], ◌∷◌, ◌+◌, str_eq, if◌then◌else◌,
}
use football_ai.Prelude.Result.{Result, ok, err, raise_if}
use football_ai.Prelude.Action.{◌>>=◌, ◌>>◌, lift, pure, throw}
use football_ai.Prelude.Dict
use football_ai.Prelude.Dict.{Dict}
use football_ai.Run.Json.{
  Json, Fields, Items, nil, cons, end, get, put, text, number, array, object, finite, pos,
}
use football_ai.Run.Status.{DataOrigin, real, synthetic, evaluation, legacy_v1}
use football_ai.Run.Record.{
  AnalysisRun, CodeReference, ModelReference, InputReference, StructuredError,
}
use football_ai.Run.Validate.Parts.{validate_input, validate_model}
use football_ai.Run.Transition.{RetryOptions, retry_from, new, with_stages, apply}
use football_ai.Storage.Local.{put_input_file, copy_input}
use football_ai.Storage.Local.Directory.{Bytes}
use football_ai.Execution.Attempts.{
  Planes, Refusal, upload_refused, contract_refused, key_missing, Call, from_contract, loading,
  pipeline_version_for, Fresh, queued_stages, is_unsupported, ingestion_error, ingest,
}

-- What the coordinator reads elsewhere: the digest, `str` of a JSON value, the commit that runs, the
-- catalog of profiles, the readiness of the V1 profile with its configuration and the digest of its
-- model, and what `probe_video` returns for an extension.
pub record Profile : Type 0 where
  pub available : Bool
  pub warnings : List String

pub record Site : Type 0 where
  pub sha256 : Bytes → String
  pub str : Json → String
  pub code_reference : CodeReference
  pub profile_catalog : String → Option Profile
  pub v1_compat_config : Option (Fields × String)
  pub probe_video : Bytes → (extension : String) → Result Refusal Fields

-- `MEDIA_TYPES`
unfoldable pub media_type_of : String → Option String
media_type_of extension =
    if str_eq extension ".mp4"
    then some "video/mp4"
    else if str_eq extension ".mov"
    then some "video/quicktime"
    else if str_eq extension ".mkv"
    then some "video/x-matroska"
    else if str_eq extension ".webm"
    then some "video/webm"
    else none

-- `DataOrigin(text)`
unfoldable pub origin_of : String → Option DataOrigin
origin_of s =
    if str_eq s "real"
    then some real
    else if str_eq s "synthetic"
    then some synthetic
    else if str_eq s "evaluation"
    then some evaluation
    else if str_eq s "legacy_v1"
    then some legacy_v1
    else none

abbrev pub or_refuse {ℓ} : {A : Type ℓ} → Refusal → Option A → Result Refusal A
or_refuse e none = err e
or_refuse e (some a) = ok a

abbrev given_or : String → Option String → String
given_or d none = d
given_or d (some s) = s

-- The arguments of `create_analysis`.
pub record Upload : Type 0 where
  pub content : Bytes
  pub filename : String
  pub checksum : String
  pub size_bytes : ℕ
  pub extension : String
  pub content_type : String
  pub metadata : Dict String

unfoldable pub texts : List String → Items
texts [] = nil
texts (s ∷ rest) = cons (text s) (texts rest)

-- `dict(metadata)`
unfoldable pub fields_of : Dict String → Fields
fields_of [] = end
fields_of ((k, v) ∷ rest) = put (fields_of rest) k (text v)

abbrev pub profile_of_upload : Upload → String
profile_of_upload u = given_or "demo_fast" (Dict.get u.metadata "pipeline_profile")

unfoldable pub upload_parameters : Upload → (probe : Fields) → (warnings : List String) → Fields
upload_parameters u probe warnings =
    put
      (put
        (put
          (put (put (fields_of u.metadata) "pipeline_profile" (text (profile_of_upload u)))
            "original_filename" (text u.filename))
          "upload_size_bytes" (number (finite (pos u.size_bytes))))
        "video_probe" (object probe))
      "quality_warnings" (array (texts warnings))

-- `origin`, which an upload may not claim to be imported.
unfoldable pub upload_origin : Upload → Result Refusal DataOrigin
upload_origin u = elim (origin_of (given_or "real" (Dict.get u.metadata "data_origin"))) [
  | none ↦ err (upload_refused "invalid_origin")
  | some legacy_v1 ↦ err (upload_refused "invalid_origin")
  | some origin ↦ ok origin
]

-- The model of the V1 profile.
abbrev pub detector : (sha256 : String) → ModelReference
detector sha256 = record {
  name = "yolov8m.pt";
  version = "ultralytics-yolov8m";
  sha256 = some sha256;
}

abbrev pub input_of : Upload → (media_type : String) → InputReference
input_of u media_type = record {
  uri = append "run-input://source" u.extension;
  sha256 = u.checksum;
  media_type = media_type;
}

-- The entry of the catalog, which has to be available.
unfoldable pub available_profile : Option Profile → Result Refusal Profile
available_profile none = err (upload_refused "unknown_profile")
available_profile (some profile) =
    if profile.available then ok profile else err (upload_refused "profile_unavailable")

module _ (site : Site) where
  -- The parameters and the models, which the V1 profile adds to.
  unfoldable pub with_profile :
      (profile : String) → Fields → Result Refusal (Fields × List ModelReference)
  with_profile profile parameters =
      if str_eq profile "v1_compat"
      then (elim site.v1_compat_config [
        | none ↦ err (upload_refused "profile_unavailable")
        | some (config, digest) ↦ elim (validate_model (detector digest)) [
          | err v ↦ err (contract_refused v)
          | ok _ ↦ ok (put parameters "v1_compat" (object config), detector digest ∷ [])
        ]
      ])
      else ok (parameters, [])

  -- `create_analysis`
  unfoldable pub create_analysis : Fresh → Upload → Call AnalysisRun
  create_analysis fresh u = do
    media_type ← lift (or_refuse key_missing (media_type_of u.extension))
    lift (
        raise_if (not (str_eq u.content_type media_type)) (upload_refused "unsupported_media_type"))
    probe ← lift (site.probe_video u.content u.extension)
    let profile = profile_of_upload u
    entry ← lift (available_profile (site.profile_catalog profile))
    origin ← lift (upload_origin u)
    (parameters, models) ← lift (with_profile profile (upload_parameters u probe entry.warnings))
    lift (from_contract (validate_input (input_of u media_type)))
    stages ← lift (queued_stages 1 (λ name. not (is_unsupported profile name)))
    run ← lift (
        from_contract (
          new fresh.logical_analysis_id fresh.run_id origin (input_of u media_type)
            site.code_reference (pipeline_version_for profile) parameters models stages
            fresh.created_at))
    ingest site.sha256 fresh run profile
        (ingestion_error "ingestion_failed" "The validated upload could not be queued." true
          fresh.occurred_at)
        (λ s. put_input_file s run.run_id u.content u.extension)

  -- `str(previous.parameters["pipeline_profile"])`
  unfoldable pub profile_of : AnalysisRun → Result Refusal String
  profile_of run = elim (get run.parameters "pipeline_profile") [
    | none ↦ err key_missing
    | some (text s) ↦ ok s
    | some value ↦ ok (site.str value)
  ]

  abbrev pub copy_error : Fresh → StructuredError
  copy_error fresh =
      ingestion_error "input_copy_failed" "The source input could not be copied safely." false
        fresh.occurred_at

  -- What `retry` replaces of the previous attempt.
  abbrev pub retry_options : (profile : String) → RetryOptions
  retry_options profile = record {
    code = some site.code_reference;
    pipeline_version = some (pipeline_version_for profile);
    parameters = none;
    models = none;
  }

  -- `retry`
  unfoldable pub retry : Fresh → (run_id : String) → Call AnalysisRun
  retry fresh run_id = do
    previous ← loading run_id
    profile ← lift (profile_of previous)
    next ←
        lift (
          from_contract (retry_from previous (retry_options profile) fresh.run_id fresh.created_at))
    stages ←
        lift
          (queued_stages (previous.attempt_number + 1) (λ name. not (is_unsupported profile name)))
    run ← lift (from_contract (apply (with_stages stages) next))
    ingest site.sha256 fresh run profile (copy_error fresh)
        (λ s. copy_input site.sha256 s previous.run_id run.run_id)

  -- `clone`
  unfoldable pub clone : Fresh → (run_id : String) → Call AnalysisRun
  clone fresh run_id = do
    previous ← loading run_id
    profile ← lift (profile_of previous)
    stages ← lift (queued_stages 1 (λ name. not (is_unsupported profile name)))
    run ← lift (
        from_contract (
          new fresh.logical_analysis_id fresh.run_id previous.data_origin previous.input
            site.code_reference (pipeline_version_for profile) previous.parameters previous.models
            stages fresh.created_at))
    ingest site.sha256 fresh run profile (copy_error fresh)
        (λ s. copy_input site.sha256 s previous.run_id run.run_id)
