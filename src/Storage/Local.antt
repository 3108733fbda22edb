-- ===== src/Storage/Local.antt =====
-- v2/src/footballai_v2/storage/local_analysis_runs.py: the local adapter, which keeps control-plane
-- records and artifact bytes in one directory for each run. A directory is a record of what its
-- files hold; a manifest is the run that it serializes. Each call is one step.
pub mod Inversion
pub mod Changes
pub mod Immutable
pub mod Published
pub mod History
pub mod Directory
use Prim.Native.String.{◌++◌ as append}
use football_ai.Prelude.{
  ℕ, ◌≡◌, String, Bool, true, false, not, ◌&&◌, ◌||◌, Option, none, some, List, [], ◌∷◌, map, ltb,
  ◌==◌, str_eq, if◌then◌else◌, length, is_some, any,
}
use football_ai.Prelude.Result.{Result, ok, err, raise_if, ◌>>=◌, ◌>>◌}
use football_ai.Prelude.Dict
use football_ai.Prelude.Dict.{Dict}
use football_ai.Run.Status.{
  AnalysisRunStatus, queued, running, succeeded, partial, ArtifactCategory, is_terminal,
  run_status_is,
}
use football_ai.Run.Text.{path_error}
use football_ai.Run.Text.Identifiers.{codes, is_uuid_v4}
use football_ai.Run.Record.{ArtifactReference, AnalysisRun, Datetime}
use football_ai.Run.Checks.{Violation, Checked}
use football_ai.Run.Validate.Parts.{checked_artifact}
use football_ai.Run.Transition.{RetryOptions, retry_from}
use football_ai.Storage.Lifecycle.{allowed, provenance_differs}
use football_ai.Storage.Local.Directory.{
  Bytes, Reply, RunDirectory, Store, StoreError, contract_violation, directory, file_exists,
  from_contract, load, manifest_conflict, run_already_exists, run_not_found, value_error,
}

-- `create`
unfoldable pub create : Store → AnalysisRun → Reply Store
create s run =
    if not (run_status_is run.status queued)
    then err manifest_conflict
    else if not (is_uuid_v4 run.run_id)
    then err (contract_violation Violation.bad_uuid)
    else if is_some (Dict.get s run.run_id)
    then err run_already_exists
    else ok (
        Dict.put s run.run_id
          (record { manifest = run; cancel_marker = false; inputs = []; files = [] }))

-- `request_cancellation`
unfoldable pub request_cancellation : Store → String → Reply Store
request_cancellation s run_id = do
  d ← directory s run_id
  run ← load s run_id
  ok (if is_terminal run.status then s else Dict.put s run_id (record d { cancel_marker = true }))

-- `cancellation_requested`: the directory need not be there.
unfoldable pub cancellation_requested : Store → String → Reply Bool
cancellation_requested s run_id =
    if not (is_uuid_v4 run_id)
    then err (contract_violation Violation.bad_uuid)
    else elim (Dict.get s run_id) [ none ↦ ok false | some d ↦ ok d.cancel_marker ]

-- `create_retry_attempt`
unfoldable pub create_retry_attempt :
    Store
    → (previous_run_id : String) → RetryOptions
    → (run_id : String) → Datetime
    → Reply (AnalysisRun × Store)
create_retry_attempt s previous_run_id options run_id now = do
  previous ← load s previous_run_id
  retry ← from_contract (retry_from previous options run_id now)
  s' ← create s retry
  ok (retry, s')

-- `extension.startswith(".")`, and no slash of either kind in it
safe_extension : List ℕ → Bool
safe_extension [] = false
safe_extension (c ∷ cs) = c == b'.' && not (any (λ x. x == b'/' || x == b'\\') cs)

-- `put_input_file`
unfoldable pub put_input_file :
    Store → (run_id : String) → Bytes → (extension : String) → Reply Store
unfolding safe_extension
put_input_file s run_id content extension = do
  raise_if (not (safe_extension (codes extension))) value_error
  d ← directory s run_id
  let name = append "source" extension
  raise_if (is_some (Dict.get d.inputs name)) file_exists
  ok (Dict.put s run_id (record d { inputs = Dict.put d.inputs name content }))

-- `input_path`: the single input of a run.
only_input : Dict Bytes → Reply (String × Bytes)
only_input (x ∷ []) = ok x
only_input _ = err manifest_conflict

-- `has_input`
unfoldable pub has_input : Store → String → Bool
unfolding only_input
has_input s run_id = elim (directory s run_id) [
  | err e ↦ false
  | ok d ↦ elim (only_input d.inputs) [ ok x ↦ true | err e ↦ false ]
]

-- `materialize_input`, with the bytes at `input_path`
unfoldable pub materialize_input : Store → String → Reply Bytes
unfolding only_input
materialize_input s run_id = do
  d ← directory s run_id
  (name, content) ← only_input d.inputs
  ok content

abbrev or_raise : {A : Type 0} → StoreError → Option A → Reply A
or_raise e none = err e
or_raise e (some a) = ok a

unfoldable pub find_artifact : String → List ArtifactReference → Reply ArtifactReference
find_artifact i [] = err run_not_found
find_artifact i (a ∷ rest) = if str_eq a.artifact_id i then ok a else find_artifact i rest

-- The tests of `write_artifact`, and the directory that it writes in.
unfoldable pub writable : Store → (run_id relative_path : String) → Reply RunDirectory
writable s run_id relative_path = do
  d ← directory s run_id
  run ← load s run_id
  raise_if (not (run_status_is run.status running)) manifest_conflict
  elim (path_error relative_path) [
    | none ↦ ok tt
    | some e ↦ err (contract_violation (Violation.bad_path e))
  ]
  raise_if (is_some (Dict.get d.files relative_path)) file_exists
  ok d

module _ (sha256 : Bytes → String) where
  -- Whether bytes have the size and the digest that a reference records.
  unfoldable pub bytes_match : ArtifactReference → Bytes → Bool
  bytes_match a content = length content == a.size_bytes && str_eq (sha256 content) a.sha256

  -- Whether the file of a reference is there and holds its bytes.
  unfoldable pub file_matches : Dict Bytes → ArtifactReference → Bool
  file_matches files a = elim (Dict.get files a.relative_path) [
    | none ↦ false
    | some content ↦ bytes_match a content
  ]

  -- `_verify_artifacts`
  unfoldable pub verify_artifacts : Dict Bytes → List ArtifactReference → Bool
  verify_artifacts files [] = true
  verify_artifacts files (a ∷ rest) = file_matches files a && verify_artifacts files rest

  -- `save`
  unfoldable pub save : Store → AnalysisRun → Reply Store
  save s run = do
    current ← load s run.run_id
    d ← directory s run.run_id
    raise_if (is_terminal current.status) manifest_conflict
    raise_if (not (allowed current.status run.status)) manifest_conflict
    raise_if (provenance_differs current run) manifest_conflict
    raise_if
        ((run_status_is run.status succeeded || run_status_is run.status partial)
          && not (verify_artifacts d.files run.artifacts))
        manifest_conflict
    ok (Dict.put s run.run_id (record d { manifest = run }))

  -- `write_artifact`: the bytes are linked into place, which fails on a file that exists, and the
  -- reference is built afterwards, so that a reference that is refused leaves its file behind.
  unfoldable pub write_artifact :
      Store
      → (run_id artifact_id name : String) → ArtifactCategory
      → (relative_path : String) → (content : Bytes) → (media_type : String)
      → (schema_version : Option String) → Reply ArtifactReference × Store
  unfolding writable
  write_artifact s run_id artifact_id name category relative_path content media_type
        schema_version =
      elim (writable s run_id relative_path) [
        | err e ↦ (err e, s)
        | ok d ↦ (
          from_contract (
              checked_artifact (record {
                artifact_id = artifact_id;
                name = name;
                category = category;
                relative_path = relative_path;
                media_type = media_type;
                sha256 = sha256 content;
                size_bytes = length content;
                schema_version = schema_version;
              })),
          Dict.put s run_id (record d { files = Dict.put d.files relative_path content }),
        )
      ]

  -- `read_artifact_bytes`
  unfoldable pub read_artifact_bytes :
      Store → (run_id artifact_id : String) → (max_bytes : ℕ) → Reply Bytes
  unfolding find_artifact
  read_artifact_bytes s run_id artifact_id max_bytes = do
    raise_if (max_bytes == 0) value_error
    run ← load s run_id
    a ← find_artifact artifact_id run.artifacts
    raise_if (ltb max_bytes a.size_bytes) manifest_conflict
    d ← directory s run_id
    content ← or_raise manifest_conflict (Dict.get d.files a.relative_path)
    raise_if (not (bytes_match a content)) manifest_conflict
    ok content

  -- `artifact_reference_integrity`
  unfoldable pub artifact_reference_integrity : Store → String → ArtifactReference → Bool
  artifact_reference_integrity s run_id a = elim (directory s run_id) [
    | err e ↦ false
    | ok d ↦ not (is_some (path_error a.relative_path)) && file_matches d.files a
  ]

  -- `copy_input`: a copy whose digest is not the source run's is removed again.
  unfoldable pub copy_input : Store → (source_run_id destination_run_id : String) → Reply Store
  unfolding only_input
  copy_input s source_run_id destination_run_id = do
    source ← load s source_run_id
    source_directory ← directory s source_run_id
    (name, content) ← only_input source_directory.inputs
    d ← directory s destination_run_id
    raise_if (is_some (Dict.get d.inputs name)) file_exists
    raise_if (not (str_eq (sha256 content) source.input.sha256)) manifest_conflict
    ok (Dict.put s destination_run_id (record d { inputs = Dict.put d.inputs name content }))
