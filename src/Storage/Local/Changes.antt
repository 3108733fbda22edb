-- ===== src/Storage/Local/Changes.antt =====
-- What one call of v2/src/footballai_v2/storage/local_analysis_runs.py does to one run directory.
use text.Mathlib.TextPositions.{eq_refl}
use football_ai.Prelude.{
  ◌≡◌, refl, sym, subst, String, true, false, Option, none, some, [], inl, inr, Option-cases,
  Bool-cases, arith, eq_iff, str_eq,
}
use football_ai.Prelude.Result.{Result-cases, ok}
use football_ai.Prelude.Dict
use football_ai.Prelude.Dict.{get-put, Dict}
use football_ai.Run.Status.{queued, running, is_terminal, run_status_is, ArtifactCategory}
use football_ai.Run.Record.{AnalysisRun, Datetime}
use football_ai.Run.Transition.{RetryOptions}
use football_ai.Storage.Local.{
  create, save, request_cancellation, create_retry_attempt, put_input_file, copy_input,
  write_artifact, writable,
}
use football_ai.Storage.Local.Directory.{Bytes, RunDirectory, Store, directory, load}
use football_ai.Storage.Local.Inversion.{
  put_input_file-eq-ok, copy_input-eq-ok, Replaces, save-eq-ok, writable-eq-ok,
}
use football_ai.Storage.Local.History.{
  Step, created, saved, cancellation, retried, input_put, input_copied, written,
}

-- The directory of one key before and after a call.
pub data Change (sha256 : Bytes → String) (key : String) (o o' : Option RunDirectory) : Type 0 where
  unchanged : o' ≡ o → Change sha256 key o o'
  fresh :
      (run : AnalysisRun)
      → o ≡ none
      → run_status_is run.status queued ≡ true
      → run.run_id ≡ key
      → o' ≡ some (record { manifest = run; cancel_marker = false; inputs = []; files = [] })
      → Change sha256 key o o'
  replaced :
      (d : RunDirectory) (run : AnalysisRun)
      → o ≡ some d
      → Replaces sha256 d run
      → o' ≡ some (record d { manifest = run })
      → Change sha256 key o o'
  marked :
      (d : RunDirectory)
      → o ≡ some d
      → o' ≡ some (record d { cancel_marker = true })
      → Change sha256 key o o'
  input_added :
      (d : RunDirectory) (inputs : Dict Bytes)
      → o ≡ some d
      → o' ≡ some (record d { inputs = inputs })
      → Change sha256 key o o'
  file_added :
      (d : RunDirectory) (path : String) (content : Bytes)
      → o ≡ some d
      → Dict.get d.files path ≡ none
      → run_status_is d.manifest.status running ≡ true
      → o' ≡ some (record d { files = Dict.put d.files path content })
      → Change sha256 key o o'

-- A call that writes at one key changes no other.
module _ (sha256 : Bytes → String) (s s' : Store) (k : String) (v : RunDirectory)
    (e : s' ≡ Dict.put s k v) where
  here : Dict.get s' k ≡ some v
  here = ground (arith, get-put s k v k, eq_refl k)

  Change-put :
      (key : String)
      → Change sha256 k (Dict.get s k) (some v)
      → Change sha256 key (Dict.get s key) (Dict.get s' key)
  Change-put key c = elim (Bool-cases (str_eq k key)) [
    | inl p ↦
        subst (λ x. Change sha256 x (Dict.get s x) (Dict.get s' x)) ((eq_iff k key).0 p)
          (subst (λ o. Change sha256 k (Dict.get s k) o) (sym here) c)
    | inr p ↦ unchanged (ground (arith, get-put s k v key))
  ]

-- The calls that write, one by one.
module _ (sha256 : Bytes → String) (s : Store) where
  created_change :
      (run : AnalysisRun) {s' : Store}
      → create s run ≡ ok s'
      → (key : String) → Change sha256 key (Dict.get s key) (Dict.get s' key)
  unfolding create
  created_change run {s'} h key =
      Change-put sha256 s s' run.run_id
        (record { manifest = run; cancel_marker = false; inputs = []; files = [] }) (ground arith)
        key
        (fresh run
          (elim (Option-cases (Dict.get s run.run_id)) [
            | inl e ↦ e
            | inr (d, e) ↦ absurd (ground arith)
          ])
          (ground arith) refl refl)

  saved_change :
      (run : AnalysisRun) {s' : Store}
      → save sha256 s run ≡ ok s'
      → (key : String) → Change sha256 key (Dict.get s key) (Dict.get s' key)
  saved_change run {s'} h key =
      let (d, found, stored, tested) = save-eq-ok sha256 s run h in
      Change-put sha256 s s' run.run_id (record d { manifest = run }) stored key
        (replaced d run found tested refl)

  cancellation_change :
      (run_id : String) {s' : Store}
      → request_cancellation s run_id ≡ ok s'
      → (key : String) → Change sha256 key (Dict.get s key) (Dict.get s' key)
  unfolding request_cancellation directory load
  cancellation_change run_id {s'} h key = elim (Option-cases (Dict.get s run_id)) [
    | inl e ↦ absurd (ground arith)
    | inr (d, e) ↦ elim (Bool-cases (is_terminal d.manifest.status)) [
      | inl over ↦ unchanged (ground arith)
      | inr active ↦
          Change-put sha256 s s' run_id (record d { cancel_marker = true }) (ground arith) key
            (marked d e refl)
    ]
  ]

  retried_change :
      (previous : String) (options : RetryOptions) (run_id : String) (now : Datetime)
      (retry : AnalysisRun) {s' : Store}
      → create_retry_attempt s previous options run_id now ≡ ok (retry, s')
      → (key : String) → Change sha256 key (Dict.get s key) (Dict.get s' key)
  unfolding create_retry_attempt
  retried_change previous options run_id now retry {s'} h key =
      created_change retry (ground arith) key

  input_put_change :
      (run_id : String) (content : Bytes) (extension : String) {s' : Store}
      → put_input_file s run_id content extension ≡ ok s'
      → (key : String) → Change sha256 key (Dict.get s key) (Dict.get s' key)
  input_put_change run_id content extension {s'} h key =
      let w = put_input_file-eq-ok s run_id content extension h in
      Change-put sha256 s s' run_id (record w.before { inputs = w.inputs }) w.after key
        (input_added w.before w.inputs w.there refl)

  written_change :
      (run_id artifact_id name : String) (category : ArtifactCategory) (path : String)
      (content : Bytes) (media_type : String) (schema_version : Option String) {s' : Store}
      → (write_artifact sha256 s run_id artifact_id name category path content media_type
          schema_version).1
        ≡ s'
      → (key : String) → Change sha256 key (Dict.get s key) (Dict.get s' key)
  unfolding write_artifact
  written_change run_id artifact_id name category path content media_type schema_version {s'} h
        key =
      elim (Result-cases (writable s run_id path)) [
        | inl (e, refused) ↦ unchanged (ground arith)
        | inr (d, accepted) ↦
            let (found, free, active) = writable-eq-ok s run_id path accepted in
            Change-put sha256 s s' run_id (record d { files = Dict.put d.files path content })
              (ground arith) key (file_added d path content found free active refl)
      ]

  copied_change :
      (source destination : String) {s' : Store}
      → copy_input sha256 s source destination ≡ ok s'
      → (key : String) → Change sha256 key (Dict.get s key) (Dict.get s' key)
  copied_change source destination {s'} h key =
      let w = copy_input-eq-ok sha256 s source destination h in
      Change-put sha256 s s' destination (record w.before { inputs = w.inputs }) w.after key
        (input_added w.before w.inputs w.there refl)

-- Every call that changes the store makes one of these changes to each directory.
pub Step-Change :
    (sha256 : Bytes → String) (s s' : Store)
    → Step sha256 s s'
    → (key : String) → Change sha256 key (Dict.get s key) (Dict.get s' key)
Step-Change sha256 s s' (created run h) = created_change sha256 s run h
Step-Change sha256 s s' (saved run h) = saved_change sha256 s run h
Step-Change sha256 s s' (cancellation run_id h) = cancellation_change sha256 s run_id h
Step-Change sha256 s s' (retried previous options run_id now retry h) =
    retried_change sha256 s previous options run_id now retry h
Step-Change sha256 s s' (input_put run_id content extension h) =
    input_put_change sha256 s run_id content extension h
Step-Change sha256 s s' (input_copied source destination h) =
    copied_change sha256 s source destination h
Step-Change sha256 s s'
      (written run_id artifact_id name category path content media_type schema h) =
    written_change sha256 s run_id artifact_id name category path content media_type schema h
