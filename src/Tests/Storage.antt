-- ===== src/Tests/Storage.antt =====
-- The store of v2/src/footballai_v2/storage/local_analysis_runs.py on the sample run.
use football_ai.Prelude.{◌≡◌, refl, String, true, false, none, [], ◌∷◌, arith}
use football_ai.Prelude.Result.{ok, err}
use football_ai.Prelude.Dict
use football_ai.Run.Status.{ArtifactCategory, DataOrigin-discrete}
use football_ai.Run.Record.{AnalysisRun}
use football_ai.Run.Checks.{invalid_status_transition}
use football_ai.Run.Transition.{start, apply, with_stages}
use football_ai.Run.Equality.{
  Fields-discrete, InputReference-discrete, CodeReference-discrete, models-discrete,
  Option-String-discrete,
}
use football_ai.Storage.Lifecycle.{ensure_transition_allowed, provenance_differs}
use football_ai.Storage.Lifecycle.Agreement.{apply-ensure_transition_allowed, apply_terminal}
use football_ai.Storage.Lifecycle.Provenance.{SameProvenance}
use football_ai.Storage.Local.{
  create, save, write_artifact, writable, read_artifact_bytes, verify_artifacts, file_matches,
  bytes_match, find_artifact,
}
use football_ai.Storage.Local.Directory.{Bytes, Store, directory, load, manifest_conflict}
use football_ai.Storage.Local.History.{History, here, next, created, saved, written}
use football_ai.Storage.Local.Immutable.{load-terminal, load-SameProvenance}
use football_ai.Storage.Local.Published.{read_artifact_bytes-published}
use football_ai.Tests.Samples.{
  digest, run_id, queued_run, running_run, succeeded_run, summary, validation, start_example,
}

abbrev pub constant_digest : Bytes → String
constant_digest content = digest

unfoldable pub storage : Unit {0}
unfolding validation directory load create save write_artifact writable read_artifact_bytes
    verify_artifacts file_matches bytes_match find_artifact ensure_transition_allowed
    provenance_differs Fields-discrete InputReference-discrete CodeReference-discrete
    models-discrete Option-String-discrete DataOrigin-discrete Dict.get Dict.put
storage = tt

abbrev pub content : Bytes
content = 123 ∷ 125 ∷ []

abbrev pub holding : AnalysisRun → Dict.Dict Bytes → Store
holding run files =
    (run_id, record { manifest = run; cancel_marker = false; inputs = []; files = files }) ∷ []

abbrev pub artifact_files : Dict.Dict Bytes
artifact_files = ("artifacts/team-summary.json", content) ∷ []

pub created_example : create [] queued_run ≡ ok (holding queued_run [])
unfolding storage
created_example = refl

started_example :
    save constant_digest (holding queued_run []) running_run ≡ ok (holding running_run [])
unfolding storage
started_example = refl

written_example :
    write_artifact constant_digest
      (holding running_run [])
      run_id
      "team-summary"
      "Team Summary"
      ArtifactCategory.summary
      "artifacts/team-summary.json"
      content
      "application/json"
      none
    ≡ (ok summary, holding running_run artifact_files)
unfolding storage
written_example = refl

succeeded_example :
    save constant_digest (holding running_run artifact_files) succeeded_run
    ≡ ok (holding succeeded_run artifact_files)
unfolding storage
succeeded_example = refl

-- A success whose artifact has no file is refused.
unpublished_example :
    save constant_digest (holding running_run []) succeeded_run ≡ err manifest_conflict
unfolding storage
unpublished_example = refl

start-History : History constant_digest [] (holding running_run [])
start-History =
    next (next here (created queued_run created_example)) (saved running_run started_example)

publish-History :
    History constant_digest (holding running_run []) (holding succeeded_run artifact_files)
unfolding storage
publish-History =
    next
      (next here (
        written run_id "team-summary" "Team Summary" ArtifactCategory.summary
          "artifacts/team-summary.json" content "application/json" none refl))
      (saved succeeded_run succeeded_example)

full-History : History constant_digest [] (holding succeeded_run artifact_files)
unfolding storage
full-History =
    next
      (next start-History (
        written run_id "team-summary" "Team Summary" ArtifactCategory.summary
          "artifacts/team-summary.json" content "application/json" none refl))
      (saved succeeded_run succeeded_example)

loaded_running : load (holding running_run []) run_id ≡ ok running_run
unfolding storage
loaded_running = refl

pub loaded_succeeded : load (holding succeeded_run artifact_files) run_id ≡ ok succeeded_run
unfolding storage
loaded_succeeded = refl

apply-ensure_transition_allowed_example : ensure_transition_allowed queued_run running_run ≡ ok tt
apply-ensure_transition_allowed_example =
    apply-ensure_transition_allowed (start 11 none) queued_run running_run start_example

apply_terminal_example : apply (with_stages []) succeeded_run ≡ err invalid_status_transition
apply_terminal_example = apply_terminal (with_stages []) succeeded_run refl

load-terminal_example : load (holding succeeded_run artifact_files) run_id ≡ ok succeeded_run
load-terminal_example =
    load-terminal constant_digest (holding succeeded_run artifact_files)
      (holding succeeded_run artifact_files) run_id succeeded_run loaded_succeeded refl here

load-SameProvenance_example :
    (r' : AnalysisRun) × (load (holding succeeded_run artifact_files) run_id ≡ ok r')
    × SameProvenance running_run r'
load-SameProvenance_example =
    load-SameProvenance constant_digest (holding running_run [])
      (holding succeeded_run artifact_files) run_id running_run loaded_running publish-History

summary_named : find_artifact "team-summary" succeeded_run.artifacts ≡ ok summary
unfolding storage
summary_named = refl

read_artifact_bytes-published_example :
    (bytes : Bytes) × (read_artifact_bytes constant_digest
        (holding succeeded_run artifact_files)
        run_id
        "team-summary"
        100
      ≡ ok bytes)
    × (bytes_match constant_digest summary bytes ≡ true)
read_artifact_bytes-published_example =
    read_artifact_bytes-published constant_digest (holding succeeded_run artifact_files) run_id
      "team-summary" succeeded_run summary 100 full-History loaded_succeeded refl summary_named
      (omega arith) (omega arith)
