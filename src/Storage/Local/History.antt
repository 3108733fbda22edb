-- ===== src/Storage/Local/History.antt =====
-- Histories of the store of v2/src/footballai_v2/storage/local_analysis_runs.py: any calls of the
-- API and of the workers, in any order.
use football_ai.Prelude.{◌≡◌, String, Option}
use football_ai.Prelude.Result.{ok}
use football_ai.Run.Status.{ArtifactCategory}
use football_ai.Run.Record.{AnalysisRun, Datetime}
use football_ai.Run.Transition.{RetryOptions}
use football_ai.Storage.Local.{
  create, save, request_cancellation, create_retry_attempt, put_input_file, copy_input,
  write_artifact,
}
use football_ai.Storage.Local.Directory.{Bytes, Store}

module _ (sha256 : Bytes → String) where
  -- One call that changed the store. A call that raises changes nothing, but for `write_artifact`.
  pub data Step (s s' : Store) : Type 0 where
    created : (run : AnalysisRun) → create s run ≡ ok s' → Step s s'
    saved : (run : AnalysisRun) → save sha256 s run ≡ ok s' → Step s s'
    cancellation : (run_id : String) → request_cancellation s run_id ≡ ok s' → Step s s'
    retried :
        (previous : String) (options : RetryOptions) (run_id : String) (now : Datetime)
        (retry : AnalysisRun)
        → create_retry_attempt s previous options run_id now ≡ ok (retry, s')
        → Step s s'
    input_put :
        (run_id : String) (content : Bytes) (extension : String)
        → put_input_file s run_id content extension ≡ ok s'
        → Step s s'
    input_copied :
        (source destination : String) → copy_input sha256 s source destination ≡ ok s' → Step s s'
    written :
        (run_id artifact_id name : String) (category : ArtifactCategory) (path : String)
        (content : Bytes) (media_type : String) (schema_version : Option String)
        → (write_artifact sha256 s run_id artifact_id name category path content media_type
            schema_version).1
          ≡ s'
        → Step s s'

  pub data History (s : Store) : Store → Type 0 where
    here : History s s
    next : {t u : Store} → History s t → Step t u → History s u
