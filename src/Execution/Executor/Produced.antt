-- ===== src/Execution/Executor/Produced.antt =====
-- The stages, names and schemas of what `AnalysisExecutor.execute` publishes, in
-- v2/src/footballai_v2/execution/executor.py.
use football_ai.Prelude.{
  String, Bool, false, ◌&&◌, Option, none, some, List, [], ◌∷◌, str_eq, if◌then◌else◌, member,
  String-discrete, ◌-◌, length,
}
use football_ai.Prelude.Result.{Result, ok, err, ◌>>=◌}
use football_ai.Run.Json.{Json, Fields, text, null, boolean}
use football_ai.Run.Status.{
  detection, tracking, artifact_publication, StageStatus, ArtifactCategory,
}
use football_ai.Run.Record.{StageExecution}
use football_ai.Run.Validate.Parts.{checked_stage}
use football_ai.Execution.Executor.World.{
  Raised, python_raised, Payload, document, generated, from_contract, or_python,
}
use football_ai.Execution.Executor.Stages.{stage_is, percent, set_at, element}

-- The generated name and the entry of `category_by_id`, of the ids that it has.
unfoldable pub known_artifact : String → Option (String × ArtifactCategory)
known_artifact i =
    if str_eq i "team-summary"
    then some ("Team Summary", ArtifactCategory.summary)
    else if str_eq i "track-summary"
    then some ("Track Summary", ArtifactCategory.tracks)
    else if str_eq i "track-detail"
    then some ("Track Detail", ArtifactCategory.tracks)
    else if str_eq i "workload-advisory"
    then some ("Workload Advisory", ArtifactCategory.workload_advisory)
    else if str_eq i "analysis-diagnostics"
    then some ("Analysis Diagnostics", ArtifactCategory.other)
    else none

-- `payload["schema"]`, as the schema version of a reference, which refuses a value that is not a
-- text just as it refuses the empty text.
abbrev pub schema_version_of : Json → Option String
schema_version_of null = none
schema_version_of (text s) = some s
schema_version_of _ = some ""

-- What `json.dumps` and a subscript find in a payload.
abbrev pub as_document : Payload → Result Raised Fields
as_document (document fields) = ok fields
as_document (generated _) = err python_raised

-- The stages with what each published: `_published_stages`.
unfoldable pub produced_by : StageExecution → List String → List String
produced_by stage ids =
    if stage_is stage.stage_name detection && member String-discrete "detections" ids
    then "detections" ∷ []
    else if stage_is stage.stage_name tracking && member String-discrete "tracklets" ids
    then "tracklets" ∷ []
    else if stage_is stage.stage_name artifact_publication
    then ids
    else []

unfoldable pub published_stages :
    List StageExecution → List String → Result Raised (List StageExecution)
published_stages [] ids = ok []
published_stages (stage ∷ stages) ids =
    from_contract (checked_stage (record stage { produced_artifact_ids = produced_by stage ids }))
    >>= λ published. published_stages stages ids >>= λ rest. ok (published ∷ rest)

-- `parameters.get("force_partial") is True`
abbrev pub is_true : Option Json → Bool
is_true (some (boolean b)) = b
is_true _ = false

-- `stages[-1] = replace(stages[-1], ...)`, which an empty list does not have.
unfoldable pub stopped_stages : List StageExecution → Result Raised (List StageExecution)
stopped_stages stages = or_python (element (length stages - 1) stages) >>= λ last.
    from_contract (
      checked_stage (record last {
        status = StageStatus.partial;
        progress_percent = percent 80000000;
        message = some "Useful artifacts published before a controlled partial stop";
      }))
    >>= λ stopped. ok (set_at (length stages - 1) stopped stages)
