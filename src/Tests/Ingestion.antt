-- ===== src/Tests/Ingestion.antt =====
-- v2/src/footballai_v2/storage/upload_service.py and v2/src/footballai_v2/execution/coordinator.py on
-- one upload and on a failed run.
use football_ai.Prelude.{◌≡◌, refl, String, true, false, none, some, [], ◌∷◌, List, map, arith}
use football_ai.Prelude.Result.{ok, err}
use football_ai.Prelude.Action.{◌>>=◌, lift, rescue}
use football_ai.Run.Json.{end, field, named, text, get, put}
use football_ai.Run.Status.{DataOrigin, AnalysisRunStatus, stage_names}
use football_ai.Run.Record.{AnalysisRun, CodeReference, StageExecution}
use football_ai.Run.Validate.Parts.{validate_input}
use football_ai.Run.Transition.{new, retry_from}
use football_ai.Storage.Lifecycle.Provenance.{SameProvenance}
use football_ai.Storage.Local.{create, copy_input}
use football_ai.Storage.Local.Directory.{Store, load}
use football_ai.Storage.Local.History.{here}
use football_ai.Storage.Keys.{run_prefix, input_prefix}
use football_ai.Storage.Memory.{FinalizedUpload, finalize_upload, stored_input}
use football_ai.Storage.Memory.Lookup.{Objects, input_object, under}
use football_ai.Storage.Upload.{
  Finalize, video_content_types, uploaded_run, create_or_load, finalize,
}
use football_ai.Storage.Upload.Again.{finalize-again, finalize-stranded}
use football_ai.Execution.Job.{validate_job, unknown_profile}
use football_ai.Execution.Queue.{enqueue}
use football_ai.Execution.Queue.Directories.{Queue, readable}
use football_ai.Execution.Attempts.{
  Planes, Fresh, job_refused, queued_stage, queued_stages, queued_stages_of, new_job, job_of,
  enqueue_run, enqueuing, changing, loading, ingest, or_fail,
}
use football_ai.Execution.Attempts.Settled.{Settled}
use football_ai.Execution.Coordinator.{Site, Upload, retry, clone, create_analysis, profile_of}
use football_ai.Execution.Coordinator.Settled.{
  retry-Settled, clone-Settled, create_analysis-Settled,
}
use football_ai.Run.Text.{after}
use football_ai.Tests.Samples.{digest, run_id, queued_run}
use football_ai.Tests.Storage.{storage, constant_digest, content}

ingestion : Unit {0}
unfolding storage new retry_from validate_input finalize create_or_load uploaded_run finalize_upload
    input_object input_prefix run_prefix under after queued_stages queued_stages_of new_job
    enqueue_run enqueuing changing loading ingest or_fail ◌>>=◌ lift rescue enqueue validate_job
    retry clone create_analysis profile_of get put copy_input
ingestion = tt

abbrev objects : Objects
objects =
    (
      "runs/3f2504e0-4f89-41d3-9a0c-0305e82c3301/input/source.mp4",
      stored_input constant_digest content "video/mp4",
    )
    ∷ []

abbrev code : CodeReference
code = queued_run.code

abbrev fresh : Fresh
fresh = record {
  run_id = "9b2504e0-4f89-41d3-9a0c-0305e82c3302";
  logical_analysis_id = "9b2d5b4c-1111-4222-8333-123456789abc";
  job_id = "3f2504e0-4f89-41d3-9a0c-0305e82c3302";
  created_at = 30;
  enqueued_at = 31;
  occurred_at = 32;
  failed_at = 33;
}

abbrev request : String → Finalize
request profile = record {
  run_id = run_id;
  profile = profile;
  data_origin = DataOrigin.real;
  parameters = end;
}

abbrev stages : List StageExecution
stages = map (queued_stage 1 true) stage_names

abbrev uploaded : (profile version : String) → AnalysisRun
uploaded profile version = record queued_run {
  data_origin = DataOrigin.real;
  input = record {
    uri = "blob://runs/3f2504e0-4f89-41d3-9a0c-0305e82c3301/input/source.mp4";
    sha256 = digest;
    media_type = "video/mp4";
  };
  pipeline_version = version;
  parameters = field (named "pipeline_profile") (text profile) end;
  stages = stages;
  created_at = 30;
}

abbrev demo_run : AnalysisRun
demo_run = uploaded "demo_fast" "demo_fast/1.0.0"

abbrev no_jobs : Queue
no_jobs = record {
  run_index = [];
  queued = [];
  claimed = [];
  completed = [];
  failed = [];
  cancelled = [];
}

abbrev empty : Planes
empty = record { store = []; queue = no_jobs }

abbrev storing : AnalysisRun → Store
storing run =
    (run_id, record { manifest = run; cancel_marker = false; inputs = []; files = [] }) ∷ []

abbrev uploaded_once : Planes
uploaded_once = record {
  store = storing demo_run;
  queue = record no_jobs {
    run_index = run_id ∷ [];
    queued = (fresh.job_id, readable (job_of fresh demo_run "demo_fast")) ∷ [];
  };
}

first_example :
    finalize objects 100 code fresh (request "demo_fast") empty ≡ (ok demo_run, uploaded_once)
unfolding ingestion
first_example = refl

abbrev accepted : FinalizedUpload
accepted = record {
  object_reference = "runs/3f2504e0-4f89-41d3-9a0c-0305e82c3301/input/source.mp4";
  sha256 = digest;
  size_bytes = 2;
  content_type = "video/mp4";
}

accepted_example : finalize_upload objects run_id 100 video_content_types ≡ ok accepted
unfolding ingestion
accepted_example = refl

made_example : uploaded_run objects 100 code fresh (request "demo_fast") accepted ≡ ok demo_run
unfolding ingestion
made_example = refl

finalize-again_example :
    (again : AnalysisRun) × (load uploaded_once.store (request "demo_fast").run_id ≡ ok again)
    × (finalize objects 100 code fresh (request "demo_fast") uploaded_once
        ≡ (ok again, uploaded_once))
    × SameProvenance demo_run again
finalize-again_example =
    finalize-again constant_digest objects objects 100 code code fresh fresh (request "demo_fast")
      (request "demo_fast") empty uploaded_once uploaded_once accepted demo_run demo_run
      first_example here refl accepted_example made_example

abbrev bogus_run : AnalysisRun
bogus_run = uploaded "bogus" "bogus/1.0.0"

bogus_made : uploaded_run objects 100 code fresh (request "bogus") accepted ≡ ok bogus_run
unfolding ingestion
bogus_made = refl

bogus_created : create [] bogus_run ≡ ok (storing bogus_run)
unfolding ingestion
bogus_created = refl

bogus_refused :
    enqueue_run fresh bogus_run "bogus" (record empty { store = storing bogus_run })
    ≡ (err (job_refused unknown_profile), record empty { store = storing bogus_run })
unfolding ingestion
bogus_refused = refl

finalize-stranded_example :
    (finalize objects 100 code fresh (request "bogus") empty
      ≡ (err (job_refused unknown_profile), record empty { store = storing bogus_run }))
    × (finalize objects 100 code fresh
          (request "bogus")
          (record empty { store = storing bogus_run })
        ≡ (ok bogus_run, record empty { store = storing bogus_run }))
finalize-stranded_example =
    finalize-stranded objects 100 code fresh fresh (request "bogus") empty accepted bogus_run
      bogus_run (storing bogus_run) (job_refused unknown_profile) accepted_example bogus_made
      bogus_made bogus_created bogus_refused

abbrev site : Site
site = record {
  sha256 = constant_digest;
  str = λ value. "";
  code_reference = code;
  profile_catalog = λ profile. some (record { available = true; warnings = [] });
  v1_compat_config = none;
  probe_video = λ bytes extension. ok end;
}

-- A failed attempt, with its input.
abbrev failed_run : AnalysisRun
failed_run = record queued_run {
  status = AnalysisRunStatus.failed;
  failure = some (record {
    error_code = "execution_failed";
    safe_message = "Analysis execution failed safely.";
    retryable = true;
    occurred_at = 12;
    technical_details = none;
  });
  completed_at = some 13;
}

abbrev after_failure : Planes
after_failure = record {
  store =
      (
        run_id,
        record {
          manifest = failed_run;
          cancel_marker = false;
          inputs = ("source.mp4", content) ∷ [];
          files = [];
        },
      )
      ∷ [];
  queue = no_jobs;
}

retried_example : (retry site fresh run_id after_failure).1.queue.run_index ≡ fresh.run_id ∷ []
unfolding ingestion
retried_example = refl

retry-Settled_example : Settled after_failure fresh (retry site fresh run_id after_failure)
retry-Settled_example = retry-Settled site fresh (omega arith) run_id after_failure

clone-Settled_example : Settled after_failure fresh (clone site fresh run_id after_failure)
clone-Settled_example = clone-Settled site fresh (omega arith) run_id after_failure

abbrev upload : Upload
upload = record {
  content = content;
  filename = "match.mp4";
  checksum = digest;
  size_bytes = 2;
  extension = ".mp4";
  content_type = "video/mp4";
  metadata = ("pipeline_profile", "demo_fast") ∷ [];
}

create_analysis-Settled_example : Settled empty fresh (create_analysis site fresh upload empty)
create_analysis-Settled_example = create_analysis-Settled site fresh (omega arith) upload empty
