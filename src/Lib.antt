-- ===== src/Lib.antt =====
-- The FootballAI V2 platform (v2/src/footballai_v2): football videos are uploaded, analysed in runs
-- whose artifacts are stored and shown, tracklets are joined into player identities, and a copilot
-- answers questions about a run under a limit on money.
--
-- Parts and files
--   Run        v2/src/footballai_v2/contracts/v1/analysis_run.py, the contract of a run. Run/Json is
--              JSON, Run/Status the enumerations, Run/Text the text checks, Run/Record the records,
--              Run/Checks the safety checks of JSON, Run/Validate every __post_init__,
--              Run/Transition the methods new, retry_from, start, with_stages, succeed,
--              complete_partial, fail and cancel. Transition.apply is one of these methods as an
--              Operation: `permitted` its first test, `replaced` the arguments of its replace.
--   Storage    storage/lifecycle.py (Storage/Lifecycle: allowed, provenance_differs,
--              ensure_creatable, ensure_transition_allowed) and storage/local_analysis_runs.py
--              (Storage/Local): the store is a dictionary from run ids to directories, and each
--              method that changes it is a function of the store. Local/History is a sequence of
--              calls. storage/object_storage: keys.py (Storage/Keys) and memory.py (Storage/Memory).
--   Execution  execution/contracts.py (Execution/Job) and execution/queue/local_filesystem.py
--              (Execution/Queue): the five directories of the queue, and each method as one step.
--              execution/progress.py (Execution/Progress). execution/executor.py: Execution/Executor
--              (execute and its handlers), Executor/Stages (the stage loop), Executor/Publication
--              and Executor/Produced (artifacts and the end of a run); Executor/World is what they
--              run in. execution/coordinator.py (Execution/Coordinator: create_analysis, retry,
--              clone) and storage/upload_service.py (Storage/Upload: finalize) share
--              Execution/Attempts: the store, the queue, and how an attempt is put into both.
--   Copilot    copilot/pricing.py, copilot/budget.py, and the usage, telemetry and failures of
--              copilot/models.py and copilot/errors.py. Budget/Spending is the guard under the
--              requests of any number of threads, each method being one step. copilot/grounding.py
--              (Copilot/Grounding: what an answer may show; Copilot/Routing: route_question),
--              copilot/service.py (Copilot/Explain), and copilot/agent: tools.py (Agent/Tools), trace.py
--              (Agent/Trace), and of loop.py the data (Agent/Loop), the turns with the tools
--              (Agent/Conversation) and answer (Agent/Answer).
--              Agent/Invariant is the loop as a relation between sessions, one change at a time.
--   Identity   execution/ai2c: corrections.py (Identity/Corrections), and of resolver.py the
--              configuration (Identity/Config), the constraints (Identity/Constraints), the union-find
--              (Identity/Groups) and the loops over must-links and proposals (link_musts,
--              link_proposals), without the links, outcomes and abstentions that they record.
--   Prelude    shared names: tests, lists, decisions, results, dictionaries, actions.
--   Tests      runs at fixed inputs, and the theorems at concrete inputs.
--
-- How things are modelled
--   The store, the object storage and the queue are values, and each method a function of them. The
--   executor and the coordinator are Actions (Prelude/Action): functions from a state to what they
--   return or raise, and the state that they leave. Between any two steps of the executor the others change
--   the store: `interfere` of its Host, whose n-th change is any history of calls (SharedStore) or
--   none. The pipeline adapters, the measurements of a stage, json.dumps and float are of the Host;
--   probe_video, the catalog of profiles and the commit that runs are of the Site.
--   A datetime is its instant in microseconds; the current time and a new uuid4 are arguments. A
--   float is a whole number of millionths or not finite; money is counted in billionths of a dollar,
--   and progress in hundred-millionths of a percent, so the rounding of floating point is not
--   modelled. A JSON object is the list of its items, and the typed fields of the records stand for
--   the isinstance tests. Exceptions are values of Result.
--   SHA-256 is a parameter: nothing is assumed of it. A lock makes a method one atomic step.
--   The id of a tracklet is its place in the text order of the ids.
--   The model of the agent answers its n-th turn in any way, and the clock gives its n-th reading.
--   What Unicode says of a character above ASCII, its lower case and whether it is of a word, is an
--   argument of the routing. The loop of the agent is recursion on the turns that are left.
--   `find` of the union-find runs on fuel: one more than the id, which is enough because a parent is
--   never larger than its child (Identity/Groups/Ends).
--
-- Not modelled
--   The JSON form of manifests and corrections, symbolic links and path resolution on disk, the
--   PostgreSQL and Azure adapters, the checks of the name of an uploaded file, its streaming and
--   its probing, the measurements of a stage, the logs of the executor, the video and vision
--   adapters, the generation of link candidates and their kinematic gates, the catalog of claims
--   and the evidence service, the adapters of the model, the API, the command line and the
--   dashboard: I/O or calls of other packages, or parts that the models here do not use.
pub mod Prelude
pub mod Run
pub mod Storage
pub mod Execution
pub mod Copilot
pub mod Identity
mod Tests
