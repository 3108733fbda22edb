-- ===== src/Execution/Queue/Directories.antt =====
-- The directories of v2/src/footballai_v2/execution/queue/local_filesystem.py, and the moves between them.
use Prim.Native.String.{compare}
use Prim.Native.Nat.{Ordering}
use football_ai.Prelude.{
  String, Bool, true, false, Option, none, some, is_some, List, [], ◌∷◌, if◌then◌else◌,
}
use football_ai.Prelude.Result.{Result, ok, err, ◌>>=◌}
use football_ai.Prelude.Dict
use football_ai.Execution.Job.{ExecutionJob}

pub data QueueRecord : Type 0 where
  readable : ExecutionJob → QueueRecord
  malformed : QueueRecord

abbrev pub Directory : Type 0
Directory = Dict.Dict QueueRecord

pub data QueueState : Type 0 where
  in_queued in_claimed in_completed in_failed in_cancelled : QueueState

pub record Queue : Type 0 where
  pub run_index : List String
  pub queued : Directory
  pub claimed : Directory
  pub completed : Directory
  pub failed : Directory
  pub cancelled : Directory

abbrev pub at : Queue → QueueState → Directory
at q in_queued = q.queued
at q in_claimed = q.claimed
at q in_completed = q.completed
at q in_failed = q.failed
at q in_cancelled = q.cancelled

abbrev pub with_directory : Queue → QueueState → Directory → Queue
with_directory q in_queued d = record q { queued = d }
with_directory q in_claimed d = record q { claimed = d }
with_directory q in_completed d = record q { completed = d }
with_directory q in_failed d = record q { failed = d }
with_directory q in_cancelled d = record q { cancelled = d }

pub data QueueError : Type 0 where
  duplicate_job invalid_worker file_not_found : QueueError

abbrev text_leb : String → String → Bool
text_leb a b = elim (compare a b) [ Ordering.gt ↦ false | _ ↦ true ]

insert_name : String → List String → List String
insert_name x [] = x ∷ []
insert_name x (y ∷ ys) = if text_leb x y then x ∷ y ∷ ys else y ∷ insert_name x ys

-- `directory.glob("*.json")`, in the order of the dictionary
unfoldable pub names : Directory → List String
names [] = []
names (x ∷ xs) = x.0 ∷ names xs

-- `sorted(directory.glob("*.json"))`
unfoldable pub sorted_names : List String → List String
unfolding insert_name
sorted_names [] = []
sorted_names (x ∷ xs) = insert_name x (sorted_names xs)

abbrev pub write : Queue → QueueState → String → QueueRecord → Queue
write q state name r = with_directory q state (Dict.put (at q state) name r)

abbrev pub unlink : Queue → QueueState → String → Queue
unlink q state name = with_directory q state (Dict.remove (at q state) name)

abbrev pub content : Option QueueRecord → Result QueueError QueueRecord
content none = err file_not_found
content (some r) = ok r

-- `os.replace`
unfoldable pub replace :
    Queue
    → (source : QueueState) (name : String) (target : QueueState) (target_name : String)
    → Result QueueError Queue
replace q source name target target_name = content (Dict.get (at q source) name) >>= λ r.
    ok (write (unlink q source name) target target_name r)

-- `_move_raw`
unfoldable pub move_raw :
    Queue
    → (source : QueueState) (name : String) (target : QueueState) (target_name : String)
    → Result QueueError Queue
move_raw q source name target target_name =
    if is_some (Dict.get (at q target) target_name)
    then ok (unlink q source name)
    else replace q source name target target_name
