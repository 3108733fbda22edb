-- ===== src/Storage/Local/Directory.antt =====
-- The directories of v2/src/footballai_v2/storage/local_analysis_runs.py, and how a run is loaded.

use football_ai.Prelude.{ℕ, String, Bool, not, none, some, List, str_eq, if◌then◌else◌}
use football_ai.Prelude.Result.{Result, ok, err, ◌>>=◌}
use football_ai.Prelude.Dict
use football_ai.Prelude.Dict.{Dict}
use football_ai.Run.Text.Identifiers.{is_uuid_v4}
use football_ai.Run.Record.{AnalysisRun}
use football_ai.Run.Checks.{Violation, Checked}

abbrev pub Bytes : Type 0
Bytes = List ℕ

pub record RunDirectory : Type 0 where
  pub manifest : AnalysisRun
  pub cancel_marker : Bool
  pub inputs : Dict Bytes
  pub files : Dict Bytes

abbrev pub Store : Type 0
Store = Dict RunDirectory

pub data StoreError : Type 0 where
  manifest_conflict run_already_exists run_not_found file_exists value_error : StoreError
  contract_violation : Violation → StoreError

abbrev pub Reply : Type 0 → Type 0
Reply A = Result StoreError A

abbrev pub from_contract : {A : Type 0} → Checked A → Reply A
from_contract (ok a) = ok a
from_contract (err v) = err (contract_violation v)

-- `_require_run_directory`
unfoldable pub directory : Store → String → Reply RunDirectory
directory s run_id =
    if not (is_uuid_v4 run_id)
    then err (contract_violation Violation.bad_uuid)
    else elim (Dict.get s run_id) [ none ↦ err run_not_found | some d ↦ ok d ]

-- `load`
unfoldable pub load : Store → String → Reply AnalysisRun
load s run_id = do
  d ← directory s run_id
  if not (str_eq d.manifest.run_id run_id) then err manifest_conflict else ok d.manifest
