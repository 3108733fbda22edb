-- ===== src/Storage/Memory/Lookup.antt =====
-- The objects of v2/src/footballai_v2/storage/object_storage/memory.py, and how one is found.

use football_ai.Prelude.{
  ℕ, String, Bool, false, ◌&&◌, Option, none, some, List, [], ◌∷◌, str_eq, if◌then◌else◌,
}
use football_ai.Prelude.Result.{ok, err, ◌>>=◌}
use football_ai.Prelude.Dict
use football_ai.Run.Status.{ArtifactCategory}
use football_ai.Run.Checks.{Checked}
use Prim.Native.String.{◌++◌ as append}
use football_ai.Storage.Local.Directory.{Bytes}
use football_ai.Storage.Keys.{
  Reply, object_not_found, contract_violation, starts_with, run_prefix, input_prefix,
}

-- The metadata of an input has no `artifact_id` and no `relative_path`.
pub record StoredObject : Type 0 where
  pub data_bytes : Bytes
  pub artifact_id : Option String
  pub sha256 : String
  pub size_bytes : ℕ
  pub relative_path : Option String
  pub content_type : String

abbrev pub Objects : Type 0
Objects = Dict.Dict StoredObject

abbrev pub from_contract : {A : Type 0} → Checked A → Reply A
from_contract (ok a) = ok a
from_contract (err v) = err (contract_violation v)

-- What an artifact is published with.
pub record Artifact : Type 0 where
  pub artifact_id : String
  pub name : String
  pub category : ArtifactCategory
  pub relative_path : String
  pub content : Bytes
  pub media_type : String
  pub schema_version : Option String

abbrev has_artifact_id : String → Option String → Bool
has_artifact_id i none = false
has_artifact_id i (some j) = str_eq j i

-- Whether the object at a key is the artifact that is looked for.
abbrev pub is_artifact_at : (prefix artifact_id : String) → String × StoredObject → Bool
is_artifact_at prefix i x = starts_with prefix x.0 && has_artifact_id i x.1.artifact_id

unfoldable pub find_object :
    (String × StoredObject → Bool) → Objects → Reply (String × StoredObject)
find_object p [] = err object_not_found
find_object p (x ∷ d) = if p x then ok x else find_object p d

-- `_resolve_artifact`
unfoldable pub resolve_artifact :
    Objects → (run_id artifact_id : String) → Reply (String × StoredObject)
resolve_artifact d run_id i =
    run_prefix run_id >>= λ prefix. find_object (is_artifact_at (append prefix "artifacts/") i) d

unfoldable pub under : (prefix : String) → Objects → List (String × StoredObject)
under prefix [] = []
under prefix (x ∷ d) =
    let rest = under prefix d in if starts_with prefix x.0 then x ∷ rest else rest

abbrev only_one : List (String × StoredObject) → Reply (String × StoredObject)
only_one (x ∷ []) = ok x
only_one _ = err object_not_found

-- `_input_object`
unfoldable pub input_object : Objects → (run_id : String) → Reply (String × StoredObject)
input_object d run_id = input_prefix run_id >>= λ prefix. only_one (under prefix d)
