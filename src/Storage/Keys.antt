-- ===== src/Storage/Keys.antt =====
-- v2/src/footballai_v2/storage/object_storage/keys.py: the keys of objects, with the errors of
-- v2/src/footballai_v2/storage/errors.py and of the in-memory adapter.
use Prim.Native.String.{◌++◌ as append}
use football_ai.Prelude.{
  ℕ, String, Bool, false, not, ◌&&◌, ◌||◌, none, some, is_some, List, [], ◌∷◌, any, ◌==◌,
  if◌then◌else◌,
}
use football_ai.Prelude.Result.{Result, ok, err, raise_if, ◌>>=◌, ◌>>◌}
use football_ai.Run.Text.{after, path_error}
use football_ai.Run.Text.Identifiers.{codes, is_uuid_v4}
use football_ai.Run.Checks.{Violation}

-- `value_error` is a plain `ValueError`; the others are named after their classes.
pub data ObjectError : Type 0 where
  value_error object_not_found object_already_exists upload_not_found storage_integrity
        invalid_storage_object :
      ObjectError
  contract_violation : Violation → ObjectError

abbrev pub Reply : Type 0 → Type 0
Reply A = Result ObjectError A

-- `text.startswith(prefix)`
abbrev pub starts_with : (prefix text : String) → Bool
starts_with prefix text = is_some (after (codes prefix) (codes text))

unfoldable pub run_prefix : String → Reply String
run_prefix run_id =
    if is_uuid_v4 run_id
    then ok (append "runs/" (append run_id "/"))
    else err (contract_violation Violation.bad_uuid)

unfoldable pub input_prefix : String → Reply String
input_prefix run_id = run_prefix run_id >>= λ prefix. ok (append prefix "input/")

-- `extension.startswith(".")`, and no slash of either kind in it
unfoldable pub is_extension : List ℕ → Bool
is_extension [] = false
is_extension (c ∷ cs) = c == b'.' && not (any (λ x. x == b'/' || x == b'\\') cs)

unfoldable pub input_object_key : (run_id extension : String) → Reply String
input_object_key run_id extension = do
  raise_if (not (is_extension (codes extension))) value_error
  prefix ← input_prefix run_id
  ok (append prefix (append "source" extension))

abbrev pub checked_path : String → Reply (Unit {0})
checked_path path = elim (path_error path) [
  | none ↦ ok tt
  | some e ↦ err (contract_violation (Violation.bad_path e))
]

unfoldable pub artifact_object_key : (run_id relative_path : String) → Reply String
artifact_object_key run_id path = do
  checked_path path
  prefix ← run_prefix run_id
  ok (append prefix path)
