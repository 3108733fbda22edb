-- ===== src/Storage/Memory.antt =====
-- v2/src/footballai_v2/storage/object_storage/memory.py: the in-memory object storage, with a dictionary of
-- objects as its state. The size in the metadata of an object is the number that its text holds.
-- Materializing an input is file I/O.
pub mod History
pub mod WriteOnce
pub mod Lookup
use Prim.Native.Char.{code}
use football_ai.Prelude.{
  ℕ, String, String-discrete, Bool, true, false, not, ◌&&◌, ◌||◌, Option, none, some, is_some, List,
  [], ◌∷◌, any, all, ltb, leb, ◌==◌, length, str_eq, is_empty, member, if◌then◌else◌,
}
use football_ai.Prelude.Result.{Result, ok, err, raise_if, ◌>>=◌, ◌>>◌}
use football_ai.Prelude.Dict
use football_ai.Run.Status.{ArtifactCategory}
use football_ai.Run.Record.{ArtifactReference}
use football_ai.Run.Checks.{Checked}
use football_ai.Run.Validate.Parts.{checked_artifact}
use Prim.Native.String.{◌++◌ as append}
use football_ai.Storage.Local.Directory.{Bytes}
use football_ai.Storage.Keys.{
  Reply, value_error, object_not_found, object_already_exists, upload_not_found, storage_integrity,
  invalid_storage_object, contract_violation, starts_with, run_prefix, input_prefix,
  input_object_key, artifact_object_key,
}
use football_ai.Storage.Memory.Lookup.{
  Artifact, Objects, StoredObject, find_object, from_contract, input_object, is_artifact_at,
  resolve_artifact, under,
}

abbrev is_ok : {A : Type 0} → Reply A → Bool
is_ok (ok a) = true
is_ok (err e) = false

-- `has_input`: only `ObjectNotFoundError` is caught.
abbrev found_or_raise : Reply (String × StoredObject) → Reply Bool
found_or_raise (ok x) = ok true
found_or_raise (err object_not_found) = ok false
found_or_raise (err e) = err e

unfoldable pub has_input : Objects → (run_id : String) → Reply Bool
has_input d run_id = found_or_raise (input_object d run_id)

-- The text from its last dot, if something follows the dot.
unfoldable pub last_dot : String → Option String
last_dot String.[] = none
last_dot (String.◌∷◌ c s) = elim (last_dot s) [
  | some t ↦ some t
  | none ↦ if code c == b'.' then some (String.◌∷◌ c s) else none
]

has_slash : String → Bool
has_slash String.[] = false
has_slash (String.◌∷◌ c s) = code c == b'/' || has_slash s

-- `Path(key).name` of a normalized key
file_name : String → String
unfolding has_slash
file_name String.[] = ""
file_name (String.◌∷◌ c s) =
    let rest = file_name s in
    if has_slash s then rest else if code c == b'/' then s else String.◌∷◌ c s

abbrev suffix_from : Option String → String
suffix_from none = ""
suffix_from (some t) = if str_eq t "." then "" else t

-- `Path(key).suffix` of the key of an input, whose name begins with `source`
unfoldable pub suffix_of : String → String
unfolding file_name
suffix_of key = suffix_from (last_dot (file_name key))

unfoldable pub extension_for : (content_type : String) → Reply String
extension_for t =
    if str_eq t "video/mp4"
    then ok ".mp4"
    else if str_eq t "video/quicktime"
    then ok ".mov"
    else if str_eq t "video/x-matroska"
    then ok ".mkv"
    else if str_eq t "video/webm"
    then ok ".webm"
    else err value_error

-- `FinalizedUpload` of v2/src/footballai_v2/storage/ports.py
pub record FinalizedUpload : Type 0 where
  pub object_reference : String
  pub sha256 : String
  pub size_bytes : ℕ
  pub content_type : String

abbrev uploaded : Reply (String × StoredObject) → Reply (String × StoredObject)
uploaded (err object_not_found) = err upload_not_found
uploaded r = r

abbrev finalized : String × StoredObject → FinalizedUpload
finalized x = record {
  object_reference = x.0;
  sha256 = x.1.sha256;
  size_bytes = x.1.size_bytes;
  content_type = x.1.content_type;
}

-- `finalize_upload`
unfoldable pub finalize_upload :
    Objects
    → (run_id : String) → (max_bytes : ℕ) → (allowed_content_types : List String)
    → Reply FinalizedUpload
finalize_upload d run_id max_bytes types = do
  x ← uploaded (input_object d run_id)
  raise_if (ltb x.1.size_bytes 1 || ltb max_bytes x.1.size_bytes) invalid_storage_object
  raise_if (not (is_empty types) && not (member String-discrete x.1.content_type types))
      invalid_storage_object
  ok (finalized x)

module _ (digest : Bytes → String) where
  abbrev pub stored_artifact : Artifact → StoredObject
  stored_artifact a = record {
    data_bytes = a.content;
    artifact_id = some a.artifact_id;
    sha256 = digest a.content;
    size_bytes = length a.content;
    relative_path = some a.relative_path;
    content_type = a.media_type;
  }

  abbrev pub reference_of : Artifact → ArtifactReference
  reference_of a = record {
    artifact_id = a.artifact_id;
    name = a.name;
    category = a.category;
    relative_path = a.relative_path;
    media_type = a.media_type;
    sha256 = digest a.content;
    size_bytes = length a.content;
    schema_version = a.schema_version;
  }

  abbrev put_artifact : Objects → Artifact → Reply String → Reply ArtifactReference × Objects
  put_artifact d a (err e) = (err e, d)
  put_artifact d a (ok key) =
      if is_some (Dict.get d key)
      then (err object_already_exists, d)
      else (from_contract (checked_artifact (reference_of a)), Dict.put d key (stored_artifact a))

  -- `write_artifact`: the object is stored before the reference is checked, so that an error of the
  -- reference leaves it there.
  unfoldable pub write_artifact :
      Objects → (run_id : String) → Artifact → Reply ArtifactReference × Objects
  write_artifact d run_id a = put_artifact d a (artifact_object_key run_id a.relative_path)

  abbrev pub is_intact : StoredObject → Bool
  is_intact o = length o.data_bytes == o.size_bytes && str_eq (digest o.data_bytes) o.sha256

  -- `read_artifact_bytes`
  unfoldable pub read_artifact_bytes :
      Objects → (run_id artifact_id : String) → (max_bytes : ℕ) → Reply Bytes
  read_artifact_bytes d run_id i max_bytes = do
    raise_if (max_bytes == 0) value_error
    x ← resolve_artifact d run_id i
    raise_if (ltb max_bytes x.1.size_bytes) value_error
    raise_if (not (is_intact x.1)) storage_integrity
    ok x.1.data_bytes

  -- `artifact_integrity`: every error of a read is a missing object or a `ValueError`.
  unfoldable pub artifact_integrity : Objects → (run_id artifact_id : String) → Bool
  artifact_integrity d run_id i = is_ok (read_artifact_bytes d run_id i 26_214_400)

  abbrev matches_reference : ArtifactReference → Reply (String × StoredObject) → Reply Bool
  matches_reference a (ok x) =
      ok (length x.1.data_bytes == a.size_bytes && str_eq (digest x.1.data_bytes) a.sha256)
  matches_reference a (err object_not_found) = ok false
  matches_reference a (err e) = err e

  -- `artifact_reference_integrity`
  unfoldable pub artifact_reference_integrity :
      Objects → (run_id : String) → ArtifactReference → Reply Bool
  artifact_reference_integrity d run_id a =
      matches_reference a (resolve_artifact d run_id a.artifact_id)

  abbrev pub stored_input : Bytes → (content_type : String) → StoredObject
  stored_input content t = record {
    data_bytes = content;
    artifact_id = none;
    sha256 = digest content;
    size_bytes = length content;
    relative_path = none;
    content_type = t;
  }

  -- `put_input`, and `put_input_file` with the bytes of the file
  unfoldable pub put_input :
      Objects
      → (run_id : String) → Bytes
      → (extension content_type : String) → Reply (String × Objects)
  put_input d run_id content extension t = do
    key ← input_object_key run_id extension
    raise_if (is_some (Dict.get d key)) object_already_exists
    ok (key, Dict.put d key (stored_input content t))

  -- `copy_input`
  unfoldable pub copy_input : Objects → (source_run_id destination_run_id : String) → Reply Objects
  copy_input d source destination = do
    x ← input_object d source
    r ← put_input d destination x.1.data_bytes (suffix_of x.0) x.1.content_type
    ok r.1
