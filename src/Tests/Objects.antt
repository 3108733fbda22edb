-- ===== src/Tests/Objects.antt =====
-- The in-memory object storage of v2/src/footballai_v2/storage/object_storage with one artifact, whose digest
-- stands for SHA-256 with the text that every content has.
use football_ai.Prelude.{◌≡◌, refl, ap, none, some, true, String, [], ◌∷◌, arith}
use football_ai.Prelude.Result.{ok, err}
use football_ai.Prelude.Dict
use football_ai.Run.Text.{after, path_error}
use football_ai.Run.Text.Identifiers.{is_uuid_v4, is_identifier, non_empty, is_sha256}
use football_ai.Run.Status.{ArtifactCategory}
use football_ai.Run.Validate.Parts.{checked_artifact, validate_artifact}
use football_ai.Storage.Local.Directory.{Bytes}
use football_ai.Storage.Keys.{
  object_not_found, object_already_exists, run_prefix, artifact_object_key, input_object_key,
  input_prefix, is_extension,
}
use football_ai.Storage.Memory.{
  write_artifact, read_artifact_bytes, stored_artifact, reference_of, artifact_reference_integrity,
  put_input, suffix_of, last_dot, finalize_upload, stored_input,
}
use football_ai.Storage.Memory.Lookup.{
  Objects, Artifact, resolve_artifact, find_object, input_object, under,
}
use football_ai.Storage.Memory.History.{here, next, written, input_put, History}
use football_ai.Storage.Memory.WriteOnce.{
  write_artifact-read_artifact_bytes, read_artifact_bytes-found, History-get,
}

abbrev digest : Bytes → String
digest content = "00112233445566778899aabbccddeeff00112233445566778899aabbccddeeff"

abbrev run_id : String
run_id = "3f2504e0-4f89-41d3-9a0c-0305e82c3301"

abbrev retry_id : String
retry_id = "9b2504e0-4f89-41d3-9a0c-0305e82c3302"

abbrev summary : Artifact
summary = record {
  artifact_id = "team-summary";
  name = "Team Summary";
  category = ArtifactCategory.summary;
  relative_path = "artifacts/team-summary.json";
  content = 123 ∷ 125 ∷ [];
  media_type = "application/json";
  schema_version = none;
}

abbrev key : String
key = "runs/3f2504e0-4f89-41d3-9a0c-0305e82c3301/artifacts/team-summary.json"

abbrev stored : Objects
stored = (key, stored_artifact digest summary) ∷ []

abbrev input_key : String
input_key = "runs/3f2504e0-4f89-41d3-9a0c-0305e82c3301/input/source.mp4"

abbrev both : Objects
both =
    (key, stored_artifact digest summary)
    ∷ (input_key, stored_input digest (7 ∷ []) "video/mp4")
    ∷ []

written_example :
    write_artifact digest [] run_id summary ≡ (ok (reference_of digest summary), stored)
unfolding write_artifact artifact_object_key run_prefix Dict.get Dict.put checked_artifact
    validate_artifact is_uuid_v4 path_error is_identifier non_empty is_sha256
written_example = refl

again_example : write_artifact digest stored run_id summary ≡ (err object_already_exists, stored)
unfolding write_artifact artifact_object_key run_prefix Dict.get Dict.put is_uuid_v4 path_error
    non_empty
again_example = refl

input_example : put_input digest stored run_id (7 ∷ []) ".mp4" "video/mp4" ≡ ok (input_key, both)
unfolding put_input input_object_key input_prefix run_prefix is_extension Dict.get Dict.put
    is_uuid_v4
input_example = refl

suffix_example : suffix_of input_key ≡ ".mp4"
unfolding suffix_of last_dot
suffix_example = refl

finalize_example :
    finalize_upload both run_id 100 []
    ≡ ok (record {
      object_reference = input_key;
      sha256 = digest [];
      size_bytes = 1;
      content_type = "video/mp4";
    })
unfolding finalize_upload input_object input_prefix run_prefix under after is_uuid_v4
finalize_example = refl

absent_example : resolve_artifact [] run_id "team-summary" ≡ err object_not_found
unfolding resolve_artifact run_prefix find_object is_uuid_v4
absent_example = refl

later : History digest stored both
later = next here (input_put run_id (7 ∷ []) ".mp4" "video/mp4" input_key input_example)

write_artifact-read_artifact_bytes_example :
    (read_artifact_bytes digest both run_id "team-summary" 100 ≡ ok (123 ∷ 125 ∷ []))
    × (artifact_reference_integrity digest both run_id (reference_of digest summary) ≡ ok true)
unfolding after
write_artifact-read_artifact_bytes_example =
    write_artifact-read_artifact_bytes digest [] stored both run_id summary
      (reference_of digest summary) 100 absent_example refl written_example later (omega arith)
      (omega arith)

found_example :
    resolve_artifact both run_id "team-summary" ≡ ok (key, stored_artifact digest summary)
unfolding resolve_artifact run_prefix find_object after is_uuid_v4
found_example = refl

from_empty : History digest [] both
from_empty =
    next (next here (written run_id summary (ap (λ x. x.1) written_example)))
      (input_put run_id (7 ∷ []) ".mp4" "video/mp4" input_key input_example)

read_artifact_bytes-found_example :
    read_artifact_bytes digest both run_id "team-summary" 100 ≡ ok (123 ∷ 125 ∷ [])
read_artifact_bytes-found_example =
    read_artifact_bytes-found digest both run_id "team-summary" 100
      (key, stored_artifact digest summary) from_empty found_example (omega arith) (omega arith)

stored_example : Dict.get stored key ≡ some (stored_artifact digest summary)
unfolding Dict.get
stored_example = refl

History-get_example : Dict.get both key ≡ some (stored_artifact digest summary)
History-get_example =
    History-get digest stored both key (stored_artifact digest summary) later stored_example
