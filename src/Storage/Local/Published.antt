-- ===== src/Storage/Local/Published.antt =====
-- The bytes behind a published run of v2/src/footballai_v2/storage/local_analysis_runs.py.
use football_ai.Prelude.{
  some_eq, inl, inr, eq_iff, ◌≡◌, refl, sym, ◌∙◌, subst, String, Bool, true, ◌||◌, none, some,
  arith, ℕ, ◌≤◌, ◌<◌, Option, Option-cases, Bool-cases, List, [], ◌∷◌, str_eq,
}
use football_ai.Prelude.Result.{ok}
use football_ai.Prelude.Dict
use football_ai.Prelude.Dict.{Dict, get-put}
use football_ai.Run.Status.{AnalysisRunStatus, queued, succeeded, partial, run_status_is}
use football_ai.Run.Record.{AnalysisRun, ArtifactReference}
use football_ai.Storage.Local.{
  bytes_match, file_matches, verify_artifacts, find_artifact, read_artifact_bytes,
}
use football_ai.Storage.Local.Directory.{Bytes, Store, RunDirectory, directory, load}
use football_ai.Storage.Local.Inversion.{Replaces, load-eq-ok}
use football_ai.Storage.Local.Changes.{
  Change, unchanged, fresh, replaced, marked, input_added, file_added, Step-Change,
}
use football_ai.Storage.Local.History.{History, here, next}

-- A run that the dashboard may show: `SUCCEEDED` or `PARTIAL`.
abbrev pub is_published : AnalysisRunStatus → Bool
is_published status = run_status_is status succeeded || run_status_is status partial

directory_stored :
    (s : Store) (run_id : String) (d : RunDirectory) {r : AnalysisRun}
    → load s run_id ≡ ok r
    → Dict.get s run_id ≡ some d
    → directory s run_id ≡ ok d
unfolding load directory
directory_stored s run_id d h e = ground arith

module _ (sha256 : Bytes → String) where
  -- A new file elsewhere keeps every match.
  file_matches-put :
      (files : Dict Bytes) (path : String) (content : Bytes) (a : ArtifactReference)
      → Dict.get files path ≡ none
      → file_matches sha256 files a ≡ true
      → file_matches sha256 (Dict.put files path content) a ≡ true
  unfolding file_matches
  file_matches-put files path content a free h =
      ground (arith, get-put files path content a.relative_path, eq_iff path a.relative_path)

  verify_artifacts-put :
      (files : Dict Bytes) (path : String) (content : Bytes) (refs : List ArtifactReference)
      → Dict.get files path ≡ none
      → verify_artifacts sha256 files refs ≡ true
      → verify_artifacts sha256 (Dict.put files path content) refs ≡ true
  unfolding verify_artifacts
  verify_artifacts-put files path content [] free h = refl
  verify_artifacts-put files path content (a ∷ rest) free h = ground (
    arith,
    file_matches-put files path content a free,
    verify_artifacts-put files path content rest free,
  )

  IsIntact : RunDirectory → Type 0
  IsIntact d =
      is_published d.manifest.status ≡ true
      → verify_artifacts sha256 d.files d.manifest.artifacts ≡ true

  AllIntact : Store → Type 0
  AllIntact s = (key : String) (d : RunDirectory) → Dict.get s key ≡ some d → IsIntact d

  -- The directory that a key holds is one directory.
  IsIntact-at :
      {o : Option RunDirectory} {x d : RunDirectory}
      → o ≡ some x
      → o ≡ some d
      → IsIntact x
      → IsIntact d
  IsIntact-at e q h = subst IsIntact (some_eq (sym e ∙ q)) h

  replaced_IsIntact :
      (d : RunDirectory) (run : AnalysisRun)
      → Replaces sha256 d run
      → IsIntact (record d { manifest = run })
  unfolding IsIntact
  replaced_IsIntact d run tested = tested.verified

  fresh_IsIntact : (d : RunDirectory) → run_status_is d.manifest.status queued ≡ true → IsIntact d
  unfolding IsIntact
  fresh_IsIntact d new p = absurd (ground arith)

  file_IsIntact :
      (d : RunDirectory) (path : String) (content : Bytes)
      → Dict.get d.files path ≡ none
      → IsIntact d
      → IsIntact (record d { files = Dict.put d.files path content })
  unfolding IsIntact
  file_IsIntact d path content free h p =
      verify_artifacts-put d.files path content d.manifest.artifacts free (h p)

  marked_IsIntact : (d : RunDirectory) → IsIntact d → IsIntact (record d { cancel_marker = true })
  unfolding IsIntact
  marked_IsIntact d h = h

  input_IsIntact :
      (d : RunDirectory) (inputs : Dict Bytes)
      → IsIntact d
      → IsIntact (record d { inputs = inputs })
  unfolding IsIntact
  input_IsIntact d inputs h = h

  Change-IsIntact :
      {key : String} {o o' : Option RunDirectory}
      → Change sha256 key o o'
      → ((d : RunDirectory) → o ≡ some d → IsIntact d)
      → (d : RunDirectory) → o' ≡ some d
      → IsIntact d
  Change-IsIntact (unchanged e) h d q = h d (sym e ∙ q)
  Change-IsIntact (fresh run absent new _ e) h d q = IsIntact-at e q (fresh_IsIntact _ new)
  Change-IsIntact (replaced d₀ run e tested e') h d q =
      IsIntact-at e' q (replaced_IsIntact d₀ run tested)
  Change-IsIntact (marked d₀ e e') h d q = IsIntact-at e' q (marked_IsIntact d₀ (h d₀ e))
  Change-IsIntact (input_added d₀ inputs e e') h d q =
      IsIntact-at e' q (input_IsIntact d₀ inputs (h d₀ e))
  Change-IsIntact (file_added d₀ path content e free _ e') h d q =
      IsIntact-at e' q (file_IsIntact d₀ path content free (h d₀ e))

  History-AllIntact : {s s' : Store} → History sha256 s s' → AllIntact s → AllIntact s'
  unfolding AllIntact
  History-AllIntact here h key = h key
  History-AllIntact (next {t = t} {u = u} past step) h key =
      Change-IsIntact (Step-Change sha256 t u step key) (History-AllIntact past h key)

  empty_AllIntact : AllIntact []
  unfolding AllIntact Dict.get
  empty_AllIntact key d e = absurd (ground arith)

  -- The reference that an id names among verified references is itself verified.
  find_artifact-verified :
      (files : Dict Bytes) (i : String) (refs : List ArtifactReference) (a : ArtifactReference)
      → find_artifact i refs ≡ ok a
      → verify_artifacts sha256 files refs ≡ true
      → (content : Bytes) × (Dict.get files a.relative_path ≡ some content)
        × (bytes_match sha256 a content ≡ true)
  unfolding find_artifact verify_artifacts file_matches
  find_artifact-verified files i [] a h v = absurd (ground arith)
  find_artifact-verified files i (b ∷ rest) a h v = elim (Bool-cases (str_eq b.artifact_id i)) [
    | inl named ↦ elim (Option-cases (Dict.get files b.relative_path)) [
      | inl missing ↦ absurd (ground arith)
      | inr (content, e) ↦ (content, ground arith, ground arith)
    ]
    | inr other ↦ find_artifact-verified files i rest a (ground arith) (ground arith)
  ]

-- The way through `read_artifact_bytes` that finds nothing wrong.
read_stored :
    (sha256 : Bytes → String) (s : Store) (run_id artifact_id : String) (r : AnalysisRun)
    (a : ArtifactReference) (max_bytes : ℕ) (d : RunDirectory) (content : Bytes)
    → load s run_id ≡ ok r
    → Dict.get s run_id ≡ some d
    → find_artifact artifact_id r.artifacts ≡ ok a
    → Dict.get d.files a.relative_path ≡ some content
    → bytes_match sha256 a content ≡ true
    → 0 < max_bytes
    → a.size_bytes ≤ max_bytes
    → read_artifact_bytes sha256 s run_id artifact_id max_bytes ≡ ok content
unfolding read_artifact_bytes
read_stored sha256 s run_id artifact_id r a max_bytes d content h e named held good positive fits =
    ground (arith, directory_stored s run_id d h e)

-- In a store that calls have built up from the empty one, a run that is loaded as succeeded or
-- partial has the bytes of every artifact it registers: reading an artifact that the run names,
-- within the read limit, succeeds, and returns bytes of the recorded size and digest.
pub read_artifact_bytes-published :
    (sha256 : Bytes → String) (s : Store) (run_id artifact_id : String) (r : AnalysisRun)
    (a : ArtifactReference) (max_bytes : ℕ)
    → History sha256 [] s
    → load s run_id ≡ ok r
    → is_published r.status ≡ true
    → find_artifact artifact_id r.artifacts ≡ ok a
    → 0 < max_bytes
    → a.size_bytes ≤ max_bytes
    → (content : Bytes) × (read_artifact_bytes sha256 s run_id artifact_id max_bytes ≡ ok content)
      × (bytes_match sha256 a content ≡ true)
unfolding AllIntact IsIntact
read_artifact_bytes-published sha256 s run_id artifact_id r a max_bytes past h p named positive
      fits =
    let (d, e, m, i) = load-eq-ok s run_id h in
    let intact : verify_artifacts sha256 d.files r.artifacts ≡ true =
      subst (λ x. verify_artifacts sha256 d.files x.artifacts ≡ true) m
        (History-AllIntact sha256 past (empty_AllIntact sha256) run_id d e (ground arith)) in
    let (content, held, good) =
      find_artifact-verified sha256 d.files artifact_id r.artifacts a named intact in
    (
      content,
      read_stored sha256 s run_id artifact_id r a max_bytes d content h e named held good positive
          fits,
      good,
    )
