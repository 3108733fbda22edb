-- ===== src/Storage/Local/Inversion.antt =====
-- What an accepted call of v2/src/footballai_v2/storage/local_analysis_runs.py has tested, and what
-- it has written.
use Prim.Native.String.{◌++◌ as append}
use football_ai.Prelude.{
  ◌≡◌, refl, String, true, false, ◌||◌, none, some, inl, inr, Option-cases, arith, eq_iff,
}
use football_ai.Prelude.Result.{ok, >>=-eq-ok}
use football_ai.Prelude.Dict
use football_ai.Run.Status.{succeeded, partial, running, is_terminal, run_status_is}
use football_ai.Run.Record.{AnalysisRun}
use football_ai.Storage.Lifecycle.{allowed, provenance_differs}
use football_ai.Storage.Local.{
  save, verify_artifacts, writable, put_input_file, copy_input, only_input,
}
use football_ai.Storage.Local.Directory.{Bytes, RunDirectory, Store, directory, load}

module _ (s : Store) (run_id : String) where
  pub directory-eq-ok : {d : RunDirectory} → directory s run_id ≡ ok d → Dict.get s run_id ≡ some d
  unfolding directory
  directory-eq-ok h = elim (Option-cases (Dict.get s run_id)) [
    | inl e ↦ ground arith
    | inr (d, e) ↦ ground arith
  ]

  pub load-eq-ok :
      {r : AnalysisRun}
      → load s run_id ≡ ok r
      → (d : RunDirectory) × (Dict.get s run_id ≡ some d) × (d.manifest ≡ r) × (r.run_id ≡ run_id)
  unfolding load directory
  load-eq-ok {r} h = elim (Option-cases (Dict.get s run_id)) [
    | inl e ↦ absurd (ground arith)
    | inr (d, e) ↦ (d, e, ground arith, ground (arith, eq_iff d.manifest.run_id run_id))
  ]

-- What `save` has tested of the directory it writes in.
pub record Replaces (sha256 : Bytes → String) (d : RunDirectory) (run : AnalysisRun) : Type 0 where
  pub active : is_terminal d.manifest.status ≡ false
  pub next : allowed d.manifest.status run.status ≡ true
  pub provenance : provenance_differs d.manifest run ≡ false
  pub verified :
      (run_status_is run.status succeeded || run_status_is run.status partial) ≡ true
      → verify_artifacts sha256 d.files run.artifacts ≡ true

module _ (sha256 : Bytes → String) (s : Store) where
  pub save-eq-ok :
      (run : AnalysisRun) {s' : Store}
      → save sha256 s run ≡ ok s'
      → (d : RunDirectory) × (Dict.get s run.run_id ≡ some d)
        × (s' ≡ Dict.put s run.run_id (record d { manifest = run }))
        × Replaces sha256 d run
  unfolding save load directory
  save-eq-ok run {s'} h = elim (Option-cases (Dict.get s run.run_id)) [
    | inl e ↦ absurd (ground arith)
    | inr (d, e) ↦ (
      d,
      e,
      ground arith,
      record {
        active = ground arith;
        next = ground arith;
        provenance = ground arith;
        verified = λ p. ground arith;
      },
    )
  ]

directory_of_load :
    (s : Store) (run_id : String) {r : AnalysisRun}
    → load s run_id ≡ ok r
    → (d : RunDirectory) × (directory s run_id ≡ ok d)
unfolding load
directory_of_load s run_id h = let (d, e, _) = >>=-eq-ok (directory s run_id) _ h in (d, e)

-- A run that is not published is saved if the directory admits it.
pub save_active :
    (sha256 : Bytes → String) (s : Store) (before run : AnalysisRun)
    → load s run.run_id ≡ ok before
    → is_terminal before.status ≡ false
    → allowed before.status run.status ≡ true
    → provenance_differs before run ≡ false
    → (run_status_is run.status succeeded || run_status_is run.status partial) ≡ false
    → (s' : Store) × (save sha256 s run ≡ ok s')
unfolding save
save_active sha256 s before run loaded active next same unpublished =
    let (d, e) = directory_of_load s run.run_id loaded in
    (
      Dict.put s run.run_id (record d { manifest = run }),
      rw loaded (rw e (rw active (rw next (rw same (rw unpublished refl))))),
    )

module _ (s : Store) (run_id path : String) where
  -- `write_artifact` writes to a running run, and to a path that holds no file.
  pub writable-eq-ok :
      {d : RunDirectory}
      → writable s run_id path ≡ ok d
      → (Dict.get s run_id ≡ some d)
        × (Dict.get d.files path ≡ none)
        × (run_status_is d.manifest.status running ≡ true)
  unfolding writable load directory
  writable-eq-ok {d} h = elim (Option-cases (Dict.get s run_id)) [
    | inl e ↦ absurd (ground arith)
    | inr (d', e) ↦ elim (Option-cases (Dict.get d'.files path)) [
      | inl free ↦ (ground arith, ground arith, ground arith)
      | inr (content, taken) ↦ absurd (ground arith)
    ]
  ]

-- The store with other inputs in one directory.
pub record WithInputs (s : Store) (run_id : String) (s' : Store) : Type 0 where
  pub before : RunDirectory
  pub inputs : Dict.Dict Bytes
  pub there : Dict.get s run_id ≡ some before
  pub after : s' ≡ Dict.put s run_id (record before { inputs = inputs })

pub put_input_file-eq-ok :
    (s : Store) (run_id : String) (content : Bytes) (extension : String) {s' : Store}
    → put_input_file s run_id content extension ≡ ok s'
    → WithInputs s run_id s'
unfolding put_input_file directory
put_input_file-eq-ok s run_id content extension h = elim (Option-cases (Dict.get s run_id)) [
  | inl e ↦ absurd (ground arith)
  | inr (d, e) ↦ record {
    before = d;
    inputs = Dict.put d.inputs (append "source" extension) content;
    there = e;
    after = ground arith;
  }
]

pub copy_input-eq-ok :
    (sha256 : Bytes → String) (s : Store) (source destination : String) {s' : Store}
    → copy_input sha256 s source destination ≡ ok s'
    → WithInputs s destination s'
unfolding copy_input
copy_input-eq-ok sha256 s source destination h =
    let (run, loaded, h1) = >>=-eq-ok (load s source) _ h in
    let (from, opened, h2) = >>=-eq-ok (directory s source) _ h1 in
    let (item, single, h3) = >>=-eq-ok (only_input from.inputs) _ h2 in
    let (d, accepted, h4) = >>=-eq-ok (directory s destination) _ h3 in
    record {
      before = d;
      inputs = Dict.put d.inputs item.0 item.1;
      there = directory-eq-ok s destination accepted;
      after = ground arith;
    }

-- A run is loaded as before.
pub load-WithInputs :
    {s s' : Store} {at : String} (run_id : String) {r : AnalysisRun}
    → WithInputs s at s'
    → load s run_id ≡ ok r
    → load s' run_id ≡ ok r
unfolding load directory
load-WithInputs {s} {s'} {at} run_id w h =
    let (d, e, m, i) = load-eq-ok s run_id h in
    ground (
      arith,
      w.there,
      w.after,
      eq_iff at run_id,
      eq_iff d.manifest.run_id run_id,
      Dict.get-put s at (record w.before { inputs = w.inputs }) run_id,
    )
