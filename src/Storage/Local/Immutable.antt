-- ===== src/Storage/Local/Immutable.antt =====
-- What no sequence of calls of v2/src/footballai_v2/storage/local_analysis_runs.py can undo.
use football_ai.Prelude.{
  [], some_eq, ◌⊎◌, inl, inr, eq_iff, ◌≡◌, refl, sym, ◌∙◌, subst, ap, String, true, false, some,
  arith, Option,
}
use football_ai.Prelude.Result.{ok, >>=-eq-ok}
use football_ai.Prelude.Dict
use football_ai.Run.Status.{is_terminal}
use football_ai.Run.Text.Identifiers.{is_uuid_v4}
use football_ai.Run.Record.{AnalysisRun}
use football_ai.Storage.Local.{create, save}
use football_ai.Storage.Local.Directory.{Bytes, Store, RunDirectory, directory, load}
use football_ai.Storage.Local.Inversion.{Replaces, load-eq-ok, save-eq-ok}
use football_ai.Storage.Local.Changes.{
  Change, unchanged, fresh, replaced, marked, input_added, file_added, Step-Change,
}
use football_ai.Storage.Local.History.{History, here, next}
use football_ai.Storage.Lifecycle.Provenance.{
  SameProvenance, SameProvenance-refl, SameProvenance-trans, same_of_provenance_differs,
}

-- The directory `o` holds a manifest that satisfies `P`.
abbrev Holds : (RunDirectory → Type 0) → Option RunDirectory → Type 0
Holds P o = (d : RunDirectory) × (o ≡ some d) × P d

module _ (sha256 : Bytes → String) (key : String) where
  -- No call removes a directory.
  persists :
      {o o' : Option RunDirectory} (d : RunDirectory)
      → Change sha256 key o o'
      → o ≡ some d
      → (d' : RunDirectory) × (o' ≡ some d')
  persists d (unchanged e) p = (d, e ∙ p)
  persists d (fresh run absent _ _ e) p = (d, cc)
  persists d (replaced d₀ run _ _ e) p = (record d₀ { manifest = run }, e)
  persists d (marked d₀ _ e) p = (record d₀ { cancel_marker = true }, e)
  persists d (input_added d₀ inputs _ e) p = (record d₀ { inputs = inputs }, e)
  persists d (file_added d₀ path content _ _ _ e) p =
      (record d₀ { files = Dict.put d₀.files path content }, e)

module _ (sha256 : Bytes → String) (key : String) (P : RunDirectory → Type 0)
    (keep : (d d' : RunDirectory) → Change sha256 key (some d) (some d') → P d → P d') where
  Change-Holds : (o o' : Option RunDirectory) → Change sha256 key o o' → Holds P o → Holds P o'
  Change-Holds o o' c (d, e, p) =
      let (d', e') = persists sha256 key d c e in
      (
        d',
        e',
        keep d d'
            (subst (λ x. Change sha256 key (some d) x) e' (subst (λ x. Change sha256 key x o') e c))
            p,
      )

  History-Holds :
      {s s' : Store} → History sha256 s s' → Holds P (Dict.get s key) → Holds P (Dict.get s' key)
  History-Holds here h = h
  History-Holds (next {t = t} {u = u} past step) h =
      Change-Holds (Dict.get t key) (Dict.get u key) (Step-Change sha256 t u step key)
        (History-Holds past h)

module _ (sha256 : Bytes → String) (key : String) where
  -- A manifest is left alone, or replaced by `save`.
  manifest_cases :
      (d d' : RunDirectory)
      → Change sha256 key (some d) (some d')
      → (d'.manifest ≡ d.manifest) ⊎ Replaces sha256 d d'.manifest
  manifest_cases d d' (unchanged e) = inl (ap (λ x. x.manifest) (some_eq e))
  manifest_cases d d' (fresh run absent _ _ e) = absurd (ground arith)
  manifest_cases d d' (replaced d₀ run e tested e') = inr (
      subst (λ x. Replaces sha256 x d'.manifest) (sym (some_eq e))
        (subst (λ x. Replaces sha256 d₀ x.manifest) (sym (some_eq e')) tested))
  manifest_cases d d' (marked d₀ e e') = inl (ground arith)
  manifest_cases d d' (input_added d₀ inputs e e') = inl (ground arith)
  manifest_cases d d' (file_added d₀ path content e _ _ e') = inl (ground arith)

  -- A terminal manifest is never replaced.
  terminal_keep :
      (r : AnalysisRun) (t : is_terminal r.status ≡ true) (d d' : RunDirectory)
      → Change sha256 key (some d) (some d')
      → d.manifest ≡ r
      → d'.manifest ≡ r
  terminal_keep r t d d' c p = elim (manifest_cases d d' c) [
    | inl same ↦ same ∙ p
    | inr tested ↦
        let active : is_terminal r.status ≡ false =
          subst (λ x. is_terminal x.status ≡ false) p tested.active in
        absurd (ground arith)
  ]

  provenance_keep :
      (r : AnalysisRun) (d d' : RunDirectory)
      → Change sha256 key (some d) (some d')
      → SameProvenance r d.manifest
      → SameProvenance r d'.manifest
  provenance_keep r d d' c p = elim (manifest_cases d d' c) [
    | inl same ↦ subst (SameProvenance r) (sym same) p
    | inr tested ↦
        SameProvenance-trans p (same_of_provenance_differs d.manifest d'.manifest tested.provenance)
  ]

pub load_uuid :
    (s : Store) (run_id : String) {r : AnalysisRun}
    → load s run_id ≡ ok r
    → is_uuid_v4 run_id ≡ true
unfolding load directory
load_uuid s run_id h = ground arith

-- What `load` returns after any further calls is read off the directory.
load_stored :
    (s : Store) (run_id : String) (d : RunDirectory)
    → is_uuid_v4 run_id ≡ true
    → Dict.get s run_id ≡ some d
    → d.manifest.run_id ≡ run_id
    → load s run_id ≡ ok d.manifest
unfolding load directory
load_stored s run_id d u e i = ground (arith, eq_iff d.manifest.run_id run_id)

-- What was saved is loaded.
pub save-load :
    (sha256 : Bytes → String) (s : Store) (run : AnalysisRun) {s' : Store}
    → save sha256 s run ≡ ok s'
    → load s' run.run_id ≡ ok run
unfolding save
save-load sha256 s run {s'} h =
    let (d, e, put, tested) = save-eq-ok sha256 s run h in
    let (first, loaded, rest) = >>=-eq-ok (load s run.run_id) _ h in
    let stored : Dict.get s' run.run_id ≡ some (record d { manifest = run }) = ground (
      arith,
      put,
      Dict.get-put s run.run_id (record d { manifest = run }) run.run_id,
      eq_iff run.run_id run.run_id,
    ) in
    load_stored s' run.run_id (record d { manifest = run }) (load_uuid s run.run_id loaded) stored
      refl

-- A run that is created is loaded.
pub create-load :
    (s : Store) (run : AnalysisRun) {s' : Store}
    → create s run ≡ ok s'
    → load s' run.run_id ≡ ok run
unfolding create load directory
create-load s run {s'} h = ground (
  arith,
  eq_iff run.run_id run.run_id,
  Dict.get-put s run.run_id
      (record { manifest = run; cancel_marker = false; inputs = []; files = [] }) run.run_id,
)

-- A run that is loaded in a terminal state is loaded, equal in every field, after any further calls.
pub load-terminal :
    (sha256 : Bytes → String) (s s' : Store) (run_id : String) (r : AnalysisRun)
    → load s run_id ≡ ok r
    → is_terminal r.status ≡ true
    → History sha256 s s'
    → load s' run_id ≡ ok r
load-terminal sha256 s s' run_id r h t past =
    let (d, e, m, i) = load-eq-ok s run_id h in
    let (d', e', m') =
      History-Holds sha256 run_id (λ d. d.manifest ≡ r) (terminal_keep sha256 run_id r t) past
        (d, e, m) in
    let loaded = load_stored s' run_id d' (load_uuid s run_id h) e' (ap (λ x. x.run_id) m' ∙ i) in
    loaded ∙ ap ok m'

-- A run that can be loaded can be loaded after any further calls, with the same identity and
-- provenance: contract version, ids, attempt number, predecessor, origin, input, code, pipeline
-- version, parameters, models and creation time.
pub load-SameProvenance :
    (sha256 : Bytes → String) (s s' : Store) (run_id : String) (r : AnalysisRun)
    → load s run_id ≡ ok r
    → History sha256 s s'
    → (r' : AnalysisRun) × (load s' run_id ≡ ok r') × SameProvenance r r'
load-SameProvenance sha256 s s' run_id r h past =
    let (d, e, m, i) = load-eq-ok s run_id h in
    let (d', e', p) =
      History-Holds sha256 run_id (λ d. SameProvenance r d.manifest)
        (provenance_keep sha256 run_id r) past
        (d, e, subst (SameProvenance r) (sym m) (SameProvenance-refl r)) in
    (d'.manifest, load_stored s' run_id d' (load_uuid s run_id h) e' (sym p.run_id ∙ i), p)
