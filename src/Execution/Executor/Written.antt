-- ===== src/Execution/Executor/Written.antt =====
-- The ids of the artifacts that `AnalysisExecutor.execute` writes, in
-- v2/src/footballai_v2/execution/executor.py.
use football_ai.Prelude.{String, Option, some, List, [], ◌∷◌, ◌++◌, map, ◌≡◌, refl, sym, ap, ◌∙◌}
use football_ai.Prelude.Result.{ok, err, ok_eq, >>=-eq-ok}
use football_ai.Prelude.Action.{lift, lift->>=-eq-ok, >>=-returned}
use mathlib.Core.List.{append-nil, append_assoc}
use football_ai.Run.Status.{ArtifactCategory}
use football_ai.Run.Record.{ArtifactReference}
use football_ai.Run.Checks.{Checked}
use football_ai.Run.Validate.Parts.{checked_artifact, validate_artifact}
use football_ai.Storage.Local.{write_artifact, writable}
use football_ai.Storage.Local.Directory.{
  Bytes, Store, Reply, RunDirectory, from_contract as in_store,
}
use football_ai.Execution.Executor.World.{
  Payload, Payloads, document, generated, Host, World, current, storage_write, written,
}
use football_ai.Execution.Executor.Publication.{
  write_payload, write_payloads, write_summary_alias, write_advisory_alias,
}

checked-id : (x : ArtifactReference) {a : ArtifactReference} → checked_artifact x ≡ ok a → x ≡ a
unfolding checked_artifact
checked-id x h = let (u, valid, done) = >>=-eq-ok (validate_artifact x) _ h in ok_eq done

reference-eq-ok :
    (c : Checked ArtifactReference) {a : ArtifactReference} → in_store c ≡ ok a → c ≡ ok a
reference-eq-ok (ok a) h = ap ok (ok_eq h)
reference-eq-ok (err e) h = cc

-- What follows a test of the directory that admits it.
with_directory :
    (s : Store) (reply : Reply RunDirectory) (f : RunDirectory → Reply ArtifactReference × Store)
    {a : ArtifactReference}
    → (elim reply as (λ _. Reply ArtifactReference × Store) [ err e ↦ (err e, s) | ok d ↦ f d ]).0
      ≡ ok a
    → (d : RunDirectory) × ((f d).0 ≡ ok a)
with_directory s (ok d) f h = (d, h)
with_directory s (err e) f h = cc

-- The id under which an item of the payloads is published.
abbrev pub published_id : String × Payload → String
published_id (i, document _) = i
published_id (i, generated a) = a.artifact_id

abbrev pub ids : List ArtifactReference → List String
ids artifacts = map (λ a. a.artifact_id) artifacts

pub ids-append : (xs ys : List ArtifactReference) → ids (xs ++ ys) ≡ ids xs ++ ids ys
ids-append [] ys = refl
ids-append (x ∷ xs) ys = ap (λ l. x.artifact_id ∷ l) (ids-append xs ys)

module _ (host : Host) where
  written-eq-ok :
      (w v : World) (reply : Reply ArtifactReference × Store) {a : ArtifactReference}
      → written host w reply ≡ (ok a, v)
      → reply.0 ≡ ok a
  written-eq-ok w v (ok b, s) h = ap ok (ok_eq (ap (λ x. x.0) h))
  written-eq-ok w v (err e, s) h = cc

  write_artifact-id :
      (s : Store) (run_id artifact_id name : String) (category : ArtifactCategory) (path : String)
      (content : Bytes) (media_type : String) (schema : Option String) {a : ArtifactReference}
      → (write_artifact host.sha256 s run_id artifact_id name category path content media_type
          schema).0
        ≡ ok a
      → a.artifact_id ≡ artifact_id
  unfolding write_artifact
  write_artifact-id s run_id artifact_id name category path content media_type schema h =
      let (d, made) = with_directory s (writable s run_id path) _ h in
      sym (ap (λ x. x.artifact_id) (checked-id _ (reference-eq-ok _ made)))

  storage_write-id :
      (run_id artifact_id name : String) (category : ArtifactCategory) (path : String)
      (content : Bytes) (media_type : String) (schema : Option String) (w v : World)
      {a : ArtifactReference}
      → storage_write host run_id artifact_id name category path content media_type schema w
        ≡ (ok a, v)
      → a.artifact_id ≡ artifact_id
  unfolding storage_write
  storage_write-id run_id artifact_id name category path content media_type schema w v h =
      write_artifact-id (current host w).store run_id artifact_id name category path content
        media_type schema (written-eq-ok (current host w) v _ h)

  write_payload-id :
      (run_id i : String) (payload : Payload) (w v : World) {a : ArtifactReference}
      → write_payload host run_id i payload w ≡ (ok a, v)
      → a.artifact_id ≡ published_id (i, payload)
  unfolding write_payload
  write_payload-id run_id i (generated x) w v h =
      storage_write-id run_id x.artifact_id x.name x.category x.relative_path x.content x.media_type
        (some x.schema_version) w v h
  write_payload-id run_id i (document x) w v h =
      let (_, _, h₁) = lift->>=-eq-ok _ _ w h in
      let (_, _, h₂) = lift->>=-eq-ok _ _ w h₁ in
      let (_, _, h₃) = lift->>=-eq-ok _ _ w h₂ in storage_write-id run_id i _ _ _ _ _ _ w v h₃

  pub write_payloads-ids :
      (run_id : String) (payloads : Payloads) (before : List ArtifactReference) (w v : World)
      {artifacts : List ArtifactReference}
      → write_payloads host run_id payloads before w ≡ (ok artifacts, v)
      → ids artifacts ≡ ids before ++ map published_id payloads
  unfolding write_payloads lift
  write_payloads-ids run_id [] before w v h =
      ap ids (sym (ok_eq (ap (λ x. x.0) h))) ∙ sym (append-nil (ids before))
  write_payloads-ids run_id ((i, payload) ∷ payloads) before w v h =
      let (a, u, written_is, rest) = >>=-returned (write_payload host run_id i payload) _ w h in
      write_payloads-ids run_id payloads (before ++ a ∷ []) u v rest
      ∙ rw (ids-append before (a ∷ []))
          (rw (write_payload-id run_id i payload w u written_is) (append_assoc (ids before) _ _))

  pub write_summary_alias-id :
      (run_id : String) (payloads : Payloads) (w v : World) {a : ArtifactReference}
      → write_summary_alias host run_id payloads w ≡ (ok a, v)
      → a.artifact_id ≡ "legacy-player-summary"
  unfolding write_summary_alias
  write_summary_alias-id run_id payloads w v h =
      let (_, _, h₁) = lift->>=-eq-ok _ _ w h in
      let (_, _, h₂) = lift->>=-eq-ok _ _ w h₁ in
      let (_, _, h₃) = lift->>=-eq-ok _ _ w h₂ in
      storage_write-id run_id "legacy-player-summary" _ _ _ _ _ _ w v h₃

  pub write_advisory_alias-id :
      (run_id : String) (payloads : Payloads) (w v : World) {a : ArtifactReference}
      → write_advisory_alias host run_id payloads w ≡ (ok a, v)
      → a.artifact_id ≡ "dashboard-workload-advisory"
  unfolding write_advisory_alias
  write_advisory_alias-id run_id payloads w v h =
      let (_, _, h₁) = lift->>=-eq-ok _ _ w h in
      let (_, _, h₂) = lift->>=-eq-ok _ _ w h₁ in
      let (_, _, h₃) = lift->>=-eq-ok _ _ w h₂ in
      let (_, _, h₄) = lift->>=-eq-ok _ _ w h₃ in
      storage_write-id run_id "dashboard-workload-advisory" _ _ _ _ _ _ w v h₄
