-- ===== src/Storage/Memory/WriteOnce.antt =====
-- Reads after writes in v2/src/footballai_v2/storage/object_storage/memory.py.
use Prim.Native.Char.{code}
use Prim.Native.String.{◌++◌ as append}
use text.Mathlib.TextLemmas.{nil-append, cons-append}
use football_ai.Prelude.{
  ℕ, ◌≡◌, ◌≤◌, refl, sym, ap, ◌∙◌, subst, Bool, true, false, none, some, is_some, String, List, [],
  ◌∷◌, ◌++◌, inl, inr, All, length, str_eq, eq_iff, arith, if-eq, if_both, ◌==◌, ltb,
}
use football_ai.Prelude.Result.{ok, err, ok_eq, >>=-eq-ok, >>-eq-ok}
use football_ai.Prelude.Dict
use football_ai.Prelude.Dict.{get-put, All-put, All-get}
use football_ai.Run.Text.{after}
use football_ai.Run.Text.Identifiers.{codes}
use football_ai.Run.Record.{ArtifactReference}
use football_ai.Run.Checks.{Checked}
use football_ai.Run.Validate.Parts.{checked_artifact, validate_artifact}
use football_ai.Storage.Local.Directory.{Bytes}
use football_ai.Storage.Keys.{
  Reply, object_not_found, object_already_exists, starts_with, run_prefix, artifact_object_key,
  checked_path,
}
use football_ai.Storage.Memory.{
  write_artifact, read_artifact_bytes, put_artifact, stored_artifact, is_intact,
  artifact_reference_integrity, reference_of,
}
use football_ai.Storage.Memory.Lookup.{
  StoredObject, Objects, Artifact, find_object, resolve_artifact, is_artifact_at, from_contract,
}
use football_ai.Storage.Memory.History.{
  is_some-none, IsAdded, Step, Step-cases, History, here, next,
}

-- The size and the digest of an object are those of its bytes.
abbrev pub IsGenuine : (Bytes → String) → StoredObject → Type 0
IsGenuine digest o = (o.sha256 ≡ digest o.data_bytes) × (o.size_bytes ≡ length o.data_bytes)

find_object-put :
    (p : String × StoredObject → Bool) (d : Objects) (key : String) (o : StoredObject)
    {x : String × StoredObject}
    → Dict.get d key ≡ none
    → find_object p d ≡ ok x
    → find_object p (Dict.put d key o) ≡ ok x
unfolding find_object Dict.get Dict.put
find_object-put p [] key o free h = cc
find_object-put p ((j, w) ∷ d) key o free h =
    elim (if-eq (str_eq j key) (some w) (Dict.get d key) free) [
      | inl (e, f) ↦ cc
      | inr (e, f) ↦ rw e (elim (if-eq (p (j, w)) (ok (j, w)) (find_object p d) h) [
        | inl (g, k) ↦ rw g k
        | inr (g, k) ↦ rw g (find_object-put p d key o f k)
      ])
    ]

find_object-new :
    (p : String × StoredObject → Bool) (d : Objects) (key : String) (o : StoredObject)
    → Dict.get d key ≡ none
    → find_object p d ≡ err object_not_found
    → p (key, o) ≡ true
    → find_object p (Dict.put d key o) ≡ ok (key, o)
unfolding find_object Dict.get Dict.put
find_object-new p [] key o free h is = rw is refl
find_object-new p ((j, w) ∷ d) key o free h is =
    elim (if-eq (str_eq j key) (some w) (Dict.get d key) free) [
      | inl (e, f) ↦ cc
      | inr (e, f) ↦ rw e (elim (if-eq (p (j, w)) (ok (j, w)) (find_object p d) h) [
        | inl (g, k) ↦ cc
        | inr (g, k) ↦ rw g (find_object-new p d key o f k is)
      ])
    ]

-- A prefix of both sides.
codes-append : (a b : String) → codes (append a b) ≡ codes a ++ codes b
codes-append String.[] b = ap codes (nil-append b)
codes-append (String.◌∷◌ c a) b =
    ap codes (cons-append c a b) ∙ ap (λ cs. code c ∷ cs) (codes-append a b)

after-append : (xs ys zs : List ℕ) → is_some (after (xs ++ ys) (xs ++ zs)) ≡ is_some (after ys zs)
unfolding after
after-append [] ys zs = refl
after-append (x ∷ xs) ys zs = ground (arith, after-append xs ys zs)

starts_with-append : (a b c : String) → starts_with (append a b) (append a c) ≡ starts_with b c
starts_with-append a b c =
    rw (codes-append a b, codes-append a c) (after-append (codes a) (codes b) (codes c))

module _ (digest : Bytes → String) where
  IsAdded-get :
      {d d' : Objects} (key : String) (o : StoredObject)
      → Dict.get d key ≡ some o
      → IsAdded digest d d'
      → Dict.get d' key ≡ some o
  IsAdded-get {d} key o h a =
      ap (λ x. Dict.get x key) a.added
      ∙ get-put d a.key a.object key
      ∙ if_both (λ x. x ≡ some o) (str_eq a.key key)
          (λ e. absurd (differ (sym a.was_free ∙ ap (Dict.get d) ((eq_iff a.key key).0 e) ∙ h)))
          (λ _. h)
    where
      differ : none ≡ some o → ⊥
      differ e = cc

  Step-get :
      {d d' : Objects} (key : String) (o : StoredObject)
      → Dict.get d key ≡ some o
      → Step digest d d'
      → Dict.get d' key ≡ some o
  Step-get key o h s = elim (Step-cases digest s) [
    | inl e ↦ ap (λ x. Dict.get x key) e ∙ h
    | inr a ↦ IsAdded-get key o h a
  ]

  -- An object stays as it was written, whatever calls follow.
  pub History-get :
      (d d' : Objects) (key : String) (o : StoredObject)
      → History digest d d'
      → Dict.get d key ≡ some o
      → Dict.get d' key ≡ some o
  History-get d d' key o here h = h
  History-get d d' key o (next {t} past s) h = Step-get key o (History-get d t key o past h) s

  History-find_object :
      {d d' : Objects} (p : String × StoredObject → Bool) (x : String × StoredObject)
      → find_object p d ≡ ok x
      → History digest d d'
      → find_object p d' ≡ ok x
  History-find_object p x h here = h
  History-find_object p x h (next {t} past s) = elim (Step-cases digest s) [
    | inl e ↦ ap (find_object p) e ∙ History-find_object p x h past
    | inr a ↦
        ap (find_object p) a.added
        ∙ find_object-put p t a.key a.object a.was_free (History-find_object p x h past)
  ]

  History-All :
      {d d' : Objects}
      → All (λ x. IsGenuine digest x.1) d
      → History digest d d'
      → All (λ x. IsGenuine digest x.1) d'
  History-All h here = h
  History-All h (next {t} past s) = elim (Step-cases digest s) [
    | inl e ↦ subst (All (λ x. IsGenuine digest x.1)) (sym e) (History-All h past)
    | inr a ↦ subst (All (λ x. IsGenuine digest x.1)) (sym a.added) (
        All-put (λ x. IsGenuine digest x.1) t a.key a.object (History-All h past)
          (a.digest_is, a.size_is))
  ]

  IsGenuine-is_intact : (o : StoredObject) → IsGenuine digest o → is_intact digest o ≡ true
  IsGenuine-is_intact o h = ground (arith, h.0, h.1, eq_iff (digest o.data_bytes) o.sha256)

  -- What a write that returns a reference did.
  record IsWritten (d d' : Objects) (run_id : String) (a : Artifact) (ref : ArtifactReference)
      : Type 0 where
    prefix : String
    prefix_is : run_prefix run_id ≡ ok prefix
    was_free : Dict.get d (append prefix a.relative_path) ≡ none
    stored : d' ≡ Dict.put d (append prefix a.relative_path) (stored_artifact digest a)
    ref_is : ref ≡ reference_of digest a

  put_artifact-eq-ok :
      (d d' : Objects) (a : Artifact) (key : Reply String) (ref : ArtifactReference)
      → put_artifact digest d a key ≡ (ok ref, d')
      → (k : String) × (key ≡ ok k)
        × (Dict.get d k ≡ none)
        × (d' ≡ Dict.put d k (stored_artifact digest a))
        × (from_contract (checked_artifact (reference_of digest a)) ≡ ok ref)
  put_artifact-eq-ok d d' a (err e) ref h = absurd (differ (ap (λ x. x.0) h))
    where
      differ : ◌≡◌ {A = Reply ArtifactReference} (err e) (ok ref) → ⊥
      differ k = cc
  put_artifact-eq-ok d d' a (ok k) ref h = elim (if-eq (is_some (Dict.get d k)) _ _ h) [
    | inl (e, f) ↦ absurd (differ (ap (λ x. x.0) f))
    | inr (e, f) ↦ (k, refl, is_some-none (Dict.get d k) e, sym (ap (λ x. x.1) f), ap (λ x. x.0) f)
  ]
    where
      differ : ◌≡◌ {A = Reply ArtifactReference} (err object_already_exists) (ok ref) → ⊥
      differ k = cc

  from_contract-eq-ok : {A : Type 0} (r : Checked A) (a : A) → from_contract r ≡ ok a → r ≡ ok a
  from_contract-eq-ok (ok b) a h = ap ok (ok_eq h)
  from_contract-eq-ok (err v) a h = cc

  write_artifact-IsWritten :
      (d d' : Objects) (run_id : String) (a : Artifact) (ref : ArtifactReference)
      → write_artifact digest d run_id a ≡ (ok ref, d')
      → IsWritten d d' run_id a ref
  unfolding write_artifact artifact_object_key checked_artifact
  write_artifact-IsWritten d d' run_id a ref h =
      let (k, keyed, free, stores, checks) = put_artifact-eq-ok d d' a _ ref h in
      let (_, prefixed) = >>-eq-ok (checked_path a.relative_path) _ keyed in
      let (prefix, is, joined) = >>=-eq-ok (run_prefix run_id) _ prefixed in
      let (_, same) =
        >>-eq-ok (validate_artifact (reference_of digest a)) _ (from_contract-eq-ok _ ref checks) in
      record {
        prefix = prefix;
        prefix_is = is;
        was_free = ap (Dict.get d) (ok_eq joined) ∙ free;
        stored = stores ∙ ap (λ x. Dict.put d x (stored_artifact digest a)) (sym (ok_eq joined));
        ref_is = sym (ok_eq same);
      }

  resolve_artifact-find_object :
      (d : Objects) (run_id i prefix : String)
      → run_prefix run_id ≡ ok prefix
      → resolve_artifact d run_id i ≡ find_object (is_artifact_at (append prefix "artifacts/") i) d
  unfolding resolve_artifact
  resolve_artifact-find_object d run_id i prefix h = rw h refl

  IsWritten-found :
      {d d' d'' : Objects} {run_id : String} {a : Artifact} {ref : ArtifactReference}
      → resolve_artifact d run_id a.artifact_id ≡ err object_not_found
      → starts_with "artifacts/" a.relative_path ≡ true
      → (w : IsWritten d d' run_id a ref) → History digest d' d''
      → resolve_artifact d'' run_id a.artifact_id
        ≡ ok (append w.prefix a.relative_path, stored_artifact digest a)
  IsWritten-found {d} {d'} {d''} {run_id} {a} absent below w past =
      let p = is_artifact_at (append w.prefix "artifacts/") a.artifact_id in
      let x : String × StoredObject = (append w.prefix a.relative_path, stored_artifact digest a) in
      let fits : p x ≡ true =
        rw (starts_with-append w.prefix "artifacts/" a.relative_path, below)
          ((eq_iff a.artifact_id a.artifact_id).1 refl) in
      let found : find_object p d' ≡ ok x =
        ap (find_object p) w.stored
        ∙ find_object-new p d (append w.prefix a.relative_path) (stored_artifact digest a)
            w.was_free
            (sym (resolve_artifact-find_object d run_id a.artifact_id w.prefix w.prefix_is)
              ∙ absent)
            fits in
      resolve_artifact-find_object d'' run_id a.artifact_id w.prefix w.prefix_is
      ∙ History-find_object p x found past

  read_found :
      (d : Objects) (run_id i : String) (max_bytes : ℕ) (x : String × StoredObject)
      → resolve_artifact d run_id i ≡ ok x
      → 1 ≤ max_bytes
      → x.1.size_bytes ≤ max_bytes
      → is_intact digest x.1 ≡ true
      → read_artifact_bytes digest d run_id i max_bytes ≡ ok x.1.data_bytes
  unfolding read_artifact_bytes
  read_found d run_id i max_bytes x found positive fits intact =
      rw (not_zero, found, not_more, intact) refl
    where
      not_zero : (max_bytes == 0) ≡ false
      not_zero = ground (arith, positive)

      not_more : ltb max_bytes x.1.size_bytes ≡ false
      not_more = ground (arith, fits)

  -- An artifact that is written under a path below artifacts/, with an id that no artifact of the run has,
  -- is read back with the bytes that were written, whatever calls follow, if the limit of the read admits
  -- its size; and its reference passes the integrity check.
  pub write_artifact-read_artifact_bytes :
      (d d' d'' : Objects) (run_id : String) (a : Artifact) (ref : ArtifactReference)
      (max_bytes : ℕ)
      → resolve_artifact d run_id a.artifact_id ≡ err object_not_found
      → starts_with "artifacts/" a.relative_path ≡ true
      → write_artifact digest d run_id a ≡ (ok ref, d')
      → History digest d' d''
      → 1 ≤ max_bytes
      → length a.content ≤ max_bytes
      → (read_artifact_bytes digest d'' run_id a.artifact_id max_bytes ≡ ok a.content)
        × (artifact_reference_integrity digest d'' run_id ref ≡ ok true)
  unfolding artifact_reference_integrity
  write_artifact-read_artifact_bytes d d' d'' run_id a ref max_bytes absent below h past positive
        fits =
      let w = write_artifact-IsWritten d d' run_id a ref h in
      let found = IsWritten-found absent below w past in
      let intact = IsGenuine-is_intact (stored_artifact digest a) (refl, refl) in
      (
        read_found d'' run_id a.artifact_id max_bytes _ found positive fits intact,
        ap (artifact_reference_integrity digest d'' run_id) w.ref_is ∙ rw found (ap ok intact),
      )

  find_object-All :
      (p : String × StoredObject → Bool) (d : Objects) {x : String × StoredObject}
      → All (λ y. IsGenuine digest y.1) d
      → find_object p d ≡ ok x
      → IsGenuine digest x.1
  unfolding find_object
  find_object-All p [] h e = cc
  find_object-All p (y ∷ d) h e = elim (if-eq (p y) (ok y) (find_object p d) e) [
    | inl (f, g) ↦ subst (λ z. IsGenuine digest z.1) (ok_eq g) h.0
    | inr (f, g) ↦ find_object-All p d h.1 g
  ]

  -- In a storage that calls have built up from the empty one, every artifact that is found is returned
  -- with its own bytes, if the limit of the read admits its size: no read fails the integrity check.
  pub read_artifact_bytes-found :
      (d : Objects) (run_id artifact_id : String) (max_bytes : ℕ) (x : String × StoredObject)
      → History digest [] d
      → resolve_artifact d run_id artifact_id ≡ ok x
      → 1 ≤ max_bytes
      → x.1.size_bytes ≤ max_bytes
      → read_artifact_bytes digest d run_id artifact_id max_bytes ≡ ok x.1.data_bytes
  unfolding resolve_artifact
  read_artifact_bytes-found d run_id i max_bytes x past found positive fits =
      let (prefix, is, finds) = >>=-eq-ok (run_prefix run_id) _ found in
      let genuine = find_object-All _ d (History-All tt past) finds in
      read_found d run_id i max_bytes x found positive fits (IsGenuine-is_intact x.1 genuine)
