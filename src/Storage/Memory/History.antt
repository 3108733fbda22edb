-- ===== src/Storage/Memory/History.antt =====
-- Histories of the objects of v2/src/footballai_v2/storage/object_storage/memory.py: any calls, in any order.
use football_ai.Prelude.{
  ◌≡◌, refl, sym, ap, subst, false, Option, none, some, is_some, String, ◌⊎◌, inl, inr, length,
  if_both,
}
use football_ai.Prelude.Result.{ok, err, ok_eq, >>=-eq-ok, raise_if-bind-eq-ok}
use football_ai.Prelude.Dict
use football_ai.Prelude.Dict.{All-put, All-get}
use football_ai.Storage.Local.Directory.{Bytes}
use football_ai.Storage.Keys.{Reply, artifact_object_key, input_object_key}
use football_ai.Storage.Memory.{
  write_artifact, put_artifact, put_input, copy_input, stored_artifact, stored_input, suffix_of,
}
use football_ai.Storage.Memory.Lookup.{StoredObject, Objects, Artifact, input_object}

-- A new object at a key that had none.
pub record IsAdded (digest : Bytes → String) (d d' : Objects) : Type 0 where
  pub key : String
  pub object : StoredObject
  pub was_free : Dict.get d key ≡ none
  pub digest_is : object.sha256 ≡ digest object.data_bytes
  pub size_is : object.size_bytes ≡ length object.data_bytes
  pub added : d' ≡ Dict.put d key object

pub is_some-none {ℓ} : {A : Type ℓ} (o : Option A) → is_some o ≡ false → o ≡ none
is_some-none none h = refl
is_some-none (some a) h = cc

module _ (digest : Bytes → String) where
  -- One call. A call that raises changes nothing, but for `write_artifact`.
  pub data Step (d d' : Objects) : Type 0 where
    written :
        (run_id : String) (a : Artifact) → (write_artifact digest d run_id a).1 ≡ d' → Step d d'
    input_put :
        (run_id : String) (content : Bytes) (extension t key : String)
        → put_input digest d run_id content extension t ≡ ok (key, d')
        → Step d d'
    input_copied :
        (source destination : String) → copy_input digest d source destination ≡ ok d' → Step d d'

  pub data History (d : Objects) : Objects → Type 0 where
    here : History d d
    next : {t u : Objects} → History d t → Step t u → History d u

  put_artifact-cases :
      (d : Objects) (a : Artifact) (key : Reply String)
      → ((put_artifact digest d a key).1 ≡ d) ⊎ IsAdded digest d (put_artifact digest d a key).1
  put_artifact-cases d a (err e) = inl refl
  put_artifact-cases d a (ok key) =
      if_both (λ (x : Reply _ × Objects). (x.1 ≡ d) ⊎ IsAdded digest d x.1)
        (is_some (Dict.get d key)) (λ _. inl refl)
        (λ e. inr (record {
          key = key;
          object = stored_artifact digest a;
          was_free = is_some-none (Dict.get d key) e;
          digest_is = refl;
          size_is = refl;
          added = refl;
        }))

  pub put_input-IsAdded :
      (d d' : Objects) (run_id : String) (content : Bytes) (extension t key : String)
      → put_input digest d run_id content extension t ≡ ok (key, d')
      → IsAdded digest d d'
  unfolding put_input
  put_input-IsAdded d d' run_id content extension t key h =
      let (k, keyed, stores) = >>=-eq-ok (input_object_key run_id extension) _ h in
      let (free, done) = raise_if-bind-eq-ok (is_some (Dict.get d k)) _ _ stores in
      record {
        key = k;
        object = stored_input digest content t;
        was_free = is_some-none (Dict.get d k) free;
        digest_is = refl;
        size_is = refl;
        added = sym (ap (λ x. x.1) (ok_eq done));
      }

  pub Step-cases : {d d' : Objects} → Step d d' → (d' ≡ d) ⊎ IsAdded digest d d'
  unfolding write_artifact copy_input
  Step-cases {d} (written run_id a e) =
      subst (λ x. (x ≡ d) ⊎ IsAdded digest d x) e
        (put_artifact-cases d a (artifact_object_key run_id a.relative_path))
  Step-cases {d} {d'} (input_put run_id content extension t key e) =
      inr (put_input-IsAdded d d' run_id content extension t key e)
  Step-cases {d} {d'} (input_copied source destination e) =
      let (x, found, puts) = >>=-eq-ok (input_object d source) _ e in
      let (r, done, same) =
        >>=-eq-ok (put_input digest d destination x.1.data_bytes (suffix_of x.0) x.1.content_type) _
          puts in
      inr (
        subst (IsAdded digest d) (ok_eq same) (
          put_input-IsAdded d r.1 destination x.1.data_bytes (suffix_of x.0) x.1.content_type r.0
            done))
