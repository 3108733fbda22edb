-- ===== src/Identity/Corrections.antt =====
-- v2/src/footballai_v2/execution/ai2c/corrections.py: the append-only log of human corrections.
pub mod Timestamp
pub mod Revocation
pub mod Exclusions
pub mod Consistency
use football_ai.Prelude.{
  ℕ, ◌+◌, String, Bool, true, false, not, ◌&&◌, ◌||◌, Option, none, some, List, [], ◌∷◌, ◌++◌,
  length, any, all, is_empty, is_some, leb, ltb, ◌==◌, if◌then◌else◌,
}
use football_ai.Prelude.Result.{Result, ok, err, raise_if, ◌>>◌, ◌>>=◌}
use football_ai.Run.Text.Identifiers.{non_empty, is_sha256}
use football_ai.Identity.Corrections.Timestamp.{is_reviewer, is_timestamp}
use text.Mathlib.Text.{◌==◌ as str_eq}

abbrev pub TrackletId : Type 0
TrackletId = ℕ

pub data CorrectionAction : Type 0 where
  must_link cannot_link exclude revoke : CorrectionAction

pub record CorrectionEntry : Type 0 where
  pub sequence : ℕ
  pub action : CorrectionAction
  pub tracklet_ids : List TrackletId
  pub reviewer : String
  pub reviewed_at : String
  pub reason : String
  pub revokes_sequence : Option ℕ

pub data CorrectionError : Type 0 where
  sequence_not_positive ids_not_distinct invalid_reviewer invalid_timestamp no_reason wrong_ids
        wrong_revocation invalid_schema invalid_checksum not_contiguous unknown_sequence
        revokes_a_revoke already_revoked links_and_separates links_an_excluded :
      CorrectionError

abbrev pub has : List ℕ → ℕ → Bool
has xs x = any (λ y. y == x) xs

abbrev all_different : List ℕ → Bool
all_different [] = true
all_different (x ∷ xs) = not (has xs x) && all_different xs

abbrev pub is_revoke : CorrectionAction → Bool
is_revoke revoke = true
is_revoke _ = false

abbrev pub is_must_link : CorrectionAction → Bool
is_must_link must_link = true
is_must_link _ = false

abbrev pub is_cannot_link : CorrectionAction → Bool
is_cannot_link cannot_link = true
is_cannot_link _ = false

abbrev pub is_exclude : CorrectionAction → Bool
is_exclude exclude = true
is_exclude _ = false

abbrev ids_fit : CorrectionAction → List TrackletId → Bool
ids_fit must_link ids = length ids == 2
ids_fit cannot_link ids = length ids == 2
ids_fit exclude ids = not (is_empty ids)
ids_fit revoke ids = is_empty ids

abbrev revocation_fits : CorrectionAction → ℕ → Option ℕ → Bool
revocation_fits revoke sequence none = false
revocation_fits revoke sequence (some target) = leb 1 target && ltb target sequence
revocation_fits _ sequence target = not (is_some target)

-- `CorrectionEntry.__post_init__`
unfoldable pub validate_entry : CorrectionEntry → Result CorrectionError (Unit {0})
validate_entry e =
    raise_if (not (leb 1 e.sequence)) sequence_not_positive
    >> (raise_if (not (all_different e.tracklet_ids)) ids_not_distinct
        >> (raise_if (not (is_reviewer e.reviewer)) invalid_reviewer
            >> (raise_if (not (is_timestamp e.reviewed_at)) invalid_timestamp
                >> (raise_if (not (non_empty e.reason)) no_reason
                    >> (raise_if (not (ids_fit e.action e.tracklet_ids)) wrong_ids
                        >> raise_if (not (revocation_fits e.action e.sequence e.revokes_sequence))
                            wrong_revocation)))))

pub record EffectiveCorrections : Type 0 where
  pub must_links : List (TrackletId × TrackletId × ℕ)
  pub cannot_links : List (TrackletId × TrackletId × ℕ)
  pub excluded : List (TrackletId × ℕ)

abbrev pub name_revoked : CorrectionAction → Option ℕ → List ℕ → List ℕ
name_revoked revoke (some s) rest = s ∷ rest
name_revoked _ _ rest = rest

-- The sequences that the revoke entries name.
unfoldable pub revoked_of : List CorrectionEntry → List ℕ
revoked_of [] = []
revoked_of (e ∷ es) = name_revoked e.action e.revokes_sequence (revoked_of es)

unfoldable pub filter {ℓ} : {A : Type ℓ} → (A → Bool) → List A → List A
filter p [] = []
filter p (x ∷ xs) = let rest = filter p xs in if p x then x ∷ rest else rest

abbrev pub is_live : List ℕ → CorrectionEntry → Bool
is_live revoked e = not (is_revoke e.action) && not (has revoked e.sequence)

unfoldable pub live : List CorrectionEntry → List CorrectionEntry
live entries = filter (is_live (revoked_of entries)) entries

-- `(*sorted(item.tracklet_ids), item.sequence)` of an entry of two ids.
abbrev link_of : List TrackletId → ℕ → List (TrackletId × TrackletId × ℕ)
link_of (a ∷ b ∷ []) s = (if leb a b then (a, b, s) else (b, a, s)) ∷ []
link_of _ s = []

unfoldable pub links_of :
    (CorrectionAction → Bool) → List CorrectionEntry → List (TrackletId × TrackletId × ℕ)
links_of p [] = []
links_of p (e ∷ es) =
    let rest = links_of p es in
    if p e.action then link_of e.tracklet_ids e.sequence ++ rest else rest

abbrev pub is_excluded : List (TrackletId × ℕ) → TrackletId → Bool
is_excluded m i = any (λ x. x.0 == i) m

-- `excluded.setdefault(identifier, item.sequence)` for each id of an entry.
set_defaults : List (TrackletId × ℕ) → List TrackletId → ℕ → List (TrackletId × ℕ)
set_defaults m [] s = m
set_defaults m (i ∷ is) s = set_defaults (if is_excluded m i then m else m ++ (i, s) ∷ []) is s

pub excluded_of : List (TrackletId × ℕ) → List CorrectionEntry → List (TrackletId × ℕ)
excluded_of m [] = m
excluded_of m (e ∷ es) =
    excluded_of (if is_exclude e.action then set_defaults m e.tracklet_ids e.sequence else m) es

-- `sorted(excluded.items())`: no id stands twice.
unfoldable pub insert : TrackletId × ℕ → List (TrackletId × ℕ) → List (TrackletId × ℕ)
insert x [] = x ∷ []
insert x (y ∷ ys) = if leb x.0 y.0 then x ∷ y ∷ ys else y ∷ insert x ys

unfoldable pub sorted : List (TrackletId × ℕ) → List (TrackletId × ℕ)
unfolding insert
sorted [] = []
sorted (x ∷ xs) = insert x (sorted xs)

abbrev pub same_pair : TrackletId × TrackletId × ℕ → TrackletId × TrackletId × ℕ → Bool
same_pair (a, b, s) (c, d, t) = (a == c) && (b == d)

-- `IdentityCorrections.effective`
unfoldable pub effective : List CorrectionEntry → Result CorrectionError EffectiveCorrections
unfolding excluded_of set_defaults sorted
effective entries =
    let must = links_of is_must_link (live entries) in
    let cannot = links_of is_cannot_link (live entries) in
    let excluded = excluded_of [] (live entries) in
    raise_if (any (λ m. any (same_pair m) cannot) must) links_and_separates
    >> (raise_if (any (λ m. is_excluded excluded m.0 || is_excluded excluded m.1) must)
          links_an_excluded
        >> ok (record { must_links = must; cannot_links = cannot; excluded = sorted excluded }))

contiguous : ℕ → List CorrectionEntry → Bool
contiguous n [] = true
contiguous n (e ∷ es) = (e.sequence == n) && contiguous (n + 1) es

find_entry : List CorrectionEntry → ℕ → Option CorrectionEntry
find_entry [] s = none
find_entry (e ∷ es) s = if e.sequence == s then some e else find_entry es s

-- The target of one revoke entry, if no other revoke entry names it before.
abbrev check_target : Option CorrectionEntry → (revoked : List ℕ) → Result CorrectionError (List ℕ)
check_target none revoked = err unknown_sequence
check_target (some target) revoked =
    raise_if (is_revoke target.action) revokes_a_revoke
    >> (raise_if (has revoked target.sequence) already_revoked >> ok (target.sequence ∷ revoked))

abbrev target_of : List CorrectionEntry → Option ℕ → Option CorrectionEntry
target_of all none = none
target_of all (some s) = find_entry all s

check_revocations :
    (all : List CorrectionEntry) → List ℕ → List CorrectionEntry → Result CorrectionError (List ℕ)
unfolding find_entry
check_revocations all revoked [] = ok revoked
check_revocations all revoked (e ∷ es) =
    (if is_revoke e.action
      then check_target (target_of all e.revokes_sequence) revoked
      else ok revoked)
    >>= λ r. check_revocations all r es

-- `IdentityCorrections.__post_init__`
unfoldable pub validate_corrections :
    (schema tracklets_sha256 : String) → List CorrectionEntry → Result CorrectionError (Unit {0})
unfolding contiguous check_revocations
validate_corrections schema tracklets_sha256 entries =
    raise_if (not (str_eq schema "footballai.identity-corrections/v1")) invalid_schema
    >> (raise_if (not (is_sha256 tracklets_sha256)) invalid_checksum
        >> (raise_if (not (contiguous 1 entries)) not_contiguous
            >> (check_revocations entries [] entries >>= λ revoked.
                (effective entries >>= λ e. ok tt))))
