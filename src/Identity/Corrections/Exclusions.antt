-- ===== src/Identity/Corrections/Exclusions.antt =====
-- The exclusions that `effective` collects and sorts, in
-- v2/src/footballai_v2/execution/ai2c/corrections.py, looked up by id.
use football_ai.Prelude.{
  ℕ, ◌≡◌, refl, ◌∙◌, ◌&&◌, Option, some, none, List, [], ◌∷◌, ◌++◌, ◌==◌, arith, is_some,
  if◌then◌else◌, Bool-cases, inl, inr, ==_iff,
}
use football_ai.Identity.IdMap.{get}
use football_ai.Identity.Corrections.{
  TrackletId, CorrectionEntry, sorted, insert, is_excluded, excluded_of, set_defaults, is_exclude,
  has,
}

-- The sequence of the first entry that excludes the id.
abbrev pub first_exclude : List CorrectionEntry → TrackletId → Option ℕ
first_exclude [] i = none
first_exclude (e ∷ es) i =
    let rest = first_exclude es i in
    if is_exclude e.action && has e.tracklet_ids i then some e.sequence else rest

abbrev either : Option ℕ → Option ℕ → Option ℕ
either (some s) o = some s
either none o = o

get-append :
    (m : List (TrackletId × ℕ)) (j s i : ℕ)
    → get (m ++ (j, s) ∷ []) i ≡ either (get m i) (if j == i then some s else none)
unfolding get
get-append [] j s i = refl
get-append (x ∷ m) j s i = ground (arith, get-append m j s i)

is_excluded-get : (m : List (TrackletId × ℕ)) (i : ℕ) → is_excluded m i ≡ is_some (get m i)
unfolding get
is_excluded-get [] i = refl
is_excluded-get (x ∷ m) i = ground (arith, is_excluded-get m i)

get-set_default :
    (m : List (TrackletId × ℕ)) (j s i : ℕ)
    → get (if is_excluded m j then m else m ++ (j, s) ∷ []) i
      ≡ either (get m i) (if j == i then some s else none)
get-set_default m j s i = elim (Bool-cases (j == i)) [
  | inl e ↦ ground (arith, is_excluded-get m i, get-append m j s i, (==_iff j i).0 e)
  | inr e ↦ ground (arith, is_excluded-get m j, get-append m j s i, e)
]

get-set_defaults :
    (m : List (TrackletId × ℕ)) (ids : List TrackletId) (s i : ℕ)
    → get (set_defaults m ids s) i ≡ either (get m i) (if has ids i then some s else none)
unfolding set_defaults
get-set_defaults m [] s i = ground arith
get-set_defaults m (j ∷ ids) s i =
    get-set_defaults (if is_excluded m j then m else m ++ (j, s) ∷ []) ids s i
    ∙ rw (get-set_default m j s i) (ground arith)

pub get-excluded_of :
    (m : List (TrackletId × ℕ)) (es : List CorrectionEntry) (i : ℕ)
    → get (excluded_of m es) i ≡ either (get m i) (first_exclude es i)
unfolding excluded_of
get-excluded_of m [] i = ground arith
get-excluded_of m (e ∷ es) i = elim (Bool-cases (is_exclude e.action)) [
  | inl h ↦ rw h (
      get-excluded_of (set_defaults m e.tracklet_ids e.sequence) es i
      ∙ rw (get-set_defaults m e.tracklet_ids e.sequence i) (ground arith))
  | inr h ↦ rw h (get-excluded_of m es i)
]

get-insert :
    (x : TrackletId × ℕ) (m : List (TrackletId × ℕ)) (i : ℕ)
    → get (insert x m) i ≡ (if x.0 == i then some x.1 else get m i)
unfolding get insert
get-insert x [] i = ground arith
get-insert x (y ∷ m) i = ground (arith, get-insert x m i)

pub get-sorted : (m : List (TrackletId × ℕ)) (i : ℕ) → get (sorted m) i ≡ get m i
unfolding get sorted
get-sorted [] i = refl
get-sorted (x ∷ m) i = get-insert x (sorted m) i ∙ rw (get-sorted m i) (ground arith)

pub excluded_of-first_exclude :
    (es : List CorrectionEntry) (i : ℕ)
    → is_excluded (excluded_of [] es) i ≡ is_some (first_exclude es i)
unfolding get
excluded_of-first_exclude es i =
    is_excluded-get (excluded_of [] es) i ∙ rw (get-excluded_of [] es i) refl
