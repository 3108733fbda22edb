-- ===== src/Identity/Corrections/Consistency.antt =====
-- What `effective` promises, in v2/src/footballai_v2/execution/ai2c/corrections.py.
use football_ai.Prelude.{
  ℕ, ◌≡◌, refl, sym, ap, ◌∙◌, Bool, true, false, ◌||◌, ◌&&◌, List, [], ◌∷◌, ◌++◌, any, ◌==◌, leb,
  arith, is_some, if◌then◌else◌, Bool-cases, inl, inr,
}
use football_ai.Prelude.Result.{ok, raise_if-bind-eq-ok, ok_eq}
use football_ai.Identity.IdMap.{get}
use football_ai.Identity.Corrections.Exclusions.{
  first_exclude, get-excluded_of, get-sorted, excluded_of-first_exclude,
}
use football_ai.Identity.Corrections.{
  TrackletId, CorrectionAction, CorrectionEntry, EffectiveCorrections, effective, is_excluded,
  same_pair, live, links_of, link_of, excluded_of, is_must_link, is_cannot_link,
}

-- The entries name this pair, in either order, with such an action.
abbrev names : List TrackletId → (i j : TrackletId) → Bool
names (a ∷ b ∷ []) i j = (a == i && b == j) || (a == j && b == i)
names _ i j = false

abbrev pub decided : (CorrectionAction → Bool) → List CorrectionEntry → (i j : TrackletId) → Bool
decided p es i j = any (λ e. p e.action && names e.tracklet_ids i j) es

-- The key of a pair among the links.
abbrev pair_of : (i j : TrackletId) → TrackletId × TrackletId × ℕ
pair_of i j = if leb i j then (i, j, 0) else (j, i, 0)

any-append {ℓ} :
    {A : Type ℓ} (p : A → Bool) (xs ys : List A) → any p (xs ++ ys) ≡ (any p xs || any p ys)
any-append p [] ys = refl
any-append p (x ∷ xs) ys = ground (arith, any-append p xs ys)

any-link_of :
    (ids : List TrackletId) (s i j : ℕ)
    → any (same_pair (pair_of i j)) (link_of ids s) ≡ names ids i j
any-link_of [] s i j = refl
any-link_of (a ∷ []) s i j = refl
any-link_of (a ∷ b ∷ []) s i j = ground arith
any-link_of (a ∷ b ∷ c ∷ ids) s i j = refl

any-links_of :
    (p : CorrectionAction → Bool) (es : List CorrectionEntry) (i j : ℕ)
    → any (same_pair (pair_of i j)) (links_of p es) ≡ decided p es i j
unfolding links_of
any-links_of p [] i j = refl
any-links_of p (e ∷ es) i j = elim (Bool-cases (p e.action)) [
  | inl h ↦ rw h (
      any-append _ (link_of e.tracklet_ids e.sequence) (links_of p es)
      ∙ rw (any-link_of e.tracklet_ids e.sequence i j) (rw (any-links_of p es i j) refl))
  | inr h ↦ rw h (any-links_of p es i j)
]

any_ext {ℓ} :
    {A : Type ℓ} (p q : A → Bool) (xs : List A) → ((x : A) → p x ≡ q x) → any p xs ≡ any q xs
any_ext p q [] h = refl
any_ext p q (x ∷ xs) h = rw (h x) (rw (any_ext p q xs h) refl)

-- If no link passes a test, no link of a pair on which the test depends does.
none_passes :
    (test : TrackletId × TrackletId × ℕ → Bool) (k : TrackletId × TrackletId × ℕ)
    (ms : List (TrackletId × TrackletId × ℕ))
    → ((m : TrackletId × TrackletId × ℕ) → same_pair k m ≡ true → test m ≡ test k)
    → any test ms ≡ false
    → (any (same_pair k) ms && test k) ≡ false
none_passes test k [] same h = refl
none_passes test k (m ∷ ms) same h = elim (Bool-cases (same_pair k m)) [
  | inl e ↦ ground (arith, same m e, h)
  | inr e ↦ ground (arith, none_passes test k ms same, h, e)
]

same_ends :
    (ex : List (TrackletId × ℕ)) (k m : TrackletId × TrackletId × ℕ)
    → same_pair k m ≡ true
    → (is_excluded ex m.0 || is_excluded ex m.1) ≡ (is_excluded ex k.0 || is_excluded ex k.1)
same_ends ex k m h =
    let first : k.0 ≡ m.0 = ground arith in
    let second : k.1 ≡ m.1 = ground arith in rw first (rw second refl)

same_pair_trans :
    (k m z : TrackletId × TrackletId × ℕ) → same_pair k m ≡ true → same_pair m z ≡ same_pair k z
same_pair_trans k m z h = ground arith

exclusion-eq :
    (es : List CorrectionEntry) (i j : ℕ)
    → (is_excluded (excluded_of [] es) (pair_of i j).0
        || is_excluded (excluded_of [] es) (pair_of i j).1)
      ≡ (is_some (first_exclude es i) || is_some (first_exclude es j))
exclusion-eq es i j = elim (Bool-cases (leb i j)) [
  | inl e ↦ rw e (rw (excluded_of-first_exclude es i) (rw (excluded_of-first_exclude es j) refl))
  | inr e ↦
      rw e
        (rw (excluded_of-first_exclude es i) (rw (excluded_of-first_exclude es j) (ground arith)))
]

-- No pair of ids, in either order, is named by a live must-link and also by a live cannot-link, and
-- no id of a live must-link by a live exclude entry. The decisions returned are those of the live
-- entries: an id is excluded by the first live exclude entry that names it, and the links are those
-- of the live entries in their order.
pub effective-consistent :
    (entries : List CorrectionEntry) (e : EffectiveCorrections) (i j : TrackletId)
    → effective entries ≡ ok e
    → ((decided is_must_link (live entries) i j
          && (decided is_cannot_link (live entries) i j
              || (is_some (first_exclude (live entries) i)
                  || is_some (first_exclude (live entries) j))))
        ≡ false)
      × (get e.excluded i ≡ first_exclude (live entries) i)
      × (e.must_links ≡ links_of is_must_link (live entries))
      × (e.cannot_links ≡ links_of is_cannot_link (live entries))
unfolding effective get
effective-consistent entries e i j h =
    let (separate, rest) = raise_if-bind-eq-ok _ _ _ h in
    let (included, done) = raise_if-bind-eq-ok _ _ _ rest in
    let es = live entries in
    let apart =
      none_passes _ (pair_of i j) (links_of is_must_link es)
        (λ m q. any_ext _ _ (links_of is_cannot_link es) (λ z. same_pair_trans (pair_of i j) m z q))
        separate in
    let kept =
      none_passes _ (pair_of i j) (links_of is_must_link es)
        (λ m q. same_ends (excluded_of [] es) (pair_of i j) m q) included in
    (
      ground (
        arith,
        apart,
        kept,
        any-links_of is_must_link es i j,
        any-links_of is_cannot_link es i j,
        exclusion-eq es i j,
      ),
      ap (λ d. get d.excluded i) (sym (ok_eq done))
          ∙ get-sorted (excluded_of [] es) i
          ∙ get-excluded_of [] es i,
      ap (λ d. d.must_links) (sym (ok_eq done)),
      ap (λ d. d.cannot_links) (sym (ok_eq done)),
    )
