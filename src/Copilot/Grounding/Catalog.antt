-- ===== src/Copilot/Grounding/Catalog.antt =====
-- Claims looked up by their ids, in v2/src/footballai_v2/copilot/grounding.py.
use football_ai.Prelude.{
  if_both, ◌≡◌, refl, ap, subst, Bool, true, Option, none, some, String, String-discrete, List, [],
  ◌∷◌, All, All-map, arith, same_refl, member,
}
use football_ai.Prelude.Result.{ok, ok_eq, >>=-eq-ok}
use football_ai.Prelude.Dict
use football_ai.Prelude.Dict.{All-put, All-get}
use football_ai.Copilot.Claims.{EvidenceClaim, EvidenceClaim-discrete}
use football_ai.Copilot.Grounding.{add_by_id, by_id, select, approved, keep}

abbrev pub IsIn : EvidenceClaim → List EvidenceClaim → Type 0
IsIn c cs = member EvidenceClaim-discrete c cs ≡ true

abbrev pub IsNamed : String → List String → Type 0
IsNamed i is = member String-discrete i is ≡ true

module _ {ℓ} {A : Type ℓ} (d : Discrete A) where
  pub member-here : (a : A) (xs : List A) → member d a (a ∷ xs) ≡ true
  member-here a xs = rw (same_refl d a) refl

  pub member-there : (a b : A) (xs : List A) → member d a xs ≡ true → member d a (b ∷ xs) ≡ true
  member-there a b xs h = ground (arith, h)

-- An entry of a dictionary of claims: the claim is one of the list, under its id.
abbrev pub IsEntry : List EvidenceClaim → String × EvidenceClaim → Type 0
IsEntry cs x = IsIn x.1 cs × (x.1.claim_id ≡ x.0)

pub add_by_id-IsEntry :
    (all : List EvidenceClaim) (d : Dict.Dict EvidenceClaim) (cs : List EvidenceClaim)
    → All (IsEntry all) d
    → All (λ c. IsIn c all) cs
    → All (IsEntry all) (add_by_id d cs)
unfolding add_by_id
add_by_id-IsEntry all d [] h k = h
add_by_id-IsEntry all d (c ∷ cs) h k =
    add_by_id-IsEntry all (Dict.put d c.claim_id c) cs
      (All-put (IsEntry all) d c.claim_id c h (k.0, refl)) k.1

pub All-IsIn : (cs : List EvidenceClaim) → All (λ c. IsIn c cs) cs
All-IsIn [] = tt
All-IsIn (c ∷ cs) = (
  member-here EvidenceClaim-discrete c cs,
  All-map cs (λ x. member-there EvidenceClaim-discrete x c cs) (All-IsIn cs),
)

pub by_id-IsEntry : (cs : List EvidenceClaim) → All (IsEntry cs) (by_id cs)
by_id-IsEntry cs = add_by_id-IsEntry cs [] cs tt (All-IsIn cs)

approved-eq-ok : (o : Option EvidenceClaim) {c : EvidenceClaim} → approved o ≡ ok c → o ≡ some c
approved-eq-ok (some c) h = ap some (ok_eq h)
approved-eq-ok none h = cc

-- What a selection holds: claims of the list, under their ids, which are all selected.
abbrev pub IsSelected : List EvidenceClaim → List String → String × EvidenceClaim → Type 0
IsSelected cs ids x = IsEntry cs x × IsNamed x.0 ids

select-IsSelected :
    (cs : List EvidenceClaim) (all rest : List String) (known d : Dict.Dict EvidenceClaim)
    {r : Dict.Dict EvidenceClaim}
    → All (IsEntry cs) known
    → All (λ i. IsNamed i all) rest
    → select known d rest ≡ ok r
    → All (IsSelected cs all) d
    → All (IsSelected cs all) r
unfolding select
select-IsSelected cs all [] known d k n h s = subst (All (IsSelected cs all)) (ok_eq h) s
select-IsSelected cs all (i ∷ rest) known d k n h s =
    let (c, found, others) = >>=-eq-ok (approved (Dict.get known i)) _ h in
    let entry = All-get (IsEntry cs) known i k (approved-eq-ok (Dict.get known i) found) in
    select-IsSelected cs all rest known (Dict.put d i c) k n.1 others
      (All-put (IsSelected cs all) d i c s (entry, n.0))

pub All-IsNamed : (is : List String) → All (λ i. IsNamed i is) is
All-IsNamed [] = tt
All-IsNamed (i ∷ is) = (
  member-here String-discrete i is,
  All-map is (λ x. member-there String-discrete x i is) (All-IsNamed is),
)

pub select-by_id-IsSelected :
    (cs : List EvidenceClaim) (ids : List String) {r : Dict.Dict EvidenceClaim}
    → select (by_id cs) [] ids ≡ ok r
    → All (IsSelected cs ids) r
select-by_id-IsSelected cs ids h =
    select-IsSelected cs ids ids (by_id cs) [] (by_id-IsEntry cs) (All-IsNamed ids) h tt

pub keep-All {ℓ} : {A : Type ℓ} (p : A → Bool) (xs : List A) → All (λ x. p x ≡ true) (keep p xs)
unfolding keep
keep-All p [] = tt
keep-All p (x ∷ xs) =
    if_both (All (λ y. p y ≡ true)) (p x) (λ e. (e, keep-All p xs)) (λ _. keep-All p xs)
