-- ===== src/Identity/Groups/Merges/Admission.antt =====
-- What the conflict test of v2/src/footballai_v2/execution/ai2c/resolver.py admits.
use football_ai.Prelude.{
  ℕ, ◌≡◌, refl, ap, ◌∙◌, subst, Bool, true, false, Option, none, some, List, [], ◌∷◌, arith, ◌==◌,
  ==_iff, inl, inr, Bool-cases,
}
use football_ai.Prelude.Result.{Result, ok, >>=-eq-ok, ok_eq, branch-eq-ok}
use football_ai.Identity.IdMap.{get}
use football_ai.Identity.Corrections.{has}
use football_ai.Identity.Constraints.{Constraints, Violation, LinkError, violation, lookup}
use football_ai.Identity.Groups.{Groups, find, against, first_violation, conflict}
use football_ai.Identity.Groups.Climbs.{Climbs}
use football_ai.Identity.Groups.Find.{Finds, find-Finds, lookup-eq-ok}
use football_ai.Identity.Groups.Union.{Across}

none_first :
    (v : Option Violation) (rest : Result LinkError (Option Violation))
    → (elim v as (λ _. Result LinkError (Option Violation)) [
      | some reason ↦ ok (some reason)
      | none ↦ rest
    ])
      ≡ ok none
    → (v ≡ none) × (rest ≡ ok none)
none_first none rest h = (refl, h)
none_first (some v) rest h = cc

against-none :
    (c : Constraints) (o : Bool) (x : ℕ) (ys : List ℕ) (y : ℕ)
    → against c o x ys ≡ ok none
    → has ys y ≡ true
    → violation c x y o ≡ ok none
unfolding against
against-none c o x [] y h hy = cc
against-none c o x (z ∷ ys) y h hy =
    let (v, found, rest) = >>=-eq-ok (violation c x z o) _ h in
    let (is_none, others) = none_first v (against c o x ys) rest in
    elim (Bool-cases (z == y)) [
      | inl e ↦ subst (λ w. violation c x w o ≡ ok none) ((==_iff z y).0 e) (found ∙ ap ok is_none)
      | inr e ↦ against-none c o x ys y others (ground (arith, e, hy))
    ]

first_violation-none :
    (c : Constraints) (o : Bool) (xs ys : List ℕ)
    → first_violation c o xs ys ≡ ok none
    → Across (λ x y. violation c x y o ≡ ok none) xs ys
unfolding first_violation
first_violation-none c o [] ys h x y hx hy = cc
first_violation-none c o (z ∷ xs) ys h x y hx hy =
    let (v, found, rest) = >>=-eq-ok (against c o z ys) _ h in
    let (is_none, others) = none_first v (first_violation c o xs ys) rest in
    elim (Bool-cases (z == x)) [
      | inl e ↦
          subst (λ w. violation c w y o ≡ ok none) ((==_iff z x).0 e)
            (against-none c o z ys y (found ∙ ap ok is_none) hy)
      | inr e ↦ first_violation-none c o xs ys others x y (ground (arith, e, hx)) hy
    ]

-- What a test that admits the merge of two ids has seen.
pub record Admits (c : Constraints) (human : Bool) (left right : ℕ) (g : Groups) : Type 0 where
  pub left_root : ℕ
  pub right_root : ℕ
  pub left_members : List ℕ
  pub right_members : List ℕ
  pub left_climbs : Climbs g.parent left left_root
  pub right_climbs : Climbs g.parent right right_root
  pub apart : (left_root == right_root) ≡ false
  pub left_listed : get g.members left_root ≡ some left_members
  pub right_listed : get g.members right_root ≡ some right_members
  pub across : Across (λ x y. violation c x y human ≡ ok none) left_members right_members

pub Finds-twice :
    {g h k : Groups} {x y r s : ℕ}
    → Finds g x r h
    → Finds h y s k
    → Climbs k.parent x r × Climbs k.parent y s
Finds-twice {x = x} {y = y} {r = r} {s = s} a b =
    ((b.roots x r).0 ((a.roots x r).0 a.climbs), (b.roots y s).0 b.climbs)

pub conflict-Admits :
    (g : Groups) (left right : ℕ) (c : Constraints) (human : Bool) {g' : Groups}
    → conflict g left right c human ≡ ok (none, g')
    → Admits c human left right g'
unfolding conflict
conflict-Admits g left right c human {g'} h =
    let (a, found_left, rest) = >>=-eq-ok (find g left) _ h in
    let (b, found_right, tested) = >>=-eq-ok (find a.1 right) _ rest in
    let paths = Finds-twice (find-Finds g left found_left) (find-Finds a.1 right found_right) in
    elim (branch-eq-ok (a.0 == b.0) _ _ tested) [
      | inl (e, done) ↦ cc
      | inr (e, listed) ↦
          let (xs, left_is, more) = >>=-eq-ok (lookup (get b.1.members a.0)) _ listed in
          let (ys, right_is, last) = >>=-eq-ok (lookup (get b.1.members b.0)) _ more in
          let (v, tests, done) = >>=-eq-ok (first_violation c human xs ys) _ last in
          let answer : (v, b.1) ≡ (none, g') = ok_eq done in
          subst (Admits c human left right) (ap (λ t. t.1) answer) (record {
            left_root = a.0;
            right_root = b.0;
            left_members = xs;
            right_members = ys;
            left_climbs = paths.0;
            right_climbs = paths.1;
            apart = e;
            left_listed = lookup-eq-ok _ left_is;
            right_listed = lookup-eq-ok _ right_is;
            across = first_violation-none c human xs ys (tests ∙ ap ok (ap (λ t. t.0) answer));
          })
    ]
