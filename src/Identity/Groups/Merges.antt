-- ===== src/Identity/Groups/Merges.antt =====
-- The tests and merges of groups in `resolve_identities`, of
-- v2/src/footballai_v2/execution/ai2c/resolver.py, keep the invariant of the groups.
pub mod Admission
use football_ai.Prelude.{
  ℕ, ◌≡◌, ◌<◌, refl, ap, ◌∙◌, subst, Bool, true, false, Option, none, some, List, [], ◌∷◌, arith,
  ◌==◌, ==_iff, inl, inr, leb, leb→le, if-eq, if◌then◌else◌, Bool-cases,
}
use football_ai.Prelude.Result.{Result, ok, err, >>=-eq-ok, ok_eq, branch-eq-ok}
use football_ai.Identity.IdMap.{get}
use football_ai.Identity.Corrections.{has}
use football_ai.Identity.Constraints.{
  Constraints, Violation, LinkError, violates, violation, lookup,
}
use football_ai.Identity.Constraints.Symmetry.{violation_comm, violation_override}
use football_ai.Identity.Groups.{
  Groups, find, against, first_violation, conflict, join, union, apply_must_link, link_musts,
  apply_proposal, link_proposals, in_order, is_already,
}
use football_ai.Identity.Groups.Climbs.{Climbs, Climbs-top, Climbs-unique}
use football_ai.Identity.Groups.Find.{Finds, find-Finds, lookup-eq-ok, different}
use football_ai.Identity.Groups.Valid.{IsValid, Finds-IsValid}
use football_ai.Identity.Groups.Union.{join-IsValid}
use football_ai.Identity.Groups.Merges.Admission.{Admits, Finds-twice, conflict-Admits}

conflict-IsValid :
    (R : ℕ → ℕ → Type 0) (g : Groups) (left right : ℕ) (c : Constraints) (human : Bool)
    {t : Option Violation × Groups}
    → conflict g left right c human ≡ ok t
    → IsValid R g
    → IsValid R t.1
unfolding conflict
conflict-IsValid R g left right c human {t} h v =
    let (a, found_left, rest) = >>=-eq-ok (find g left) _ h in
    let (b, found_right, tested) = >>=-eq-ok (find a.1 right) _ rest in
    let valid : IsValid R b.1 =
      Finds-IsValid R (find-Finds a.1 right found_right)
        (Finds-IsValid R (find-Finds g left found_left) v) in
    elim (branch-eq-ok (a.0 == b.0) _ _ tested) [
      | inl (e, done) ↦ subst (λ t. IsValid R t.1) (ok_eq done) valid
      | inr (e, listed) ↦
          let (xs, left_is, more) = >>=-eq-ok (lookup (get b.1.members a.0)) _ listed in
          let (ys, right_is, last) = >>=-eq-ok (lookup (get b.1.members b.0)) _ more in
          let (v', tests, done) = >>=-eq-ok (first_violation c human xs ys) _ last in
          subst (λ t. IsValid R t.1) (ok_eq done) valid
    ]

Admits-kept :
    {c : Constraints} {human : Bool} {left right x r : ℕ} {g k : Groups}
    → Finds g x r k
    → Admits c human left right g
    → Admits c human left right k
Admits-kept {left = left} {right = right} f a = record {
  left_root = a.left_root;
  right_root = a.right_root;
  left_members = a.left_members;
  right_members = a.right_members;
  left_climbs = (f.roots left a.left_root).0 a.left_climbs;
  right_climbs = (f.roots right a.right_root).0 a.right_climbs;
  apart = a.apart;
  left_listed = rw f.members_kept a.left_listed;
  right_listed = rw f.members_kept a.right_listed;
  across = a.across;
}

-- R holds where a test admits a pair, and in both directions.
module _ (c : Constraints) (human : Bool) (R : ℕ → ℕ → Type 0)
    (weaken : (x y : ℕ) → violation c x y human ≡ ok none → R x y)
    (R-sym : (x y : ℕ) → R x y → R y x) where
  -- The merge of two roots in their order.
  sorted_join-IsValid :
      (k : Groups) (left right a b : ℕ) {g' : Groups}
      → Admits c human left right k
      → Climbs k.parent left a
      → Climbs k.parent right b
      → (if leb a b then join k a b else join k b a) ≡ ok g'
      → IsValid R k
      → IsValid R g'
  sorted_join-IsValid k left right a b {g'} m la rb h v =
      let ea : m.left_root ≡ a = Climbs-unique m.left_climbs la in
      let eb : m.right_root ≡ b = Climbs-unique m.right_climbs rb in
      let apart = different m.left_root m.right_root m.apart in
      let la' : get k.members a ≡ some m.left_members =
        subst (λ z. get k.members z ≡ some m.left_members) ea m.left_listed in
      let rb' : get k.members b ≡ some m.right_members =
        subst (λ z. get k.members z ≡ some m.right_members) eb m.right_listed in
      elim (if-eq (leb a b) (join k a b) (join k b a) h) [
        | inl (e, done) ↦
            join-IsValid R R-sym k a b m.left_members m.right_members (Climbs-top la)
              (Climbs-top rb) (omega (arith, leb→le a b e, apart, ea, eb)) la' rb' v g'
              (λ x y hx hy. weaken x y (m.across x y hx hy)) done
        | inr (e, done) ↦
            join-IsValid R R-sym k b a m.right_members m.left_members (Climbs-top rb)
              (Climbs-top la) (not_leb a b e) rb' la' v g'
              (λ x y hx hy. R-sym y x (weaken y x (m.across y x hy hx))) done
      ]
    where
      not_leb : (a b : ℕ) → leb a b ≡ false → b < a
      not_leb a b h = ground (arith, h)

  -- The merge that follows a test that admits it.
  union-IsValid :
      (g : Groups) (left right : ℕ) {g' : Groups}
      → Admits c human left right g
      → union g left right ≡ ok g'
      → IsValid R g
      → IsValid R g'
  unfolding union
  union-IsValid g left right {g'} admits h v =
      let (a, found_left, rest) = >>=-eq-ok (find g left) _ h in
      let (b, found_right, merged) = >>=-eq-ok (find a.1 right) _ rest in
      let f = find-Finds g left found_left in
      let f' = find-Finds a.1 right found_right in
      let paths = Finds-twice f f' in
      sorted_join-IsValid b.1 left right a.0 b.0 (Admits-kept f' (Admits-kept f admits)) paths.0
        paths.1 merged (Finds-IsValid R f' (Finds-IsValid R f v))

module _ (c : Constraints) (R : ℕ → ℕ → Type 0)
    (weaken : (x y : ℕ) → violation c x y false ≡ ok none → R x y)
    (R-sym : (x y : ℕ) → R x y → R y x) where
  apply_proposal-IsValid :
      (g : Groups) (p : ℕ × ℕ) (t : Option Violation × Groups) {g' : Groups}
      → conflict g p.0 p.1 c false ≡ ok t
      → apply_proposal t p ≡ ok g'
      → IsValid R g
      → IsValid R g'
  unfolding apply_proposal
  apply_proposal-IsValid g (l, r) (none, k) tested h v =
      union-IsValid c false R weaken R-sym k l r (conflict-Admits g l r c false tested) h
        (conflict-IsValid R g l r c false tested v)
  apply_proposal-IsValid g (l, r) (some reason, k) tested h v =
      subst (IsValid R) (ok_eq h) (conflict-IsValid R g l r c false tested v)

  pub link_proposals-IsValid :
      (g : Groups) (ps : List (ℕ × ℕ)) {g' : Groups}
      → link_proposals c g ps ≡ ok g'
      → IsValid R g
      → IsValid R g'
  unfolding link_proposals
  link_proposals-IsValid g [] h v = subst (IsValid R) (ok_eq h) v
  link_proposals-IsValid g (p ∷ ps) h v =
      let (t, tested, rest) = >>=-eq-ok (conflict g p.0 p.1 c false) _ h in
      let (k, applied, others) = >>=-eq-ok (apply_proposal t p) _ rest in
      link_proposals-IsValid k ps others (apply_proposal-IsValid g p t tested applied v)

module _ (c : Constraints) (R : ℕ → ℕ → Type 0)
    (weaken : (x y : ℕ) → violation c x y true ≡ ok none → R x y)
    (R-sym : (x y : ℕ) → R x y → R y x) where
  apply_must_link-IsValid :
      (g : Groups) (p : ℕ × ℕ) (t : Option Violation × Groups) {g' : Groups}
      → conflict g p.0 p.1 c true ≡ ok t
      → apply_must_link t p ≡ ok g'
      → IsValid R g
      → IsValid R g'
  unfolding apply_must_link
  apply_must_link-IsValid g (l, r) (none, k) tested h v =
      union-IsValid c true R weaken R-sym k l r (conflict-Admits g l r c true tested) h
        (conflict-IsValid R g l r c true tested v)
  apply_must_link-IsValid g (l, r) (some reason, k) {g'} tested h v =
      elim (if-eq (is_already reason) (ok k) (err (violates reason)) h) [
        | inl (e, done) ↦ subst (IsValid R) (ok_eq done) (conflict-IsValid R g l r c true tested v)
        | inr (e, fails) ↦ cc
      ]

  pub link_musts-IsValid :
      (g : Groups) (ms : List (ℕ × ℕ × ℕ)) {g' : Groups}
      → link_musts c g ms ≡ ok g'
      → IsValid R g
      → IsValid R g'
  unfolding link_musts
  link_musts-IsValid g [] h v = subst (IsValid R) (ok_eq h) v
  link_musts-IsValid g ((l, r, s) ∷ ms) h v =
      let (p, ordered, tests) = >>=-eq-ok (in_order c l r) _ h in
      let (t, tested, rest) = >>=-eq-ok (conflict g p.0 p.1 c true) _ tests in
      let (k, applied, others) = >>=-eq-ok (apply_must_link t p) _ rest in
      link_musts-IsValid k ms others (apply_must_link-IsValid g p t tested applied v)
