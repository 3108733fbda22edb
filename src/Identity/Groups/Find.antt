-- ===== src/Identity/Groups/Find.antt =====
-- `find` of `_Groups`, of v2/src/footballai_v2/execution/ai2c/resolver.py: it ends, and it changes no root.
use native.Mathlib.Decide.{ℕ_discrete}
use football_ai.Prelude.{
  ℕ, zero, suc, ◌≡◌, ◌≢◌, ◌≤◌, ◌↔◌, refl, sym, ap, ◌∙◌, subst, false, Option, none, some, some_eq,
  arith, ◌==◌, ==_iff, inl, inr,
}
use football_ai.Prelude.Result.{ok, ok_eq, >>=-eq-ok, branch-eq-ok}
use football_ai.Identity.IdMap.{IdMap, get, put}
use football_ai.Identity.Constraints.{lookup}
use football_ai.Identity.Groups.{Groups, find, root_of, compress}
use football_ai.Identity.Groups.Climbs.{
  Climbs, top, up, Climbs-top, Climbs-next, Climbs-root, put-Climbs, Climbs-put, get_here,
  get_there,
}

pub lookup-eq-ok {ℓ} : {V : Type ℓ} (o : Option V) {v : V} → lookup o ≡ ok v → o ≡ some v
lookup-eq-ok (some w) h = ap some (ok_eq h)
lookup-eq-ok none h = cc

-- A parent is no larger than its child, and has a parent.
pub record IsBelow (p : IdMap ℕ) : Type 0 where
  pub smaller : (x q : ℕ) → get p x ≡ some q → q ≤ x
  pub closed : (x q : ℕ) → get p x ≡ some q → (k : ℕ) × (get p q ≡ some k)

abbrev pub SameRoots : (p p' : IdMap ℕ) → Type 0
SameRoots p p' = (y s : ℕ) → Climbs p y s ↔ Climbs p' y s

pub Climbs-smaller : {p : IdMap ℕ} {x r : ℕ} → IsBelow p → Climbs p x r → r ≤ x
Climbs-smaller b (top h) = omega arith
Climbs-smaller {p} {x} b (up {q = q} h n c) = omega (arith, Climbs-smaller b c, b.smaller x q h)

still_in : (p : IdMap ℕ) (x q y k : ℕ) → get p y ≡ some k → (j : ℕ) × (get (put p x q) y ≡ some j)
still_in p x q y k h = elim (ℕ_discrete y x) [
  | yes e ↦ (q, subst (λ z. get (put p x q) z ≡ some q) (sym e) (get_here p x q))
  | no n ↦ (k, get_there p x q y n ∙ h)
]

-- A parent that is no larger, and has a parent.
pub put-IsBelow :
    (p : IdMap ℕ) (x r k : ℕ) → r ≤ x → get p r ≡ some k → IsBelow p → IsBelow (put p x r)
put-IsBelow p x r k l f b = record {
  smaller = λ y q h. elim (ℕ_discrete y x) [
    | yes e ↦
        let is_root : some r ≡ some q =
          sym (get_here p x r) ∙ subst (λ z. get (put p x r) z ≡ some q) e h in
        omega (arith, l, some_eq is_root, e)
    | no n ↦ b.smaller y q (sym (get_there p x r y n) ∙ h)
  ];
  closed = λ y q h. elim (ℕ_discrete y x) [
    | yes e ↦
        let is_root : some r ≡ some q =
          sym (get_here p x r) ∙ subst (λ z. get (put p x r) z ≡ some q) e h in
        subst (λ z. (j : ℕ) × (get (put p x r) z ≡ some j)) (some_eq is_root) (still_in p x r r k f)
    | no n ↦
        let (j, found) = b.closed y q (sym (get_there p x r y n) ∙ h) in still_in p x r q j found
  ];
}

pub compressed-IsBelow : (p : IdMap ℕ) (x r : ℕ) → Climbs p x r → IsBelow p → IsBelow (put p x r)
compressed-IsBelow p x r c b = put-IsBelow p x r r (Climbs-smaller b c) (Climbs-top c) b

pub different : (a b : ℕ) → (a == b) ≡ false → a ≢ b
different a b h e = ground (arith, h, e)

pub root_of-Climbs : (n : ℕ) (p : IdMap ℕ) (x : ℕ) {r : ℕ} → root_of n p x ≡ ok r → Climbs p x r
unfolding root_of
root_of-Climbs zero p x h = cc
root_of-Climbs (suc n) p x {r} h =
    let (q, found, rest) = >>=-eq-ok (lookup (get p x)) _ h in
    let parent_is = lookup-eq-ok (get p x) found in
    elim (branch-eq-ok (q == x) (ok x) (root_of n p q) rest) [
      | inl (e, f) ↦
          let itself = (==_iff q x).0 e in
          subst (Climbs p x) (ok_eq f) (top (parent_is ∙ ap some itself))
      | inr (e, f) ↦ up parent_is (different q x e) (root_of-Climbs n p q f)
    ]

-- The path that is left to compress.
pub next_path :
    (p : IdMap ℕ) (x q r : ℕ)
    → get p x ≡ some q
    → (q == r) ≡ false
    → Climbs p x r
    → (q ≢ x) × Climbs p q r
next_path p x q r h e c = elim (ℕ_discrete q x) [
  | yes s ↦ absurd (different q r e (s ∙ Climbs-root (h ∙ ap some s) c))
  | no n ↦ (n, Climbs-next h n c)
]

record Compresses (p p' : IdMap ℕ) : Type 0 where
  roots : SameRoots p p'
  below : IsBelow p → IsBelow p'

compress-Compresses :
    (n : ℕ) (p : IdMap ℕ) (x r : ℕ) {p' : IdMap ℕ}
    → Climbs p x r
    → compress n p x r ≡ ok p'
    → Compresses p p'
unfolding compress
compress-Compresses zero p x r c h = cc
compress-Compresses (suc n) p x r {p'} c h =
    let (q, found, rest) = >>=-eq-ok (lookup (get p x)) _ h in
    let parent_is = lookup-eq-ok (get p x) found in
    elim (branch-eq-ok (q == r) (ok p) (compress n (put p x r) q r) rest) [
      | inl (e, f) ↦
          subst (Compresses p) (ok_eq f)
            (record { roots = λ y s. (λ d. d, λ d. d); below = λ b. b })
      | inr (e, f) ↦
          let path = (next_path p x q r parent_is e c).1 in
          let others = compress-Compresses n (put p x r) q r (put-Climbs p x r c path) f in
          record {
            roots = λ y s. (
              λ d. (others.roots y s).0 (put-Climbs p x r c d),
              λ d. Climbs-put p x r c ((others.roots y s).1 d),
            );
            below = λ b. others.below (compressed-IsBelow p x r c b);
          }
    ]

-- What a `find` that returns has found, and what it has kept.
pub record Finds (g : Groups) (x r : ℕ) (g' : Groups) : Type 0 where
  pub climbs : Climbs g.parent x r
  pub roots : SameRoots g.parent g'.parent
  pub below : IsBelow g.parent → IsBelow g'.parent
  pub members_kept : g'.members ≡ g.members

pub find-Finds : (g : Groups) (x : ℕ) {t : ℕ × Groups} → find g x ≡ ok t → Finds g x t.0 t.1
unfolding find
find-Finds g x {t} h =
    let (r, root_is, rest) = >>=-eq-ok (root_of (suc x) g.parent x) _ h in
    let (p, compressed, done) = >>=-eq-ok (compress (suc x) g.parent x r) _ rest in
    let climbs = root_of-Climbs (suc x) g.parent x root_is in
    let kept = compress-Compresses (suc x) g.parent x r climbs compressed in
    subst (λ t. Finds g x t.0 t.1) (ok_eq done)
      (record { climbs = climbs; roots = kept.roots; below = kept.below; members_kept = refl })
