-- ===== src/Identity/Groups/Paths.antt =====
-- The paths to a root in the parents of `_Groups`, once one root has another as its parent: `union` of
-- v2/src/footballai_v2/execution/ai2c/resolver.py.
use native.Mathlib.Decide.{ℕ_discrete}
use football_ai.Prelude.{ℕ, ◌≡◌, ◌≢◌, ◌<◌, ◌⊎◌, sym, ◌∙◌, subst, some, some_eq, arith, inl, inr}
use football_ai.Identity.IdMap.{IdMap, get, put}
use football_ai.Identity.Groups.Climbs.{Climbs, Climbs-root, get_here, get_there, top, up}

-- Where a path leads once the root r has the parent l.
pub joined_path :
    (p : IdMap ℕ) (l r : ℕ)
    → get p l ≡ some l
    → get p r ≡ some r
    → l < r
    → {x s : ℕ} → Climbs (put p r l) x s
    → (s ≢ r) × (Climbs p x s ⊎ ((s ≡ l) × Climbs p x r))
joined_path p l r hl hr less {x} (top h) = elim (ℕ_discrete x r) [
  | yes e ↦
      let parent_is : some l ≡ some x =
        sym (get_here p r l) ∙ subst (λ z. get (put p r l) z ≡ some x) e h in
      absurd (omega (arith, less, e, some_eq parent_is))
  | no n ↦ (n, inl (top (sym (get_there p r l x n) ∙ h)))
]
joined_path p l r hl hr less {x} {s} (up {q = q} h n d) =
    let (apart, rest) = joined_path p l r hl hr less d in
    elim (ℕ_discrete x r) [
      | yes e ↦
          let parent_is : some l ≡ some q =
            sym (get_here p r l) ∙ subst (λ z. get (put p r l) z ≡ some q) e h in
          let at_r : Climbs p x r = subst (λ z. Climbs p z r) (sym e) (top hr) in
          (
            apart,
            elim rest [
              | inl path ↦ inr (
                sym (Climbs-root hl (subst (λ z. Climbs p z s) (sym (some_eq parent_is)) path)),
                at_r,
              )
              | inr found ↦ inr (found.0, at_r)
            ],
          )
      | no m ↦
          let parent_is = sym (get_there p r l x m) ∙ h in
          (
            apart,
            elim rest [
              | inl path ↦ inl (up parent_is n path)
              | inr found ↦ inr (found.0, up parent_is n found.1)
            ],
          )
    ]

-- A path to another root stays, and a path to r goes on to l.
pub other_path :
    (p : IdMap ℕ) (l r : ℕ)
    → get p r ≡ some r
    → {x s : ℕ} → s ≢ r
    → Climbs p x s
    → Climbs (put p r l) x s
other_path p l r hr {x} n (top h) = top (get_there p r l x n ∙ h)
other_path p l r hr {x} {s} n (up {q = q} h m d) = elim (ℕ_discrete x r) [
  | yes e ↦ absurd (n (sym (Climbs-root hr (subst (λ z. Climbs p z s) e (up h m d)))))
  | no k ↦ up (get_there p r l x k ∙ h) m (other_path p l r hr n d)
]

pub root_path :
    (p : IdMap ℕ) (l r : ℕ)
    → get p l ≡ some l
    → get p r ≡ some r
    → l < r
    → {x : ℕ} → Climbs p x r
    → Climbs (put p r l) x l
root_path p l r hl hr less (top h) =
    up (get_here p r l) (λ q. omega (arith, less, q))
      (top (get_there p r l l (λ q. omega (arith, less, q)) ∙ hl))
root_path p l r hl hr less {x} (up {q = q} h m d) = elim (ℕ_discrete x r) [
  | yes e ↦ absurd (m (some_eq (sym h ∙ subst (λ z. get p z ≡ some z) (sym e) hr)))
  | no k ↦ up (get_there p r l x k ∙ h) m (root_path p l r hl hr less d)
]
