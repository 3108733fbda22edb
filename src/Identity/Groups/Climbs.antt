-- ===== src/Identity/Groups/Climbs.antt =====
-- The paths to a root in the parents of `_Groups`, of v2/src/footballai_v2/execution/ai2c/resolver.py.
use native.Mathlib.Decide.{ℕ_discrete}
use football_ai.Prelude.{ap, subst, ℕ, ◌≡◌, ◌≢◌, refl, sym, ◌∙◌, some, some_eq, arith}
use football_ai.Identity.IdMap.{IdMap, get, put, get-put}

pub data Climbs (p : IdMap ℕ) : ℕ → ℕ → Type 0 where
  top : {r : ℕ} → get p r ≡ some r → Climbs p r r
  up : {x q r : ℕ} → get p x ≡ some q → q ≢ x → Climbs p q r → Climbs p x r

module _ {p : IdMap ℕ} where
  pub Climbs-top : {x r : ℕ} → Climbs p x r → get p r ≡ some r
  Climbs-top (top h) = h
  Climbs-top (up h n c) = Climbs-top c

  pub Climbs-root : {x r : ℕ} → get p x ≡ some x → Climbs p x r → x ≡ r
  Climbs-root e (top h) = refl
  Climbs-root e (up h n c) = absurd (n (some_eq (sym h ∙ e)))

  pub Climbs-next : {x q s : ℕ} → get p x ≡ some q → q ≢ x → Climbs p x s → Climbs p q s
  Climbs-next h n (top k) = absurd (n (some_eq (sym h ∙ k)))
  Climbs-next {s = s} h n (up k m d) = subst (λ z. Climbs p z s) (some_eq (sym k ∙ h)) d

  pub Climbs-unique : {x r s : ℕ} → Climbs p x r → Climbs p x s → r ≡ s
  Climbs-unique (top h) d = Climbs-root h d
  Climbs-unique (up h n c) d = Climbs-unique c (Climbs-next h n d)

pub get_here : (p : IdMap ℕ) (x r : ℕ) → get (put p x r) x ≡ some r
get_here p x r = ground (arith, get-put p x r x)

pub get_there : (p : IdMap ℕ) (x r y : ℕ) → y ≢ x → get (put p x r) y ≡ get p y
get_there p x r y n = ground (arith, get-put p x r y)

-- Pointing an id at its root changes no root.
module _ (p : IdMap ℕ) (x r : ℕ) (c : Climbs p x r) where
  root_kept : {s : ℕ} → get p s ≡ some s → get (put p x r) s ≡ some s
  root_kept {s} h = elim (ℕ_discrete s x) [
    | yes e ↦
        rw e (get_here p x r ∙ ap some (sym (Climbs-root (subst (λ z. get p z ≡ some z) e h) c)))
    | no n ↦ get_there p x r s n ∙ h
  ]

  put-Climbs_root : Climbs (put p x r) x r
  put-Climbs_root = elim (ℕ_discrete r x) [
    | yes e ↦ subst (λ z. Climbs (put p x r) z r) e (top (root_kept (Climbs-top c)))
    | no n ↦ up (get_here p x r) n (top (root_kept (Climbs-top c)))
  ]

  pub put-Climbs : {y s : ℕ} → Climbs p y s → Climbs (put p x r) y s
  put-Climbs (top h) = top (root_kept h)
  put-Climbs {y} {s} (up h n d) = elim (ℕ_discrete y x) [
    | yes e ↦
        let same_root : r ≡ s = Climbs-unique c (subst (λ z. Climbs p z s) e (up h n d)) in
        subst (λ z. Climbs (put p x r) z s) (sym e)
          (subst (Climbs (put p x r) x) same_root put-Climbs_root)
    | no m ↦ up (get_there p x r y m ∙ h) n (put-Climbs d)
  ]

  pub Climbs-put : {y s : ℕ} → Climbs (put p x r) y s → Climbs p y s
  Climbs-put {y} (top h) = elim (ℕ_discrete y x) [
    | yes e ↦
        let parent_is : some r ≡ some y =
          sym (get_here p x r) ∙ subst (λ z. get (put p x r) z ≡ some y) e h in
        subst (λ z. Climbs p z y) (sym e) (subst (Climbs p x) (some_eq parent_is) c)
    | no m ↦ top (sym (get_there p x r y m) ∙ h)
  ]
  Climbs-put {y} {s} (up {q = q} h n d) = elim (ℕ_discrete y x) [
    | yes e ↦
        let parent_is : some r ≡ some q =
          sym (get_here p x r) ∙ subst (λ z. get (put p x r) z ≡ some q) e h in
        let rest : Climbs p r s =
          subst (λ z. Climbs p z s) (sym (some_eq parent_is)) (Climbs-put d) in
        subst (λ z. Climbs p z s) (sym e) (subst (Climbs p x) (Climbs-root (Climbs-top c) rest) c)
    | no m ↦ up (sym (get_there p x r y m) ∙ h) n (Climbs-put d)
  ]
