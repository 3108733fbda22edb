-- ===== src/Identity/Groups/Valid.antt =====
-- The invariant of `_Groups`, of v2/src/footballai_v2/execution/ai2c/resolver.py: what `__init__` makes and
-- `find` keeps.
use football_ai.Prelude.{
  ℕ, ◌≡◌, ◌≢◌, refl, sym, ap, ◌∙◌, subst, true, some, List, [], ◌∷◌, map, arith,
}
use football_ai.Identity.IdMap.{IdMap, get}
use football_ai.Identity.Corrections.{has}
use football_ai.Identity.Groups.{Groups, new_groups}
use football_ai.Identity.Groups.Climbs.{Climbs, Climbs-top, top, up}
use football_ai.Identity.Groups.Find.{IsBelow, Finds}

-- `listed`, `climbs`: an id stands in the list of its root, and in no other. `apart`: two members of a
-- list are related by R, which stands for what was tested when their groups were merged.
pub record IsValid (R : ℕ → ℕ → Type 0) (g : Groups) : Type 0 where
  pub below : IsBelow g.parent
  pub listed :
      (x r : ℕ)
      → Climbs g.parent x r
      → (xs : List ℕ) × (get g.members r ≡ some xs) × (has xs x ≡ true)
  pub apart :
      (r : ℕ) (xs : List ℕ) (x y : ℕ)
      → get g.members r ≡ some xs
      → has xs x ≡ true
      → has xs y ≡ true
      → x ≢ y
      → R x y
  pub climbs :
      (r : ℕ) (xs : List ℕ) (x : ℕ)
      → get g.members r ≡ some xs
      → has xs x ≡ true
      → Climbs g.parent x r

module _ (R : ℕ → ℕ → Type 0) where
  pub Finds-IsValid : {g g' : Groups} {x r : ℕ} → Finds g x r g' → IsValid R g → IsValid R g'
  Finds-IsValid {g} {g'} f v = record {
    below = f.below v.below;
    listed = λ y s d.
        let (xs, found, holds) = v.listed y s ((f.roots y s).1 d) in
        (xs, rw f.members_kept found, holds);
    apart = λ s xs y z found hy hz n.
        v.apart s xs y z (subst (λ m. get m s ≡ some xs) f.members_kept found) hy hz n;
    climbs = λ s xs y found hy.
        (f.roots y s).0 (v.climbs s xs y (subst (λ m. get m s ≡ some xs) f.members_kept found) hy);
  }

  itself : (ids : List ℕ) (x q : ℕ) → get (map (λ i. (i, i)) ids) x ≡ some q → q ≡ x
  unfolding get
  itself [] x q h = cc
  itself (i ∷ ids) x q h = grind (arith, itself ids x q)

  alone :
      (ids : List ℕ) (x : ℕ) (xs : List ℕ)
      → get (map (λ i. (i, i ∷ [])) ids) x ≡ some xs
      → xs ≡ x ∷ []
  unfolding get
  alone [] x xs h = cc
  alone (i ∷ ids) x xs h = grind (arith, alone ids x xs)

  has_members :
      (ids : List ℕ) (x q : ℕ)
      → get (map (λ i. (i, i)) ids) x ≡ some q
      → get (map (λ i. (i, i ∷ [])) ids) x ≡ some (x ∷ [])
  unfolding get
  has_members [] x q h = cc
  has_members (i ∷ ids) x q h = grind (arith, has_members ids x q)

  own_parent :
      (ids : List ℕ) (x : ℕ) (xs : List ℕ)
      → get (map (λ i. (i, i ∷ [])) ids) x ≡ some xs
      → get (map (λ i. (i, i)) ids) x ≡ some x
  unfolding get
  own_parent [] x xs h = cc
  own_parent (i ∷ ids) x xs h = grind (arith, own_parent ids x xs)

  self_root : (ids : List ℕ) {x r : ℕ} → Climbs (map (λ i. (i, i)) ids) x r → r ≡ x
  self_root ids (top h) = refl
  self_root ids {x} (up {q = q} h n d) = absurd (n (itself ids x q h))

  only : (z x : ℕ) → has (z ∷ []) x ≡ true → z ≡ x
  only z x h = ground arith

  pub new_groups-IsValid : (ids : List ℕ) → IsValid R (new_groups ids)
  unfolding new_groups
  new_groups-IsValid ids =
      let parent : IdMap ℕ = map (λ i. (i, i)) ids in
      let members : IdMap (List ℕ) = map (λ i. (i, i ∷ [])) ids in
      record {
        below = record {
          smaller = λ x q h. omega (arith, itself ids x q h);
          closed = λ x q h. (
            x,
            subst (λ z. get parent z ≡ some x) (sym (itself ids x q h))
                (h ∙ ap some (itself ids x q h)),
          );
        };
        listed = λ x r d.
            let is_self = self_root ids d in
            (r ∷ [], has_members ids r r (Climbs-top d), ground (arith, is_self));
        apart = λ r xs x y found hx hy n.
            let is_one = alone ids r xs found in
            absurd (
              n (
                sym (only r x (subst (λ l. has l x ≡ true) is_one hx))
                ∙ only r y (subst (λ l. has l y ≡ true) is_one hy)));
        climbs = λ r xs x found hx.
            let is_one = alone ids r xs found in
            subst (λ z. Climbs parent z r) (only r x (subst (λ l. has l x ≡ true) is_one hx))
              (top (own_parent ids r xs found));
      }
