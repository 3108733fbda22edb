-- ===== src/Identity/Groups/Union.antt =====
-- `union` of `_Groups`, of v2/src/footballai_v2/execution/ai2c/resolver.py: it keeps the invariant, if the
-- members of the two groups are related to one another.
use native.Mathlib.Decide.{ℕ_discrete}
use football_ai.Prelude.{
  ℕ, ◌≡◌, ◌≢◌, ◌<◌, ◌⊎◌, refl, sym, ◌∙◌, subst, true, none, some, some_eq, List, [], ◌∷◌, ◌++◌,
  arith, ◌==◌, ◌||◌, inl, inr, if◌then◌else◌,
}
use football_ai.Prelude.Result.{ok, >>=-eq-ok, ok_eq}
use football_ai.Identity.IdMap.{IdMap, get, put, remove, get-put, get-remove}
use football_ai.Identity.Corrections.{has}
use football_ai.Identity.Constraints.{lookup}
use football_ai.Identity.Groups.{Groups, join}
use football_ai.Identity.Groups.Climbs.{Climbs}
use football_ai.Identity.Groups.Paths.{joined_path, other_path, root_path}
use football_ai.Identity.Groups.Find.{IsBelow, put-IsBelow, lookup-eq-ok}
use football_ai.Identity.Groups.Valid.{IsValid}

-- The members of the groups after the merge of l and r.
merged_members :
    (m : IdMap (List ℕ)) (l r : ℕ) (zs : List ℕ) (s : ℕ)
    → l < r
    → get (if l == r then remove m r else put (remove m r) l zs) s
      ≡ (if l == s then some zs else if r == s then none else get m s)
merged_members m l r zs s less = ground (arith, get-put (remove m r) l zs s, get-remove m r s)

has-append : (xs ys : List ℕ) (x : ℕ) → has (xs ++ ys) x ≡ (has xs x || has ys x)
has-append [] ys x = refl
has-append (z ∷ xs) ys x = ground (arith, has-append xs ys x)

has-left : (xs ys : List ℕ) (x : ℕ) → has xs x ≡ true → has (xs ++ ys) x ≡ true
has-left xs ys x h = ground (arith, has-append xs ys x, h)

has-right : (xs ys : List ℕ) (x : ℕ) → has ys x ≡ true → has (xs ++ ys) x ≡ true
has-right xs ys x h = ground (arith, has-append xs ys x, h)

has-split :
    (xs ys : List ℕ) (x : ℕ) → has (xs ++ ys) x ≡ true → (has xs x ≡ true) ⊎ (has ys x ≡ true)
has-split xs ys x h = ground (arith, has-append xs ys x, h)

-- Each member of one list is related to each member of the other.
abbrev pub Across : (R : ℕ → ℕ → Type 0) → (xs ys : List ℕ) → Type 0
Across R xs ys = (x y : ℕ) → has xs x ≡ true → has ys y ≡ true → R x y

module _ (R : ℕ → ℕ → Type 0) (R-sym : (x y : ℕ) → R x y → R y x) (g : Groups) (l r : ℕ)
    (xs ys : List ℕ) (hl : get g.parent l ≡ some l) (hr : get g.parent r ≡ some r) (less : l < r)
    (left_members : get g.members l ≡ some xs) (right_members : get g.members r ≡ some ys)
    (valid : IsValid R g) where
  joined : Groups
  joined = record {
    parent = put g.parent r l;
    members = if l == r then remove g.members r else put (remove g.members r) l (xs ++ ys);
  }

  joined_members :
      (s : ℕ)
      → get joined.members s
        ≡ (if l == s then some (xs ++ ys) else if r == s then none else get g.members s)
  unfolding joined
  joined_members s = merged_members g.members l r (xs ++ ys) s less

  joined_here : get joined.members l ≡ some (xs ++ ys)
  joined_here = ground (arith, joined_members l)

  joined_there : (s : ℕ) → s ≢ l → s ≢ r → get joined.members s ≡ get g.members s
  joined_there s n m = ground (arith, joined_members s)

  -- What a list that is found after the merge was before.
  joined_list :
      (s : ℕ) (zs : List ℕ)
      → get joined.members s ≡ some zs
      → (zs ≡ xs ++ ys) ⊎ (get g.members s ≡ some zs)
  joined_list s zs h = grind (arith, joined_members s)

  joined_listed :
      (x s : ℕ)
      → Climbs joined.parent x s
      → (zs : List ℕ) × (get joined.members s ≡ some zs) × (has zs x ≡ true)
  unfolding joined
  joined_listed x s d =
      let (apart, path) = joined_path g.parent l r hl hr less d in
      elim path [
        | inl e ↦
            let (zs, found, holds) = valid.listed x s e in
            elim (ℕ_discrete s l) [
              | yes q ↦
                  let same_list =
                    some_eq
                      (sym found ∙ subst (λ z. get g.members z ≡ some xs) (sym q) left_members) in
                  (
                    xs ++ ys,
                    subst (λ z. get joined.members z ≡ some (xs ++ ys)) (sym q) joined_here,
                    has-left xs ys x (subst (λ z. has z x ≡ true) same_list holds),
                  )
              | no n ↦ (zs, joined_there s n apart ∙ found, holds)
            ]
        | inr e ↦
            let (zs, found, holds) = valid.listed x r e.1 in
            (
              xs ++ ys,
              subst (λ z. get joined.members z ≡ some (xs ++ ys)) (sym e.0) joined_here,
              has-right xs ys x
                  (subst (λ z. has z x ≡ true) (some_eq (sym found ∙ right_members)) holds),
            )
      ]

  joined_paths :
      (s : ℕ) (zs : List ℕ) (x : ℕ)
      → get joined.members s ≡ some zs
      → has zs x ≡ true
      → Climbs joined.parent x s
  unfolding joined
  joined_paths s zs x found hx = elim (ℕ_discrete s l) [
    | yes e ↦
        let same : zs ≡ xs ++ ys =
          some_eq
            (sym found ∙ subst (λ z. get joined.members z ≡ some (xs ++ ys)) (sym e) joined_here) in
        subst (λ z. Climbs joined.parent x z) (sym e)
          (elim (has-split xs ys x (subst (λ z. has z x ≡ true) same hx)) [
            | inl h ↦
                other_path g.parent l r hr (λ q. omega (arith, less, q))
                  (valid.climbs l xs x left_members h)
            | inr h ↦ root_path g.parent l r hl hr less (valid.climbs r ys x right_members h)
          ])
    | no n ↦ elim (ℕ_discrete s r) [
      | yes e ↦ absurd (ground (arith, joined_members s, e, found, less))
      | no m ↦
          other_path g.parent l r hr m (valid.climbs s zs x (sym (joined_there s n m) ∙ found) hx)
    ]
  ]

  joined_apart :
      Across R xs ys → (x y : ℕ) → has (xs ++ ys) x ≡ true → has (xs ++ ys) y ≡ true → x ≢ y → R x y
  joined_apart across x y hx hy n = elim (has-split xs ys x hx) [
    | inl a ↦ elim (has-split xs ys y hy) [
      | inl b ↦ valid.apart l xs x y left_members a b n
      | inr b ↦ across x y a b
    ]
    | inr a ↦ elim (has-split xs ys y hy) [
      | inl b ↦ R-sym y x (across y x b a)
      | inr b ↦ valid.apart r ys x y right_members a b n
    ]
  ]

  joined-IsBelow : IsBelow joined.parent
  unfolding joined
  joined-IsBelow = put-IsBelow g.parent r l l (omega (arith, less)) hl valid.below

  joined-IsValid : Across R xs ys → IsValid R joined
  joined-IsValid across = record {
    below = joined-IsBelow;
    listed = joined_listed;
    apart = λ s zs x y found hx hy n. elim (joined_list s zs found) [
      | inl e ↦
          joined_apart across x y (subst (λ z. has z x ≡ true) e hx)
            (subst (λ z. has z y ≡ true) e hy) n
      | inr e ↦ valid.apart s zs x y e hx hy n
    ];
    climbs = joined_paths;
  }

  pub join-IsValid : (g' : Groups) → Across R xs ys → join g l r ≡ ok g' → IsValid R g'
  unfolding join joined
  join-IsValid g' across h =
      let (zs, left_is, rest) = >>=-eq-ok (lookup (get g.members l)) _ h in
      let (ws, right_is, done) = >>=-eq-ok (lookup (get g.members r)) _ rest in
      let same_left : xs ≡ zs =
        some_eq (sym left_members ∙ lookup-eq-ok (get g.members l) left_is) in
      let same_right : ys ≡ ws =
        some_eq (sym right_members ∙ lookup-eq-ok (get g.members r) right_is) in
      subst (IsValid R) (rw (same_left, same_right) (ok_eq done)) (joined-IsValid across)
