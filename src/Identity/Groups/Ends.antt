-- ===== src/Identity/Groups/Ends.antt =====
-- The loops of `find` of `_Groups` end, in v2/src/footballai_v2/execution/ai2c/resolver.py.
use football_ai.Prelude.{
  ℕ, zero, suc, ◌≡◌, ◌<◌, refl, ◌∙◌, Option, some, arith, ◌==◌, inl, inr, Bool-cases,
}
use football_ai.Prelude.Result.{Result, ok, ◌>>=◌, branch_true, branch_false}
use football_ai.Identity.IdMap.{IdMap, get, put}
use football_ai.Identity.Constraints.{LinkError, lookup}
use football_ai.Identity.Groups.{Groups, find, root_of, compress}
use football_ai.Identity.Groups.Climbs.{Climbs, put-Climbs, get_there}
use football_ai.Identity.Groups.Find.{
  IsBelow, compressed-IsBelow, root_of-Climbs, next_path, different,
}

lookup_then {ℓ κ} :
    {V : Type ℓ} {A : Type κ} (o : Option V) {v : V} (f : V → Result LinkError A)
    → o ≡ some v
    → (lookup o >>= f) ≡ f v
lookup_then o f h = rw h refl

-- With more fuel than the id is large, the root is found.
root_of-total :
    (n : ℕ) (p : IdMap ℕ) (x k : ℕ)
    → IsBelow p
    → get p x ≡ some k
    → x < n
    → (r : ℕ) × (root_of n p x ≡ ok r)
unfolding root_of
root_of-total zero p x k b h l = absurd (omega (arith, l))
root_of-total (suc n) p x k b h l = elim (Bool-cases (k == x)) [
  | inl e ↦ (x, lookup_then (get p x) _ h ∙ branch_true (k == x) _ _ e)
  | inr e ↦
      let (j, next_is) = b.closed x k h in
      let smaller : k < x = omega (arith, b.smaller x k h, different k x e) in
      let (r, found) = root_of-total n p k j b next_is (omega (arith, smaller, l)) in
      (r, lookup_then (get p x) _ h ∙ branch_false (k == x) _ _ e ∙ found)
]

compress-total :
    (n : ℕ) (p : IdMap ℕ) (x r k : ℕ)
    → IsBelow p
    → get p x ≡ some k
    → Climbs p x r
    → x < n
    → (p' : IdMap ℕ) × (compress n p x r ≡ ok p')
unfolding compress
compress-total zero p x r k b h c l = absurd (omega (arith, l))
compress-total (suc n) p x r k b h c l = elim (Bool-cases (k == r)) [
  | inl e ↦ (p, lookup_then (get p x) _ h ∙ branch_true (k == r) _ _ e)
  | inr e ↦
      let (apart, path) = next_path p x k r h e c in
      let (j, next_is) = b.closed x k h in
      let smaller : k < x = omega (arith, b.smaller x k h, apart) in
      let (p', found) =
        compress-total n (put p x r) k r j (compressed-IsBelow p x r c b)
          (get_there p x r k apart ∙ next_is) (put-Climbs p x r c path)
          (omega (arith, smaller, l)) in
      (p', lookup_then (get p x) _ h ∙ branch_false (k == r) _ _ e ∙ found)
]

-- If no parent is larger than its child and every parent has one, `find` returns for every id that
-- the groups hold: neither loop runs out of fuel, and no id is missing.
pub find-total :
    (g : Groups) (x k : ℕ)
    → IsBelow g.parent
    → get g.parent x ≡ some k
    → (t : ℕ × Groups) × (find g x ≡ ok t)
unfolding find
find-total g x k b h =
    let (r, found) = root_of-total (suc x) g.parent x k b h (omega arith) in
    let (p, compressed) =
      compress-total (suc x) g.parent x r k b h (root_of-Climbs (suc x) g.parent x found)
        (omega arith) in
    ((r, record g { parent = p }), rw found (rw compressed refl))
