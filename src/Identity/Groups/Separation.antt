-- ===== src/Identity/Groups/Separation.antt =====
-- What the groups of `resolve_identities` promise, in v2/src/footballai_v2/execution/ai2c/resolver.py.
use football_ai.Prelude.{
  ℕ, ◌≡◌, ◌≢◌, ◌⊎◌, inl, inr, sym, ap, ◌∙◌, subst, some_eq, true, false, none, some, List,
}
use football_ai.Prelude.Result.{ok, >>=-eq-ok}
use football_ai.Identity.IdMap.{IdMap, get}
use football_ai.Identity.Corrections.{has}
use football_ai.Identity.Constraints.{Constraints, violation}
use football_ai.Identity.Constraints.Symmetry.{violation_comm, violation_override}
use football_ai.Identity.Groups.{Groups, find, merged, link_musts, new_groups}
use football_ai.Identity.Groups.Climbs.{Climbs, Climbs-top, Climbs-unique, top, up}
use football_ai.Identity.Groups.Find.{SameRoots, find-Finds}
use football_ai.Identity.Groups.Ends.{find-total}
use football_ai.Identity.Groups.Valid.{IsValid, new_groups-IsValid}
use football_ai.Identity.Groups.Merges.{link_musts-IsValid, link_proposals-IsValid}

-- The search for either id ends at one root.
abbrev pub Together : Groups → (x y : ℕ) → Type 0
Together g x y =
    (s : ℕ) × (h : Groups) × (k : Groups) × (find g x ≡ ok (s, h)) × (find g y ≡ ok (s, k))

-- What a merge by a reviewer admits.
abbrev Overridden : Constraints → (x y : ℕ) → Type 0
Overridden c x y = violation c x y true ≡ ok none

-- What the merges admit, where g is the groups after those of the reviewers.
abbrev Separated : Constraints → (g : Groups) → (x y : ℕ) → Type 0
Separated c g x y = Overridden c x y × ((violation c x y false ≡ ok none) ⊎ Together g x y)

Overridden-sym : (c : Constraints) (x y : ℕ) → Overridden c x y → Overridden c y x
Overridden-sym c x y h = violation_comm c y x true ∙ h

Separated-sym : (c : Constraints) (g : Groups) (x y : ℕ) → Separated c g x y → Separated c g y x
Separated-sym c g x y (h, inl e) = (Overridden-sym c x y h, inl (violation_comm c y x false ∙ e))
Separated-sym c g x y (h, inr (s, k, k', a, b)) = (Overridden-sym c x y h, inr (s, k', k, b, a))

held : {p : IdMap ℕ} {x r : ℕ} → Climbs p x r → (k : ℕ) × (get p x ≡ some k)
held {x = x} (top h) = (x, h)
held (up {q = q} h n d) = (q, h)

-- The search for an id with a path to r returns r.
Climbs-find :
    (R : ℕ → ℕ → Type 0) (g : Groups) (x r : ℕ)
    → IsValid R g
    → Climbs g.parent x r
    → (h : Groups) × (find g x ≡ ok (r, h))
Climbs-find R g x r v d =
    let (k, known) = held d in
    let ((s, h), found) = find-total g x k v.below known in
    (h, found ∙ ap (λ z. ok (z, h)) (Climbs-unique (find-Finds g x found).climbs d))

-- The groups after the must-links, as those from which the proposals start.
after_musts : (c : Constraints) (g : Groups) → IsValid (Overridden c) g → IsValid (Separated c g) g
after_musts c g v = record {
  below = v.below;
  listed = v.listed;
  apart = λ r xs x y found hx hy n.
      let (h, at_x) = Climbs-find (Overridden c) g x r v (v.climbs r xs x found hx) in
      let (k, at_y) = Climbs-find (Overridden c) g y r v (v.climbs r xs y found hy) in
      (v.apart r xs x y found hx hy n, inr (r, h, k, at_x, at_y));
  climbs = v.climbs;
}

merged-IsValid :
    (c : Constraints) (eligible : List ℕ) (ms : List (ℕ × ℕ × ℕ)) (ps : List (ℕ × ℕ)) {g : Groups}
    → merged c eligible ms ps ≡ ok g
    → (g₀ : Groups) × (link_musts c (new_groups eligible) ms ≡ ok g₀) × IsValid (Separated c g₀) g
unfolding merged
merged-IsValid c eligible ms ps h =
    let (g₀, musts, rest) = >>=-eq-ok (link_musts c (new_groups eligible) ms) _ h in
    let linked =
      link_musts-IsValid c (Overridden c) (λ x y e. e) (Overridden-sym c) (new_groups eligible) ms
        musts (new_groups-IsValid (Overridden c) eligible) in
    (
      g₀,
      musts,
      link_proposals-IsValid c (Separated c g₀) (λ x y e. (violation_override c x y true e, inl e))
          (Separated-sym c g₀) g₀ ps rest (after_musts c g₀ linked),
    )

-- Two different tracklets that end in one group break no constraint that a reviewer cannot override,
-- in either order: they do not overlap in time, no cannot-link names them, and their classes do not
-- differ. If confident teams separate them, then the must-links of the reviewers alone have put them
-- in one group: the proposals merge no such pair.
pub merged-separates :
    (c : Constraints) (eligible : List ℕ) (must_links : List (ℕ × ℕ × ℕ)) (proposals : List (ℕ × ℕ))
    (g g' g'' : Groups) (x y root : ℕ)
    → merged c eligible must_links proposals ≡ ok g
    → find g x ≡ ok (root, g')
    → find g' y ≡ ok (root, g'')
    → x ≢ y
    → (g₀ : Groups) × (link_musts c (new_groups eligible) must_links ≡ ok g₀)
      × (violation c x y true ≡ ok none)
      × ((violation c x y false ≡ ok none) ⊎ Together g₀ x y)
merged-separates c eligible ms ps g g' g'' x y root h hx hy n =
    let (g₀, musts, valid) = merged-IsValid c eligible ms ps h in
    let f = find-Finds g x hx in
    let f' = find-Finds g' y hy in
    let (xs, found, holds) = valid.listed x root f.climbs in
    let (ys, found', holds') = valid.listed y root ((f.roots y root).1 f'.climbs) in
    let (overridden, teams) =
      valid.apart root ys x y found'
        (subst (λ l. has l x ≡ true) (some_eq (sym found ∙ found')) holds) holds' n in
    (g₀, musts, overridden, teams)

-- Whatever was merged, `find` of an id that the groups hold returns: the id at which the path of
-- parents from that id ends, which is its own parent. The groups after the compression have the same
-- roots and members.
pub merged-find-total :
    (c : Constraints) (eligible : List ℕ) (must_links : List (ℕ × ℕ × ℕ)) (proposals : List (ℕ × ℕ))
    (g : Groups) (x k : ℕ)
    → merged c eligible must_links proposals ≡ ok g
    → get g.parent x ≡ some k
    → (r : ℕ) × (h : Groups) × (find g x ≡ ok (r, h))
      × Climbs g.parent x r
      × (get g.parent r ≡ some r)
      × SameRoots g.parent h.parent
      × (h.members ≡ g.members)
merged-find-total c eligible ms ps g x k h f =
    let (g₀, musts, valid) = merged-IsValid c eligible ms ps h in
    let ((r, g'), found) = find-total g x k valid.below f in
    let finds = find-Finds g x found in
    (r, g', found, finds.climbs, Climbs-top finds.climbs, finds.roots, finds.members_kept)
