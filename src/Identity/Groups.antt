-- ===== src/Identity/Groups.antt =====
-- v2/src/footballai_v2/execution/ai2c/resolver.py: `_Groups`, a union-find with path compression, and
-- the two loops of `resolve_identities` that merge groups.
pub mod Climbs
pub mod Paths
pub mod Find
pub mod Ends
pub mod Valid
pub mod Union
pub mod Merges
pub mod Separation
use football_ai.Prelude.{
  ℕ, zero, suc, Bool, true, false, not, Option, none, some, List, [], ◌∷◌, ◌++◌, map, leb, ltb,
  ◌==◌, if◌then◌else◌, ◌||◌, ◌&&◌,
}
use football_ai.Prelude.Result.{Result, ok, err, ◌>>=◌}
use football_ai.Identity.IdMap.{IdMap, get, put, remove}
use football_ai.Identity.Corrections.{TrackletId}
use football_ai.Identity.Constraints.{
  Constraints, TrackletSummary, Violation, already_same_identity, LinkError, does_not_end, violates,
  lookup, violation,
}

pub record Groups : Type 0 where
  pub parent : IdMap TrackletId
  pub members : IdMap (List TrackletId)

-- `_Groups.__init__`
unfoldable pub new_groups : List TrackletId → Groups
new_groups identifiers = record {
  parent = map (λ i. (i, i)) identifiers;
  members = map (λ i. (i, i ∷ [])) identifiers;
}

-- The first loop of `find`.
unfoldable pub root_of : (fuel : ℕ) → IdMap TrackletId → TrackletId → Result LinkError TrackletId
root_of zero parent item = err does_not_end
root_of (suc n) parent item = lookup (get parent item) >>= λ q. elim (q == item) [
  | true ↦ ok item
  | false ↦ root_of n parent q
]

-- The second loop of `find`, which compresses the path to the root.
unfoldable pub compress :
    (fuel : ℕ) → IdMap TrackletId → (item root : TrackletId) → Result LinkError (IdMap TrackletId)
compress zero parent item root = err does_not_end
compress (suc n) parent item root = lookup (get parent item) >>= λ q. elim (q == root) [
  | true ↦ ok parent
  | false ↦ compress n (put parent item root) q root
]

-- `find`: the root, and the groups after the compression.
unfoldable pub find : Groups → TrackletId → Result LinkError (TrackletId × Groups)
find g item = root_of (suc item) g.parent item >>= λ root.
    compress (suc item) g.parent item root >>= λ parent. ok (root, record g { parent = parent })

unfoldable pub against :
    Constraints
    → (human : Bool) → TrackletId
    → List TrackletId
    → Result LinkError (Option Violation)
against c human x [] = ok none
against c human x (y ∷ ys) = violation c x y human >>= λ v. elim v [
  | some reason ↦ ok (some reason)
  | none ↦ against c human x ys
]

-- The loops of `conflict` over the two lists of members.
unfoldable pub first_violation :
    Constraints
    → (human : Bool) → List TrackletId
    → List TrackletId
    → Result LinkError (Option Violation)
first_violation c human [] ys = ok none
first_violation c human (x ∷ xs) ys = against c human x ys >>= λ v. elim v [
  | some reason ↦ ok (some reason)
  | none ↦ first_violation c human xs ys
]

unfoldable pub conflict :
    Groups
    → (left right : TrackletId) → Constraints
    → (human : Bool) → Result LinkError (Option Violation × Groups)
conflict g left right c human = find g left >>= λ a. find a.1 right >>= λ b. elim (a.0 == b.0) [
  | true ↦ ok (some already_same_identity, b.1)
  | false ↦ lookup (get b.1.members a.0) >>= λ xs.
      lookup (get b.1.members b.0) >>= λ ys. first_violation c human xs ys >>= λ v. ok (v, b.1)
]

-- Of two roots in order. If they are one root, the list that is extended is no longer in the dictionary.
unfoldable pub join : Groups → (left_root right_root : TrackletId) → Result LinkError Groups
join g l r = lookup (get g.members l) >>= λ xs. lookup (get g.members r) >>= λ ys. ok (record {
  parent = put g.parent r l;
  members = if l == r then remove g.members r else put (remove g.members r) l (xs ++ ys);
})

unfoldable pub union : Groups → (left right : TrackletId) → Result LinkError Groups
union g left right = find g left >>= λ a.
    find a.1 right >>= λ b. if leb a.0 b.0 then join b.1 a.0 b.0 else join b.1 b.0 a.0

-- `sorted((left, right), key=lambda item: (by_id[item].start_frame, item))`
unfoldable pub in_order :
    Constraints → (left right : TrackletId) → Result LinkError (TrackletId × TrackletId)
in_order c left right = lookup (get c.summaries left) >>= λ a.
    lookup (get c.summaries right) >>= λ b. ok (
      if ltb b.start_frame a.start_frame || (b.start_frame == a.start_frame && ltb right left)
      then (right, left)
      else (left, right))

abbrev pub is_already : Violation → Bool
is_already already_same_identity = true
is_already _ = false

-- What follows the test of a must-link: redundant, an error, or a merge. The record of the link and of
-- its outcome is left out.
unfoldable pub apply_must_link :
    Option Violation × Groups → TrackletId × TrackletId → Result LinkError Groups
apply_must_link (none, g) (earlier, later) = union g earlier later
apply_must_link (some reason, g) (earlier, later) =
    if is_already reason then ok g else err (violates reason)

-- The loop of `resolve_identities` over the must-links of the reviewers.
unfoldable pub link_musts :
    Constraints → Groups → List (TrackletId × TrackletId × ℕ) → Result LinkError Groups
link_musts c g [] = ok g
link_musts c g ((left, right, sequence) ∷ rest) = in_order c left right >>= λ p.
    conflict g p.0 p.1 c true >>= λ t. apply_must_link t p >>= λ h. link_musts c h rest

-- What follows the test of a proposal: an abstention, or a merge. The record of either is left out.
unfoldable pub apply_proposal :
    Option Violation × Groups → TrackletId × TrackletId → Result LinkError Groups
apply_proposal (none, g) (earlier, later) = union g earlier later
apply_proposal (some reason, g) (earlier, later) = ok g

-- The loop of `resolve_identities` over the candidates that it proposes.
unfoldable pub link_proposals :
    Constraints → Groups → List (TrackletId × TrackletId) → Result LinkError Groups
link_proposals c g [] = ok g
link_proposals c g (p ∷ rest) =
    conflict g p.0 p.1 c false >>= λ t. apply_proposal t p >>= λ h. link_proposals c h rest

-- The groups of `resolve_identities`, from the eligible tracklets, the must-links and the proposals.
unfoldable pub merged :
    Constraints
    → (eligible : List TrackletId) → (must_links : List (TrackletId × TrackletId × ℕ))
    → (proposals : List (TrackletId × TrackletId)) → Result LinkError Groups
merged c eligible must_links proposals =
    link_musts c (new_groups eligible) must_links >>= λ g. link_proposals c g proposals
