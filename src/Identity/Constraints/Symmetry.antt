-- ===== src/Identity/Constraints/Symmetry.antt =====
-- The symmetry of the constraints of v2/src/footballai_v2/execution/ai2c/resolver.py.
use football_ai.Prelude.{
  ℕ, ◌≡◌, refl, ap, Bool, false, Option, none, some, List, [], ◌∷◌, any, arith, String, str_eq,
  eq_iff,
}
use football_ai.Prelude.Result.{ok, ◌>>=◌, ok_eq}
use football_ai.Identity.IdMap.{get}
use football_ai.Identity.Constraints.{
  Constraints, TrackletSummary, Violation, lookup, TeamLabel, violation, reason, overlap, in_pair,
  classes_differ, teams_differ,
}

str_eq_comm : (a b : String) → str_eq a b ≡ str_eq b a
str_eq_comm a b = grind (arith, eq_iff a b, eq_iff b a)

overlap_comm : (a b : TrackletSummary) → overlap a b ≡ overlap b a
overlap_comm a b = ground arith

cannot_comm : (l r : ℕ) (ps : List (ℕ × ℕ)) → any (in_pair l r) ps ≡ any (in_pair r l) ps
cannot_comm l r [] = refl
cannot_comm l r (p ∷ ps) = ground (arith, cannot_comm l r ps)

classes_comm : (a b : Option String) → classes_differ a b ≡ classes_differ b a
classes_comm (some a) (some b) = ground (arith, str_eq_comm a b)
classes_comm (some a) none = refl
classes_comm none (some b) = refl
classes_comm none none = refl

teams_comm : (a b : Option TeamLabel) → teams_differ a b ≡ teams_differ b a
teams_comm (some a) (some b) = ground arith
teams_comm (some a) none = refl
teams_comm none (some b) = refl
teams_comm none none = refl

reason_comm :
    (c : Constraints) (l r : ℕ) (o : Bool) (a b : TrackletSummary)
    → reason c l r o a b ≡ reason c r l o b a
unfolding reason
reason_comm c l r o a b = rw (overlap_comm a b) (
    rw (cannot_comm l r c.cannot) (
      rw (classes_comm a.semantic_class b.semantic_class)
        (rw (teams_comm (get c.teams l) (get c.teams r)) refl)))

module _ (f g : TrackletSummary → TrackletSummary → Option Violation) where
  checks_comm :
      (x y : Option TrackletSummary)
      → ((a b : TrackletSummary) → f a b ≡ g b a)
      → (lookup x >>= λ a. lookup y >>= λ b. ok (f a b))
        ≡ (lookup y >>= λ b. lookup x >>= λ a. ok (g b a))
  checks_comm (some a) (some b) h = ap ok (h a b)
  checks_comm (some a) none h = refl
  checks_comm none (some b) h = refl
  checks_comm none none h = refl

  checks_weaken :
      (x y : Option TrackletSummary)
      → ((a b : TrackletSummary) → f a b ≡ none → g a b ≡ none)
      → (lookup x >>= λ a. lookup y >>= λ b. ok (f a b)) ≡ ok none
      → (lookup x >>= λ a. lookup y >>= λ b. ok (g a b)) ≡ ok none
  checks_weaken (some a) (some b) h e = ap ok (h a b (ok_eq e))
  checks_weaken (some a) none h e = cc
  checks_weaken none y h e = cc

reason_override :
    (c : Constraints) (l r : ℕ) (o : Bool) (a b : TrackletSummary)
    → reason c l r false a b ≡ none
    → reason c l r o a b ≡ none
unfolding reason
reason_override c l r o a b h = ground arith

-- The constraints do not depend on the order of the two tracklets, down to the reason that is given.
pub violation_comm :
    (c : Constraints) (left right : ℕ) (o : Bool)
    → violation c left right o ≡ violation c right left o
unfolding violation
violation_comm c left right o =
    checks_comm (reason c left right o) (reason c right left o) (get c.summaries left)
      (get c.summaries right) (reason_comm c left right o)

-- What holds with the teams holds without them.
pub violation_override :
    (c : Constraints) (left right : ℕ) (o : Bool)
    → violation c left right false ≡ ok none
    → violation c left right o ≡ ok none
unfolding violation
violation_override c l r o h =
    checks_weaken (reason c l r false) (reason c l r o) (get c.summaries l) (get c.summaries r)
      (reason_override c l r o) h
