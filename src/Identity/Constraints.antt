-- ===== src/Identity/Constraints.antt =====
-- v2/src/footballai_v2/execution/ai2c/resolver.py: `_Constraints`, the pairwise hard constraints, over
-- the summaries of v2/src/footballai_v2/execution/ai2c/inputs.py. Times are in microseconds, a
-- confidence in millionths. The boxes of a summary are left out: only `_features` reads them.
pub mod Symmetry
use football_ai.Prelude.{
  ℕ, ◌≤◌, String, Bool, true, false, not, ◌&&◌, ◌||◌, Option, none, some, List, [], ◌∷◌, leb, ◌==◌,
  any, if◌then◌else◌, str_eq,
}
use football_ai.Prelude.Result.{Result, ok, err, ◌>>=◌}
use football_ai.Identity.IdMap.{IdMap, get}
use football_ai.Identity.Corrections.{TrackletId}

pub record TrackletSummary : Type 0 where
  pub tracklet_id : TrackletId
  pub semantic_class : Option String
  pub start_frame : ℕ
  pub end_frame : ℕ
  pub start_time_seconds : ℕ
  pub end_time_seconds : ℕ
  pub observation_count : Option ℕ

pub data TeamLabel : Type 0 where
  team_a team_b unknown : TeamLabel

pub record TeamEvidence : Type 0 where
  pub team : TeamLabel
  pub confidence : ℕ
  pub method : String

pub data Violation : Type 0 where
  temporal_overlap explicit_cannot_link semantic_class_mismatch confident_team_conflict
        already_same_identity :
      Violation

-- `key_error`: a dictionary has no such id. `does_not_end`: the fuel of a search ran out.
-- `violates`: a must-link breaks a hard constraint.
pub data LinkError : Type 0 where
  key_error does_not_end : LinkError
  violates : Violation → LinkError

-- A frozenset of two ids is the pair in order.
pub record Constraints : Type 0 where
  pub summaries : IdMap TrackletSummary
  pub cannot : List (TrackletId × TrackletId)
  pub teams : IdMap TeamLabel

abbrev is_confident : ℕ → TeamEvidence → Bool
is_confident team_confidence e = elim e.team [
  | unknown ↦ false
  | _ ↦ leb team_confidence e.confidence
]

-- `self._teams` of `_Constraints.__init__`
unfoldable pub confident_teams : IdMap TeamEvidence → (team_confidence : ℕ) → IdMap TeamLabel
confident_teams [] team_confidence = []
confident_teams ((i, e) ∷ m) team_confidence =
    let rest = confident_teams m team_confidence in
    if is_confident team_confidence e then (i, e.team) ∷ rest else rest

abbrev pub lookup {ℓ} : {V : Type ℓ} → Option V → Result LinkError V
lookup none = err key_error
lookup (some v) = ok v

abbrev pub overlap : TrackletSummary → TrackletSummary → Bool
overlap a b = leb a.start_frame b.end_frame && leb b.start_frame a.end_frame

abbrev pub in_pair : TrackletId → TrackletId → TrackletId × TrackletId → Bool
in_pair left right p = (p.0 == left && p.1 == right) || (p.0 == right && p.1 == left)

-- `a and b and a != b`, of texts
abbrev pub classes_differ : Option String → Option String → Bool
classes_differ (some a) (some b) = not (str_eq a "") && not (str_eq b "") && not (str_eq a b)
classes_differ _ _ = false

abbrev team_code : TeamLabel → ℕ
team_code team_a = 0
team_code team_b = 1
team_code unknown = 2

abbrev pub teams_differ : Option TeamLabel → Option TeamLabel → Bool
teams_differ (some a) (some b) = not (team_code a == team_code b)
teams_differ _ _ = false

unfoldable pub reason :
    Constraints
    → (left right : TrackletId) → (allow_team_override : Bool) → (a b : TrackletSummary)
    → Option Violation
reason c left right allow_team_override a b =
    if overlap a b
    then some temporal_overlap
    else if any (in_pair left right) c.cannot
    then some explicit_cannot_link
    else if classes_differ a.semantic_class b.semantic_class
    then some semantic_class_mismatch
    else if not allow_team_override && teams_differ (get c.teams left) (get c.teams right)
    then some confident_team_conflict
    else none

-- `_Constraints.violation`
unfoldable pub violation :
    Constraints
    → (left right : TrackletId) → (allow_team_override : Bool) → Result LinkError (Option Violation)
violation c left right allow_team_override = lookup (get c.summaries left) >>= λ a.
    lookup (get c.summaries right) >>= λ b. ok (reason c left right allow_team_override a b)
