-- ===== src/Tests/Identity.antt =====
-- The corrections and the groups of v2/src/footballai_v2/execution/ai2c on a few tracklets.
use football_ai.Prelude.{
  ℕ, ◌*◌, ◌≡◌, refl, none, some, true, false, ◌⊎◌, List, [], ◌∷◌, ◌++◌, not, ◌==◌, ◌||◌, ◌&&◌,
  is_some, arith,
}
use football_ai.Prelude.Result.{ok, err}
use football_ai.Run.Text.Identifiers.{non_empty}
use football_ai.Identity.IdMap.{get, put, remove}
use football_ai.Identity.Corrections.{
  CorrectionEntry, CorrectionAction, must_link, cannot_link, exclude, revoke, live, filter,
  effective, revoked_of, links_of, EffectiveCorrections, sorted, is_must_link, is_cannot_link,
  validate_entry,
}
use football_ai.Identity.Corrections.Timestamp.{is_reviewer, is_timestamp}
use football_ai.Identity.Corrections.Revocation.{live-revoke}
use football_ai.Identity.Corrections.Consistency.{effective-consistent, decided}
use football_ai.Identity.Corrections.Exclusions.{first_exclude}
use football_ai.Identity.Constraints.{
  Constraints, TrackletSummary, violation, reason, temporal_overlap, team_a, team_b, violates,
}
use football_ai.Identity.Config.{validate_config, default_config, validate_summary}
use football_ai.Identity.Constraints.Symmetry.{violation_comm}
use football_ai.Identity.Groups.{
  Groups, merged, new_groups, link_musts, link_proposals, apply_proposal, apply_must_link, in_order,
  conflict, union, join, find, root_of, compress, first_violation, against,
}
use football_ai.Identity.Groups.Climbs.{Climbs}
use football_ai.Identity.Groups.Find.{SameRoots}
use football_ai.Identity.Groups.Separation.{Together, merged-separates, merged-find-total}

abbrev entry : ℕ → CorrectionAction → List ℕ → CorrectionEntry
entry n action ids = record {
  sequence = n;
  action = action;
  tracklet_ids = ids;
  reviewer = "reviewer-1";
  reviewed_at = "2026-11-06T10:00:00Z";
  reason = "same shirt";
  revokes_sequence = none;
}

abbrev entries : List CorrectionEntry
entries = entry 1 must_link (2 ∷ 1 ∷ []) ∷ entry 2 cannot_link (2 ∷ 3 ∷ []) ∷ []

abbrev withdrawal : CorrectionEntry
withdrawal = record (entry 3 revoke []) { revokes_sequence = some 1 }

valid_example : validate_entry (entry 1 must_link (2 ∷ 1 ∷ [])) ≡ ok tt
unfolding validate_entry is_reviewer is_timestamp non_empty
valid_example = refl

live-revoke_example :
    live (entries ++ withdrawal ∷ []) ≡ filter (λ x. not (1 == x.sequence)) (live entries)
live-revoke_example = live-revoke entries withdrawal 1 refl refl

-- The second exclude entry names 3 and 4, and the first is revoked.
abbrev reviewed : List CorrectionEntry
reviewed =
    entries
    ++ entry 3 exclude (4 ∷ [])
      ∷ entry 4 exclude (4 ∷ 3 ∷ [])
      ∷ record (entry 5 revoke []) { revokes_sequence = some 3 }
      ∷ []

abbrev decisions : EffectiveCorrections
decisions = record {
  must_links = (1, 2, 1) ∷ [];
  cannot_links = (2, 3, 2) ∷ [];
  excluded = (3, 4) ∷ (4, 4) ∷ [];
}

effective_example : effective reviewed ≡ ok decisions
unfolding effective live filter revoked_of links_of sorted
effective_example = refl

effective-consistent_example :
    ((decided is_must_link (live reviewed) 2 1
        && (decided is_cannot_link (live reviewed) 2 1
            || (is_some (first_exclude (live reviewed) 2)
                || is_some (first_exclude (live reviewed) 1))))
      ≡ false)
    × (get decisions.excluded 2 ≡ first_exclude (live reviewed) 2)
    × (decisions.must_links ≡ links_of is_must_link (live reviewed))
    × (decisions.cannot_links ≡ links_of is_cannot_link (live reviewed))
effective-consistent_example = effective-consistent reviewed decisions 2 1 effective_example

abbrev tracklet : (id from to : ℕ) → ℕ × TrackletSummary
tracklet id from to = (
  id,
  record {
    tracklet_id = id;
    semantic_class = some "person";
    start_frame = from;
    end_frame = to;
    start_time_seconds = from * 40_000;
    end_time_seconds = to * 40_000;
    observation_count = none;
  },
)

abbrev constraints : Constraints
constraints = record {
  summaries = tracklet 1 0 10 ∷ tracklet 2 20 30 ∷ tracklet 3 40 50 ∷ tracklet 4 25 45 ∷ [];
  cannot = [];
  teams = [];
}

violation_comm_example : violation constraints 2 4 false ≡ violation constraints 4 2 false
violation_comm_example = violation_comm constraints 2 4 false

groups : Unit {0}
unfolding merged new_groups link_musts link_proposals apply_proposal apply_must_link in_order
    conflict union join find root_of compress first_violation against violation reason get put
    remove
groups = tt

abbrev one_group : Groups
one_group = record { parent = (1, 1) ∷ (2, 1) ∷ (3, 1) ∷ []; members = (1, 1 ∷ 2 ∷ 3 ∷ []) ∷ [] }

merged_example : merged constraints (1 ∷ 2 ∷ 3 ∷ []) [] ((1, 2) ∷ (2, 3) ∷ []) ≡ ok one_group
unfolding groups
merged_example = refl

overlap_example :
    merged constraints (1 ∷ 2 ∷ 3 ∷ 4 ∷ []) ((4, 2, 1) ∷ []) [] ≡ err (violates temporal_overlap)
unfolding groups
overlap_example = refl

-- The reviewer links two tracklets of different teams; of the two proposals, the second is refused.
abbrev teamed : Constraints
teamed = record constraints { teams = (1, team_a) ∷ (2, team_b) ∷ [] }

abbrev reviewed_group : Groups
reviewed_group = record {
  parent = (1, 1) ∷ (2, 1) ∷ (3, 1) ∷ (4, 4) ∷ [];
  members = (1, 1 ∷ 2 ∷ 3 ∷ []) ∷ (4, 4 ∷ []) ∷ [];
}

reviewed_example :
    merged teamed (1 ∷ 2 ∷ 3 ∷ 4 ∷ []) ((2, 1, 1) ∷ []) ((2, 3) ∷ (3, 4) ∷ []) ≡ ok reviewed_group
unfolding groups
reviewed_example = refl

refused_example : merged teamed (1 ∷ 2 ∷ []) [] ((1, 2) ∷ []) ≡ ok (new_groups (1 ∷ 2 ∷ []))
unfolding groups
refused_example = refl

find_example : find reviewed_group 1 ≡ ok (1, reviewed_group)
unfolding groups
find_example = refl

find_other_example : find reviewed_group 2 ≡ ok (1, reviewed_group)
unfolding groups
find_other_example = refl

merged-separates_example :
    (g₀ : Groups) × (link_musts teamed (new_groups (1 ∷ 2 ∷ 3 ∷ 4 ∷ [])) ((2, 1, 1) ∷ []) ≡ ok g₀)
    × (violation teamed 1 2 true ≡ ok none)
    × ((violation teamed 1 2 false ≡ ok none) ⊎ Together g₀ 1 2)
merged-separates_example =
    merged-separates teamed (1 ∷ 2 ∷ 3 ∷ 4 ∷ []) ((2, 1, 1) ∷ []) ((2, 3) ∷ (3, 4) ∷ [])
      reviewed_group reviewed_group reviewed_group 1 2 1 reviewed_example find_example
      find_other_example (λ e. omega (arith, e))

parent_example : get one_group.parent 3 ≡ some 1
unfolding groups
parent_example = refl

merged-find-total_example :
    (r : ℕ) × (h : Groups) × (find one_group 3 ≡ ok (r, h))
    × Climbs one_group.parent 3 r
    × (get one_group.parent r ≡ some r)
    × SameRoots one_group.parent h.parent
    × (h.members ≡ one_group.members)
merged-find-total_example =
    merged-find-total constraints (1 ∷ 2 ∷ 3 ∷ []) [] ((1, 2) ∷ (2, 3) ∷ []) one_group 3 1
      merged_example parent_example

config_example : validate_config default_config ≡ ok tt
unfolding validate_config non_empty
config_example = refl

summary_example : validate_summary (tracklet 1 0 10).1 ≡ ok tt
unfolding validate_summary non_empty
summary_example = refl
