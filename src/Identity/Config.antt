-- ===== src/Identity/Config.antt =====
-- `ResolverConfig` of v2/src/footballai_v2/execution/ai2c/resolver.py, and the checks of
-- `TrackletSummary` of v2/src/footballai_v2/execution/ai2c/inputs.py, but for the boxes. A float is a
-- whole number of millionths or not finite.
use football_ai.Prelude.{
  ℕ, String, Bool, true, false, not, ◌&&◌, ◌||◌, Option, none, some, List, [], ◌∷◌, is_empty, all,
  leb, ltb, ◌==◌,
}
use football_ai.Prelude.Result.{Result, raise_if, ◌>>◌}
use football_ai.Run.Json.{Number, finite, not_finite, pos, negsuc}
use football_ai.Run.Text.Identifiers.{non_empty}
use football_ai.Identity.Constraints.{TrackletSummary}

pub data ResolverMode : Type 0 where
  review_only temporal_only temporal_kinematic : ResolverMode

pub record ResolverConfig : Type 0 where
  pub mode : ResolverMode
  pub max_gap_seconds : Number
  pub static_allowance_heights : Number
  pub max_speed_heights_per_second : Number
  pub max_scale_ratio : Number
  pub min_ambiguity_margin : Number
  pub team_conflict_confidence : Number
  pub shot_cut_min_births : Option ℕ
  pub eligible_semantic_classes : List String

pub data ConfigError : Type 0 where
  not_positive scale_below_one margin_out_of_range confidence_out_of_range too_few_births no_classes
        empty_class frames_reversed extents_disagree times_reversed no_observations
        single_observation_spans :
      ConfigError

-- `math.isfinite(value) and value > 0`
abbrev is_positive : Number → Bool
is_positive (finite (pos n)) = ltb 0 n
is_positive (finite (negsuc n)) = false
is_positive not_finite = false

abbrev holds : (ℕ → Bool) → Number → Bool
holds p (finite (pos n)) = p n
holds p (finite (negsuc n)) = false
holds p not_finite = false

abbrev enough_births : Option ℕ → Bool
enough_births none = true
enough_births (some n) = leb 2 n

-- `ResolverConfig.__post_init__`
unfoldable pub validate_config : ResolverConfig → Result ConfigError (Unit {0})
validate_config c =
    raise_if (not (is_positive c.max_gap_seconds)) not_positive
    >> (raise_if (not (is_positive c.static_allowance_heights)) not_positive
        >> (raise_if (not (is_positive c.max_speed_heights_per_second)) not_positive
            >> (raise_if (not (is_positive c.max_scale_ratio)) not_positive
                >> (raise_if (not (holds (λ n. leb 1_000_000 n) c.max_scale_ratio)) scale_below_one
                    >> (raise_if (not (holds (λ n. ltb n 1_000_000) c.min_ambiguity_margin))
                          margin_out_of_range
                        >> (raise_if
                              (not (
                                holds (λ n. ltb 0 n && leb n 1_000_000) c.team_conflict_confidence))
                              confidence_out_of_range
                            >> (raise_if (not (enough_births c.shot_cut_min_births)) too_few_births
                                >> raise_if
                                    (is_empty c.eligible_semantic_classes
                                      || not (all non_empty c.eligible_semantic_classes))
                                    no_classes)))))))

abbrev is_class : Option String → Bool
is_class none = true
is_class (some s) = non_empty s

abbrev observed : Option ℕ → Bool
observed none = true
observed (some n) = leb 1 n

abbrev is_single : Option ℕ → Bool
is_single none = false
is_single (some n) = n == 1

abbrev agree : Bool → Bool → Bool
agree true b = b
agree false b = not b

-- `TrackletSummary.__post_init__`
unfoldable pub validate_summary : TrackletSummary → Result ConfigError (Unit {0})
validate_summary t =
    raise_if (not (is_class t.semantic_class)) empty_class
    >> (raise_if (ltb t.end_frame t.start_frame) frames_reversed
        >> (raise_if (ltb t.end_time_seconds t.start_time_seconds) times_reversed
            >> (raise_if
                  (not (
                    agree (t.start_frame == t.end_frame)
                      (t.start_time_seconds == t.end_time_seconds)))
                  extents_disagree
                >> (raise_if (not (observed t.observation_count)) no_observations
                    >> raise_if
                        (is_single t.observation_count && not (t.start_frame == t.end_frame))
                        single_observation_spans))))

-- `ResolverConfig()`
abbrev pub default_config : ResolverConfig
default_config = record {
  mode = review_only;
  max_gap_seconds = finite (pos 1_000_000);
  static_allowance_heights = finite (pos 1_000_000);
  max_speed_heights_per_second = finite (pos 3_000_000);
  max_scale_ratio = finite (pos 1_600_000);
  min_ambiguity_margin = finite (pos 200_000);
  team_conflict_confidence = finite (pos 800_000);
  shot_cut_min_births = some 8;
  eligible_semantic_classes = "person" ∷ [];
}
