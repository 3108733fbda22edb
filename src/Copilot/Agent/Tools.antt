-- ===== src/Copilot/Agent/Tools.antt =====
-- v2/src/footballai_v2/copilot/agent/tools.py: the closed registry of tools. `dumps` is `json.dumps` of the
-- arguments, `none` where it raises, and `payload_json` the serialized payload; nothing is assumed of
-- either. A handler that raises is `none`.
pub mod Execution
pub mod Names
use Prim.Native.String.{count}
use football_ai.Prelude.{
  ℕ, zero, suc, String, String-discrete, Bool, true, false, not, ◌&&◌, ◌||◌, Option, none, some,
  is_some, List, [], ◌∷◌, all, any, map, is_empty, leb, ◌==◌, length, member, same, str_eq,
  if◌then◌else◌,
}
use football_ai.Prelude.Dict
use football_ai.Run.Json.{Json, null, object, end}
use football_ai.Run.Text.{fold, after, somewhere}
use football_ai.Run.Text.Identifiers.{codes, matches, repeat, is_hex, dash}
use football_ai.Copilot.Claims.{EvidenceClaim, EvidenceClaim-discrete, OutputNature}
use football_ai.Copilot.Grounding.{keep, by_id, output_nature_id}
use football_ai.Copilot.Agent.Tools.Names.{
  duplicate_call, get_artifact_metadata, get_model_provenance, get_run_status,
  get_tracking_diagnostics, invalid_arguments, invalid_tool_output, tool_failed, unknown_tool,
  ToolCallStatus, ToolErrorCode, ToolName, cross_run_reference, failed, get_evidence_limitations,
  has_tool, is_rejected, no_evidence, ok, rejected, same_tool, tool_code, tool_names, tool_value,
}

pub record ToolSpec : Type 0 where
  pub name : ToolName
  pub claims : List String
  pub handler : List EvidenceClaim → Option (List EvidenceClaim)

-- `_claims_owned_by`
unfoldable pub claims_owned_by : List String → List EvidenceClaim → Option (List EvidenceClaim)
claims_owned_by owned catalog = some (keep (λ c. member String-discrete c.claim_id owned) catalog)

abbrev tool : ToolName → List String → ToolSpec
tool name owned = record { name = name; claims = owned; handler = claims_owned_by owned }

-- `READ_ONLY_TOOLS`, less the descriptions
abbrev pub read_only_tools : List ToolSpec
read_only_tools =
    tool get_run_status (output_nature_id ∷ "run_status" ∷ [])
    ∷ tool get_tracking_diagnostics (
        "diag_tracking" ∷ "diag_legacy_tracking" ∷ "diag_synthetic" ∷ "diag_assignment"
        ∷ "diag_duration" ∷ "diag_active" ∷ "diag_short_tracklets" ∷ "diag_insufficient"
        ∷ "diag_interpretation" ∷ "diag_ground_truth" ∷ "diag_reliability_scope" ∷ [])
    ∷ tool get_artifact_metadata ("artifact_integrity" ∷ [])
    ∷ tool get_model_provenance
        ("provenance" ∷ "model_references" ∷ "model_details" ∷ "source_duration" ∷ [])
    ∷ tool get_evidence_limitations ("missing_evidence" ∷ "no_missing_evidence" ∷ "boundaries" ∷ [])
    ∷ []

-- `_RUN_REFERENCE_RE` at the head of folded code points
reference_here : List ℕ → Bool
unfolding after matches repeat
reference_here cs =
    is_some (after (codes "run") cs) || is_some (after (codes "analysis") cs) || uuid_here cs
  where
    take : ℕ → List ℕ → List ℕ
    take zero cs = []
    take (suc n) [] = []
    take (suc n) (c ∷ cs) = c ∷ take n cs

    uuid_here : List ℕ → Bool
    uuid_here cs =
        matches
          (repeat 8 is_hex (
            dash
            ∷ repeat 4 is_hex
                (dash ∷ repeat 4 is_hex (dash ∷ repeat 4 is_hex (dash ∷ repeat 12 is_hex [])))))
          (take 36 cs)

-- `_RUN_REFERENCE_RE.search`
unfoldable pub names_a_run : String → Bool
unfolding fold somewhere reference_here
names_a_run s = somewhere reference_here (map fold (codes s))

-- Whether the arguments are `{}`, the only value that `NoInput` admits.
abbrev pub is_no_input : Json → Bool
is_no_input (object end) = true
is_no_input _ = false

abbrev is_nothing : Json → Bool
is_nothing null = true
is_nothing arguments = is_no_input arguments

abbrev dumped : Option String → Bool
dumped none = false
dumped (some text) = names_a_run text

pub record ToolExecution : Type 0 where
  pub tool : Option ToolName
  pub status : ToolCallStatus
  pub content : String
  pub claims : List EvidenceClaim
  pub error_code : Option ToolErrorCode

-- `json.dumps({"error": code.value})`
abbrev error_content : ToolErrorCode → String
error_content unknown_tool = "{\"error\": \"unknown_tool\"}"
error_content invalid_arguments = "{\"error\": \"invalid_arguments\"}"
error_content duplicate_call = "{\"error\": \"duplicate_call\"}"
error_content tool_failed = "{\"error\": \"tool_failed\"}"
error_content invalid_tool_output = "{\"error\": \"invalid_tool_output\"}"
error_content cross_run_reference = "{\"error\": \"cross_run_reference\"}"

-- `_rejected`
abbrev pub refused : Option ToolName → ToolErrorCode → ToolCallStatus → ToolExecution
refused tool code status = record {
  tool = tool;
  status = status;
  content = error_content code;
  claims = [];
  error_code = some code;
}

-- The bounds of `ToolClaim`
abbrev claim_fits : EvidenceClaim → Bool
claim_fits c =
    leb 1 (count c.claim_id)
    && leb (count c.claim_id) 64
    && leb 1 (count c.text)
    && leb (count c.text) 4_000
    && not (is_empty c.citations)

pub record ToolRegistry : Type 0 where
  pub output_nature : OutputNature
  pub catalog : List EvidenceClaim
  pub specs : List ToolSpec
  pub called : List ToolName

-- The check of `ToolRegistry.__init__`: exactly the approved tools.
unfoldable pub is_approved_registry : List ToolSpec → Bool
is_approved_registry specs =
    all (λ t. any (λ s. same_tool s.name t) specs) tool_names && length specs == length tool_names

unfoldable pub find_spec : List ToolSpec → String → Option ToolSpec
find_spec [] name = none
find_spec (s ∷ rest) name = if str_eq (tool_value s.name) name then some s else find_spec rest name

abbrev is_exactly : Option EvidenceClaim → EvidenceClaim → Bool
is_exactly none c = false
is_exactly (some d) c = same EvidenceClaim-discrete d c

-- `_approved`
unfoldable pub approved : ToolRegistry → ToolSpec → List EvidenceClaim → Bool
approved r spec claims =
    all
      (λ c.
        member String-discrete c.claim_id spec.claims
        && is_exactly (Dict.get (by_id r.catalog) c.claim_id) c)
      claims

module _ (dumps : Json → Option String)
    (payload_json : ToolName → ToolCallStatus → OutputNature → List EvidenceClaim → String) where
  unfoldable pub references_a_run : Json → Bool
  references_a_run arguments = if is_nothing arguments then false else dumped (dumps arguments)

  -- What follows a call of the handler.
  unfoldable pub finish_call : ToolRegistry → ToolSpec → Option (List EvidenceClaim) → ToolExecution
  finish_call r spec none = refused (some spec.name) tool_failed failed
  finish_call r spec (some claims) =
      if not (approved r spec claims) || not (all claim_fits claims)
      then refused (some spec.name) invalid_tool_output failed
      else let status = if is_empty claims then no_evidence else ok in
        record {
          tool = some spec.name;
          status = status;
          content = payload_json spec.name status r.output_nature claims;
          claims = claims;
          error_code = none;
        }

  -- A call of a tool that the registry has.
  unfoldable pub execute_spec : ToolRegistry → ToolSpec → Json → ToolExecution × ToolRegistry
  execute_spec r spec arguments =
      if not (is_no_input arguments)
      then (refused (some spec.name) invalid_arguments rejected, r)
      else if has_tool r.called spec.name
      then (refused (some spec.name) duplicate_call rejected, r)
      else (finish_call r spec (spec.handler r.catalog), record r { called = spec.name ∷ r.called })

  -- `ToolRegistry.execute`
  unfoldable pub execute :
      ToolRegistry → (name : String) → (arguments : Json) → ToolExecution × ToolRegistry
  execute r name arguments = elim (find_spec r.specs name) [
    | none ↦ (refused none unknown_tool rejected, r)
    | some spec ↦ execute_spec r spec arguments
  ]
