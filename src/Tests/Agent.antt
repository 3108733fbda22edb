-- ===== src/Tests/Agent.antt =====
-- The answers of v2/src/footballai_v2/copilot over one run: the selection, the explanation without tools,
-- and the agent with a model that calls one tool and then selects what it returned.
use football_ai.Prelude.{
  String-discrete, ℕ, ◌*◌, ◌≡◌, ◌≤◌, refl, String, false, Option, none, some, ◌⊎◌, List, [], ◌∷◌,
  ◌==◌, arith, if◌then◌else◌,
}
use football_ai.Prelude.Result.{Result, ok}
use football_ai.Prelude.Dict
use football_ai.Run.Json.{object, end}
use football_ai.Copilot.Claims.{
  EvidenceClaim-discrete, Citation, EvidenceClaim, EvidenceArtifact, ValidatedRunEvidence,
  real_model, verified_real, artifact_of, supported, ExplanationResponse,
}
use football_ai.Copilot.Provider.{replied}
use football_ai.Copilot.Grounding.{
  QuestionRoute, QuestionScope, claims_to_render, max_answer_chars, text_length, render_claims,
  select, add_by_id, with_label, can_answer, fit, join_texts, citations_of, put_citations,
  put_citation, validate_citations, validate_citation, validate_artifact_of, validate_source,
  eligible_claims, keep,
}
use football_ai.Copilot.Grounding.Selection.{
  IsGrounded, claims_to_render-IsGrounded, claims_to_render-length,
}
use football_ai.Copilot.Explain.{
  explain, after_generation, publish, support_level_for, Generation, generated,
}
use football_ai.Copilot.Explain.Published.{IsPublished, explain-IsPublished}
use football_ai.Copilot.Agent.Tools.{
  is_approved_registry, references_a_run, execute, execute_spec, finish_call, find_spec, approved,
  claims_owned_by, read_only_tools,
}
use football_ai.Copilot.Agent.Tools.Names.{ToolName, ToolCallStatus}
use football_ai.Copilot.Agent.Trace.{
  record_turn, record_tool, add_keys, build_trace, count_calls, sum_of, usage_source,
}
use football_ai.Copilot.Agent.Trace.Records.{
  AgentStopReason, UsageSource, ModelTurnTrace, ToolCallTrace, no_usage,
}
use football_ai.Copilot.Agent.Conversation.{
  turns, follow, model_turn, after_call, turn_recorded, refusal, run_tools, tool_recorded,
  answer_calls, with_peak,
}
use football_ai.Copilot.Agent.Loop.{tick, Agent, AgentReply}
use football_ai.Copilot.Agent.Answer.{
  converse, conclude, ground_selection, grounded, checked, finish, answer_routed, AgentResult,
  AgentError, answer, catalog_for,
}
use football_ai.Copilot.Agent.Invariant.Bounds.{IsWithin}
use football_ai.Copilot.Agent.Invariant.Distinct.{IsDistinct, tools_run}
use football_ai.Copilot.Agent.Results.{
  IsSourced, answer-IsWithin, answer-IsDistinct, answer-IsSourced, answer-cases, IsAnswered,
  IsUnanswered,
}

abbrev cited : String → Citation
cited field = record {
  run_id = "run-1";
  field_path = field;
  artifact_id = some "a1";
  schema_version = none;
  source_sha256 = some "00ff";
}

abbrev label : EvidenceClaim
label = record {
  claim_id = "output_nature";
  text = "Real output.";
  citations = cited "is_synthetic" ∷ [];
}

abbrev status_claim : EvidenceClaim
status_claim = record {
  claim_id = "run_status";
  text = "The run succeeded.";
  citations = cited "status" ∷ [];
}

abbrev catalog : List EvidenceClaim
catalog = label ∷ status_claim ∷ []

abbrev route : QuestionRoute
route = record { scope = QuestionScope.supported; claims = "run_status" ∷ [] }

abbrev artifact : EvidenceArtifact
artifact = record {
  artifact_id = "a1";
  name = "manifest";
  category = "report";
  relative_path = "manifest.json";
  media_type = "application/json";
  size_bytes = 12;
  sha256 = "00ff";
  schema_version = none;
  integrity_state = "verified";
}

abbrev pub evidence : ValidatedRunEvidence
evidence = record {
  run_id = "run-1";
  status = "succeeded";
  pipeline_profile = "ai1";
  pipeline_version = "2";
  data_origin = "real";
  created_at = "2025-01-01T00:00:00Z";
  started_at = none;
  completed_at = none;
  is_synthetic = false;
  output_nature = verified_real;
  synthetic_explanation = "";
  source_video = end;
  models = [];
  code = end;
  artifacts = artifact ∷ [];
  diagnostics = none;
  diagnostics_schema = none;
  diagnostics_artifact_id = none;
  diagnostics_sha256 = none;
  limitations = [];
  missing_evidence = [];
  field_paths = "status" ∷ "is_synthetic" ∷ [];
}

-- What the selection of the status shows.
shown_example :
    claims_to_render catalog ("run_status" ∷ []) route ≡ ok (some (label ∷ status_claim ∷ []))
unfolding claims_to_render select add_by_id Dict.get Dict.put with_label can_answer fit
    String-discrete
shown_example = refl

claims_to_render-IsGrounded_example :
    IsGrounded catalog ("run_status" ∷ []) route (label ∷ status_claim ∷ [])
claims_to_render-IsGrounded_example =
    claims_to_render-IsGrounded catalog ("run_status" ∷ []) route (label ∷ status_claim ∷ [])
      shown_example

claims_to_render-length_example :
    text_length (render_claims (label ∷ status_claim ∷ [])).0 ≤ max_answer_chars
claims_to_render-length_example =
    claims_to_render-length catalog ("run_status" ∷ []) route label (status_claim ∷ [])
      shown_example (omega arith)

abbrev router : Option String → QuestionRoute
router question = route

abbrev build_claim_catalog : ValidatedRunEvidence → List EvidenceClaim
build_claim_catalog e = catalog

abbrev generate : List EvidenceClaim → Generation
generate claims = generated real_model ("run_status" ∷ [])

abbrev response : ExplanationResponse
response = record {
  run_id = "run-1";
  answer = "Real output. The run succeeded.";
  support_level = supported;
  output_nature = verified_real;
  model_mode = real_model;
  citations = cited "is_synthetic" ∷ cited "status" ∷ [];
  limitations = [];
  unavailable_reason = none;
}

explained_example :
    explain router build_claim_catalog real_model generate evidence none ≡ ok response
unfolding explain after_generation publish claims_to_render select add_by_id Dict.get Dict.put
    with_label can_answer fit String-discrete render_claims join_texts citations_of put_citations
    put_citation validate_citations validate_citation validate_artifact_of validate_source
    artifact_of eligible_claims keep support_level_for
explained_example = refl

explain-IsPublished_example : IsPublished evidence response
explain-IsPublished_example =
    explain-IsPublished router build_claim_catalog real_model generate evidence none response
      explained_example

-- The first turn calls a tool, the second selects.
abbrev reply_at : ℕ → AgentReply (Unit {0})
reply_at turn = record {
  assistant_content = tt;
  tool_calls =
      if turn == 0
      then record { call_id = "c1"; name = "get_run_status"; arguments = object end } ∷ []
      else [];
  claim_ids = if turn == 0 then [] else "run_status" ∷ [];
}

abbrev pub agent : Agent (Unit {0})
agent = record {
  limits = record {
    max_tool_calls = 4;
    max_model_turns = 5;
    model_timeout = 20_000_000;
    total_timeout = 45_000_000;
  };
  max_prompt_chars = 24_000;
  max_output_tokens = 1_000;
  tools = read_only_tools;
  mode = real_model;
  price = none;
  clock = λ n. n * 1_000;
  complete = λ turn request. replied (reply_at turn) none;
  router = router;
  build_claim_catalog = build_claim_catalog;
  user_message = λ e question. "{}";
  opening_chars = λ e question. 9_000;
  dumps = λ arguments. none;
  payload_json = λ tool status nature claims. "{}";
}

abbrev outcome : Result AgentError AgentResult
outcome = answer agent "f0" "run-1" evidence none none

abbrev turn_at : ℕ → ModelTurnTrace
turn_at turn = record {
  turn = turn;
  duration = 1_000;
  stop_reason = none;
  request_id = none;
  usage = none;
  aborted = false;
  refusal_category = none;
}

abbrev call : ToolCallTrace
call = record {
  sequence = 1;
  turn = 1;
  tool = some ToolName.get_run_status;
  status = ToolCallStatus.ok;
  duration = 1_000;
  claim_ids_returned = "output_nature" ∷ "run_status" ∷ [];
  error_code = none;
}

abbrev pub result : AgentResult
result = record {
  response = response;
  trace = record {
    correlation_id = "f0";
    run_id = "run-1";
    model_mode = real_model;
    termination = AgentStopReason.answered;
    error_code = none;
    duration = 9_000;
    model_turns = 2;
    turns = turn_at 1 ∷ turn_at 2 ∷ [];
    tool_calls = call ∷ [];
    tool_calls_refused = 0;
    claim_ids_returned = "output_nature" ∷ "run_status" ∷ [];
    claim_ids_selected = "run_status" ∷ [];
    claim_ids_rendered = "output_nature" ∷ "run_status" ∷ [];
    selected_ids_rejected = 0;
    usage = no_usage;
    usage_complete = false;
    usage_source = UsageSource.unavailable;
    estimated_cost = none;
    cost_is_lower_bound = false;
    valid_tool_calls = 1;
    invalid_tool_calls = 0;
    model_call_duration = 2_000;
    tool_call_duration = 1_000;
    peak_prompt_chars = 9_002;
  };
}

answer_example : outcome ≡ ok result
unfolding answer answer_routed is_approved_registry converse conclude ground_selection grounded
    checked finish turns follow model_turn after_call turn_recorded refusal run_tools tool_recorded
    answer_calls tick with_peak record_turn record_tool add_keys build_trace count_calls sum_of
    usage_source references_a_run execute execute_spec finish_call find_spec approved
    claims_owned_by EvidenceClaim-discrete claims_to_render select add_by_id Dict.get Dict.put
    with_label can_answer fit String-discrete render_claims join_texts citations_of put_citations
    put_citation validate_citations validate_citation validate_artifact_of validate_source
    artifact_of eligible_claims keep support_level_for
answer_example = refl

answer-IsWithin_example : IsWithin agent.limits (turn_at 1 ∷ turn_at 2 ∷ []) (call ∷ [])
answer-IsWithin_example =
    answer-IsWithin agent "f0" "run-1" evidence none none result answer_example

answer-IsDistinct_example : IsDistinct (tools_run (call ∷ []))
answer-IsDistinct_example =
    answer-IsDistinct agent "f0" "run-1" evidence none none result answer_example

answer-IsSourced_example : IsSourced (catalog_for agent evidence none) result.trace
answer-IsSourced_example =
    answer-IsSourced agent "f0" "run-1" evidence none none result answer_example

answer-cases_example :
    (IsAnswered evidence "run-1" result ⊎ IsUnanswered result) × (response.model_mode ≡ real_model)
answer-cases_example = answer-cases agent "f0" "run-1" evidence none none result answer_example
