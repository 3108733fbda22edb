-- ===== src/Copilot/Agent/Trace/Public.antt =====
-- The public projection of a trace: `publish_trace` of v2/src/footballai_v2/copilot/agent/trace.py. The names of
-- the model and of the versions are constants of a deployment, and are left out.
use football_ai.Prelude.{ℕ, String, Option, none, some, List}
use football_ai.Copilot.Claims.{ModelMode, offline_demo_fake, real_model, not_invoked}
use football_ai.Copilot.Agent.Tools.Names.{ToolErrorCode}
use football_ai.Copilot.Agent.Trace.{AgentTrace}
use football_ai.Copilot.Agent.Trace.Records.{
  AgentStopReason, ErrorCode, provider_code, tool_code, ToolCallTrace,
}

pub data AgentAdapter : Type 0 where
  offline_scripted real_adapter : AgentAdapter

-- `AgentAdapter.for_mode`: `none` where it raises `ValueError`
abbrev pub for_mode : ModelMode → Option AgentAdapter
for_mode offline_demo_fake = some offline_scripted
for_mode real_model = some real_adapter
for_mode not_invoked = none

pub record PublicAgentTrace : Type 0 where
  pub correlation_id : String
  pub run_id : String
  pub adapter : AgentAdapter
  pub model_mode : ModelMode
  pub termination : AgentStopReason
  pub tool_error_code : Option ToolErrorCode
  pub duration : ℕ
  pub model_turns : ℕ
  pub model_turn_limit : ℕ
  pub tool_call_limit : ℕ
  pub tool_calls : List ToolCallTrace
  pub tool_calls_refused : ℕ
  pub claim_ids_returned : List String
  pub claim_ids_selected : List String
  pub claim_ids_rendered : List String
  pub selected_ids_rejected : ℕ

-- Failures of the provider stay internal.
abbrev pub public_error : Option ErrorCode → Option ToolErrorCode
public_error none = none
public_error (some (provider_code kind)) = none
public_error (some (tool_code code)) = some code

unfoldable pub publish_trace :
    AgentTrace → AgentAdapter → (max_model_turns max_tool_calls : ℕ) → PublicAgentTrace
publish_trace t adapter max_model_turns max_tool_calls = record {
  correlation_id = t.correlation_id;
  run_id = t.run_id;
  adapter = adapter;
  model_mode = t.model_mode;
  termination = t.termination;
  tool_error_code = public_error t.error_code;
  duration = t.duration;
  model_turns = t.model_turns;
  model_turn_limit = max_model_turns;
  tool_call_limit = max_tool_calls;
  tool_calls = t.tool_calls;
  tool_calls_refused = t.tool_calls_refused;
  claim_ids_returned = t.claim_ids_returned;
  claim_ids_selected = t.claim_ids_selected;
  claim_ids_rendered = t.claim_ids_rendered;
  selected_ids_rejected = t.selected_ids_rejected;
}
