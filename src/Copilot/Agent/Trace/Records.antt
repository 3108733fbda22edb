-- ===== src/Copilot/Agent/Trace/Records.antt =====
-- The records of v2/src/footballai_v2/copilot/agent/trace.py.

use football_ai.Prelude.{ℕ, String, Bool, true, false, Option, List, [], length}
use football_ai.Copilot.Pricing.{TokenUsage, ModelPrice}
use football_ai.Copilot.Provider.{ProviderFailureKind}
use football_ai.Copilot.Agent.Tools.Names.{ToolName, ToolCallStatus, ToolErrorCode}

abbrev pub max_traced_tool_calls : ℕ
max_traced_tool_calls = 4

abbrev pub max_traced_turns : ℕ
max_traced_turns = 5

pub data AgentStopReason : Type 0 where
  answered unsupported_question evidence_not_available no_relevant_claim selection_rejected
        citation_rejected cross_run_rejected tool_budget_exhausted turn_budget_exhausted
        deadline_exceeded prompt_budget_exceeded model_timeout budget_exhausted model_refusal
        model_truncated malformed_response provider_error :
      AgentStopReason

abbrev pub is_answered : AgentStopReason → Bool
is_answered answered = true
is_answered _ = false

pub data UsageSource : Type 0 where
  provider_reported unavailable scripted_constant not_called : UsageSource

-- `ProviderFailureKind | ToolErrorCode`
pub data ErrorCode : Type 0 where
  provider_code : ProviderFailureKind → ErrorCode
  tool_code : ToolErrorCode → ErrorCode

pub record ToolCallTrace : Type 0 where
  pub sequence : ℕ
  pub turn : ℕ
  pub tool : Option ToolName
  pub status : ToolCallStatus
  pub duration : ℕ
  pub claim_ids_returned : List String
  pub error_code : Option ToolErrorCode

pub record ModelTurnTrace : Type 0 where
  pub turn : ℕ
  pub duration : ℕ
  pub stop_reason : Option String
  pub request_id : Option String
  pub usage : Option TokenUsage
  pub aborted : Bool
  pub refusal_category : Option String

pub record TraceRecorder : Type 0 where
  pub correlation_id : String
  pub run_id : String
  pub price : Option ModelPrice
  pub turns : List ModelTurnTrace
  pub tool_calls : List ToolCallTrace
  pub returned : List String
  pub usage : TokenUsage
  pub usage_complete : Bool
  pub cost : ℕ
  pub tool_calls_refused : ℕ
  pub peak_prompt_chars : ℕ

abbrev pub no_usage : TokenUsage
no_usage = record {
  input_tokens = 0;
  output_tokens = 0;
  cache_creation_input_tokens = 0;
  cache_read_input_tokens = 0;
}

-- `TraceRecorder.__init__`, with what `MODEL_PRICES.get(model)` finds
abbrev pub new_recorder : (correlation_id run_id : String) → Option ModelPrice → TraceRecorder
new_recorder correlation_id run_id price = record {
  correlation_id = correlation_id;
  run_id = run_id;
  price = price;
  turns = [];
  tool_calls = [];
  returned = [];
  usage = no_usage;
  usage_complete = true;
  cost = 0;
  tool_calls_refused = 0;
  peak_prompt_chars = 0;
}

abbrev pub model_turns : TraceRecorder → ℕ
model_turns r = length r.turns

abbrev pub tool_call_count : TraceRecorder → ℕ
tool_call_count r = length r.tool_calls
