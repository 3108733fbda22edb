-- ===== src/Copilot/Agent/Loop.antt =====
-- v2/src/footballai_v2/copilot/agent/loop.py: one question about one run. The model, the clock, the
-- router and the catalog are fields of the agent: the clock gives its n-th reading, in microseconds, and
-- the model answers the n-th turn, in any way. `Content` is what a model sends beside its calls.
use football_ai.Prelude.{ℕ, ◌+◌, String, Bool, true, false, ◌&&◌, Option, List, leb, ltb}
use football_ai.Prelude.Dict
use football_ai.Run.Json.{Json}
use football_ai.Copilot.Claims.{EvidenceClaim, ModelMode, OutputNature, ValidatedRunEvidence}
use football_ai.Copilot.Pricing.{ModelPrice}
use football_ai.Copilot.Provider.{ProviderFailureKind, Outcome}
use football_ai.Copilot.Grounding.{QuestionRoute}
use football_ai.Copilot.Agent.Tools.{ToolSpec, ToolRegistry}
use football_ai.Copilot.Agent.Tools.Names.{ToolName, ToolCallStatus}
use football_ai.Copilot.Agent.Trace.Records.{
  AgentStopReason, ErrorCode, TraceRecorder, max_traced_tool_calls, max_traced_turns,
}

pub record AgentLimits : Type 0 where
  pub max_tool_calls : ℕ
  pub max_model_turns : ℕ
  pub model_timeout : ℕ
  pub total_timeout : ℕ

-- `AgentLimits.__post_init__`, without the errors
unfoldable pub valid_limits : AgentLimits → Bool
valid_limits l =
    leb l.max_tool_calls max_traced_tool_calls
    && (leb 1 l.max_model_turns && leb l.max_model_turns max_traced_turns)
    && (ltb 0 l.model_timeout && leb l.model_timeout 20_000_000)
    && (ltb 0 l.total_timeout && leb l.total_timeout 45_000_000)

pub record ToolCall : Type 0 where
  pub call_id : String
  pub name : String
  pub arguments : Json

-- The telemetry of a reply stands in its `Outcome`.
pub record AgentReply (Content : Type 0) : Type 0 where
  pub assistant_content : Content
  pub tool_calls : List ToolCall
  pub claim_ids : List String

pub record ToolResult : Type 0 where
  pub tool_use_id : String
  pub content : String
  pub is_error : Bool

pub data Message (Content : Type 0) : Type 0 where
  user : String → Message Content
  assistant : Content → Message Content
  tool_results : List ToolResult → Message Content

-- The instructions and the tools are the same in every request.
pub record AgentModelRequest (Content : Type 0) : Type 0 where
  pub messages : List (Message Content)
  pub offered_claim_ids : List String
  pub max_output_tokens : ℕ
  pub timeout : ℕ

-- `ReadOnlyAgent`. `opening_chars` is the length of the instructions, the definitions of the tools and
-- the user message.
pub record Agent (Content : Type 0) : Type 0 where
  pub limits : AgentLimits
  pub max_prompt_chars : ℕ
  pub max_output_tokens : ℕ
  pub tools : List ToolSpec
  pub mode : ModelMode
  pub price : Option ModelPrice
  pub clock : ℕ → ℕ
  pub complete : (turn : ℕ) → AgentModelRequest Content → Outcome (AgentReply Content)
  pub router : Option String → QuestionRoute
  pub build_claim_catalog : ValidatedRunEvidence → List EvidenceClaim
  pub user_message : ValidatedRunEvidence → Option String → String
  pub opening_chars : ValidatedRunEvidence → Option String → ℕ
  pub dumps : Json → Option String
  pub payload_json : ToolName → ToolCallStatus → OutputNature → List EvidenceClaim → String

-- What one request keeps: the readings of the clock, the trace, the tools and what they returned.
pub record Session : Type 0 where
  pub ticks : ℕ
  pub recorder : TraceRecorder
  pub registry : ToolRegistry
  pub retrieved : Dict.Dict EvidenceClaim

-- `_Stop` with a reason
pub record Stop : Type 0 where
  pub reason : AgentStopReason
  pub error_code : Option ErrorCode

-- `_Stop`: with a reason, or with a selection.
pub data Ending : Type 0 where
  stopped : Stop → Ending
  selected : (claim_ids : List String) → Ending

-- What a turn of the model gives: a reply, or the end.
pub data Turn (Content : Type 0) : Type 0 where
  went_on : AgentReply Content → Turn Content
  ended : Stop → Turn Content

unfoldable pub tick : Session → Session
tick s = record s { ticks = s.ticks + 1 }

-- `_FAILURE_STOPS.get(kind, PROVIDER_ERROR)`
abbrev pub failure_stop : ProviderFailureKind → AgentStopReason
failure_stop ProviderFailureKind.refusal = AgentStopReason.model_refusal
failure_stop ProviderFailureKind.truncated = AgentStopReason.model_truncated
failure_stop ProviderFailureKind.invalid_response = AgentStopReason.malformed_response
failure_stop ProviderFailureKind.budget_exhausted = AgentStopReason.budget_exhausted
failure_stop _ = AgentStopReason.provider_error

-- `_NEVER_SENT`
abbrev pub never_sent : ProviderFailureKind → Bool
never_sent ProviderFailureKind.not_configured = true
never_sent ProviderFailureKind.budget_exhausted = true
never_sent _ = false
