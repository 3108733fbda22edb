-- ===== src/Copilot/Agent/Trace.antt =====
-- v2/src/footballai_v2/copilot/agent/trace.py: the record of one request. Durations are in microseconds,
-- which is what milliseconds rounded to three decimals hold. The bounds that pydantic checks on the
-- fields are left out, but for those of `IsWithin` in Copilot/Agent/Invariant/Bounds.
pub mod Recorded
pub mod Public
pub mod Records
use Prim.Native.String.{count}
use football_ai.Prelude.{
  ℕ, ◌+◌, ◌-◌, String, String-discrete, Bool, true, false, not, ◌&&◌, ◌||◌, Option, none, some,
  is_some, List, [], ◌∷◌, ◌++◌, map, all, is_empty, leb, ◌==◌, length, member, str_eq,
  if◌then◌else◌,
}
use football_ai.Run.Text.Identifiers.{codes}
use football_ai.Copilot.Claims.{
  EvidenceClaim, ModelMode, offline_demo_fake, real_model, not_invoked,
}
use football_ai.Copilot.Pricing.{TokenUsage, ModelPrice, request_cost_usd}
use football_ai.Copilot.Provider.{ProviderFailureKind, ProviderTelemetry}
use football_ai.Copilot.Budget.{reported}
use football_ai.Copilot.Agent.Tools.{ToolExecution}
use football_ai.Copilot.Agent.Tools.Names.{ToolName, ToolCallStatus, is_rejected, ToolErrorCode}
use football_ai.Copilot.Agent.Trace.Records.{
  AgentStopReason, ErrorCode, ModelTurnTrace, ToolCallTrace, TraceRecorder, UsageSource,
  is_answered, malformed_response, max_traced_tool_calls, max_traced_turns, model_truncated,
  model_turns, new_recorder, no_usage, not_called, provider_code, provider_error, provider_reported,
  scripted_constant, tool_call_count, tool_code, unavailable,
}

abbrev known_stop_reasons : List String
known_stop_reasons =
    "end_turn" ∷ "tool_use" ∷ "max_tokens" ∷ "refusal" ∷ "pause_turn" ∷ "stop_sequence"
    ∷ "model_context_window_exceeded" ∷ []

abbrev kept : (String → Bool) → Option String → Option String
kept p none = none
kept p (some s) = if p s then some s else none

abbrev id_char : ℕ → Bool
id_char c =
    (leb b'A' c && leb c b'Z')
    || (leb b'a' c && leb c b'z')
    || (leb b'0' c && leb c b'9')
    || c == b'_'
    || c == b'-'

-- `_REQUEST_ID_RE.fullmatch`
unfoldable pub is_request_id : String → Bool
is_request_id s = leb 1 (length (codes s)) && leb (length (codes s)) 128 && all id_char (codes s)

abbrev stop_reason_of : Option ProviderTelemetry → Option String
stop_reason_of none = none
stop_reason_of (some t) = kept (λ s. member String-discrete s known_stop_reasons) t.stop_reason

abbrev request_id_of : Option ProviderTelemetry → Option String
request_id_of none = none
request_id_of (some t) = kept is_request_id t.request_id

abbrev is_aborted : Option ProviderTelemetry → Bool
is_aborted none = false
is_aborted (some t) = t.aborted

abbrev refusal_of : Option ProviderTelemetry → Option String
refusal_of none = none
refusal_of (some t) = t.refusal_category

abbrev pub turn_trace : TraceRecorder → (duration : ℕ) → Option ProviderTelemetry → ModelTurnTrace
turn_trace r duration telemetry = record {
  turn = model_turns r + 1;
  duration = duration;
  stop_reason = stop_reason_of telemetry;
  request_id = request_id_of telemetry;
  usage = reported telemetry;
  aborted = is_aborted telemetry;
  refusal_category = refusal_of telemetry;
}

abbrev add_usage : TokenUsage → TokenUsage → TokenUsage
add_usage a b = record {
  input_tokens = a.input_tokens + b.input_tokens;
  output_tokens = a.output_tokens + b.output_tokens;
  cache_creation_input_tokens = a.cache_creation_input_tokens + b.cache_creation_input_tokens;
  cache_read_input_tokens = a.cache_read_input_tokens + b.cache_read_input_tokens;
}

abbrev cost_of : Option ModelPrice → TokenUsage → ℕ
cost_of none usage = 0
cost_of (some price) usage = request_cost_usd price usage

abbrev account : TraceRecorder → Option TokenUsage → TraceRecorder
account r none = record r { usage_complete = false }
account r (some usage) = record r {
  cost = r.cost + cost_of r.price usage;
  usage = add_usage r.usage usage;
}

unfoldable pub record_turn :
    TraceRecorder → (duration : ℕ) → Option ProviderTelemetry → TraceRecorder
record_turn r duration telemetry =
    account (record r { turns = r.turns ++ turn_trace r duration telemetry ∷ [] })
      (reported telemetry)

abbrev pub add_key : List String → String → List String
add_key keys i = if member String-discrete i keys then keys else keys ++ i ∷ []

-- `self._returned.update(dict.fromkeys(returned))`
unfoldable pub add_keys : List String → List String → List String
add_keys keys [] = keys
add_keys keys (i ∷ is) =
    add_keys (if member String-discrete i keys then keys else keys ++ i ∷ []) is

abbrev pub ids_of : List EvidenceClaim → List String
ids_of claims = map (λ c. c.claim_id) claims

abbrev pub tool_trace : TraceRecorder → (duration : ℕ) → ToolExecution → ToolCallTrace
tool_trace r duration e = record {
  sequence = tool_call_count r + 1;
  turn = model_turns r;
  tool = e.tool;
  status = e.status;
  duration = duration;
  claim_ids_returned = ids_of e.claims;
  error_code = e.error_code;
}

unfoldable pub record_tool : TraceRecorder → (duration : ℕ) → ToolExecution → TraceRecorder
record_tool r duration e = record r {
  returned = add_keys r.returned (ids_of e.claims);
  tool_calls = r.tool_calls ++ tool_trace r duration e ∷ [];
}

abbrev is_scripted : ModelMode → Bool
is_scripted offline_demo_fake = true
is_scripted _ = false

unfoldable pub usage_source : TraceRecorder → ModelMode → UsageSource
usage_source r mode =
    if is_empty r.turns
    then not_called
    else if is_scripted mode
    then scripted_constant
    else if r.usage_complete
    then provider_reported
    else unavailable

pub record AgentTrace : Type 0 where
  pub correlation_id : String
  pub run_id : String
  pub model_mode : ModelMode
  pub termination : AgentStopReason
  pub error_code : Option ErrorCode
  pub duration : ℕ
  pub model_turns : ℕ
  pub turns : List ModelTurnTrace
  pub tool_calls : List ToolCallTrace
  pub tool_calls_refused : ℕ
  pub claim_ids_returned : List String
  pub claim_ids_selected : List String
  pub claim_ids_rendered : List String
  pub selected_ids_rejected : ℕ
  pub usage : TokenUsage
  pub usage_complete : Bool
  pub usage_source : UsageSource
  pub estimated_cost : Option ℕ
  pub cost_is_lower_bound : Bool
  pub valid_tool_calls : ℕ
  pub invalid_tool_calls : ℕ
  pub model_call_duration : ℕ
  pub tool_call_duration : ℕ
  pub peak_prompt_chars : ℕ

unfoldable pub count_calls : (ToolCallTrace → Bool) → List ToolCallTrace → ℕ
count_calls p [] = 0
count_calls p (c ∷ cs) = (if p c then 1 else 0) + count_calls p cs

unfoldable pub sum_of {ℓ} : {A : Type ℓ} → (A → ℕ) → List A → ℕ
sum_of f [] = 0
sum_of f (x ∷ xs) = f x + sum_of f xs

abbrev estimate : TraceRecorder → ModelMode → Option ℕ
estimate r mode =
    if not (is_empty r.turns) && is_some r.price && not (is_scripted mode)
    then some r.cost
    else none

-- `build`
unfoldable pub build_trace :
    TraceRecorder
    → AgentStopReason
    → ModelMode
    → (duration : ℕ) → Option ErrorCode
    → (selected rendered : List String) → (selected_ids_rejected : ℕ) → AgentTrace
build_trace r termination mode duration error_code selected rendered selected_ids_rejected =
    record {
      correlation_id = r.correlation_id;
      run_id = r.run_id;
      model_mode = mode;
      termination = termination;
      error_code = error_code;
      duration = duration;
      model_turns = model_turns r;
      turns = r.turns;
      tool_calls = r.tool_calls;
      tool_calls_refused = r.tool_calls_refused;
      claim_ids_returned = r.returned;
      claim_ids_selected = selected;
      claim_ids_rendered = rendered;
      selected_ids_rejected = selected_ids_rejected;
      usage = r.usage;
      usage_complete = r.usage_complete;
      usage_source = usage_source r mode;
      estimated_cost = estimate r mode;
      cost_is_lower_bound = is_some (estimate r mode) && not r.usage_complete;
      valid_tool_calls = count_calls (λ c. not (is_rejected c.status)) r.tool_calls;
      invalid_tool_calls = count_calls (λ c. is_rejected c.status) r.tool_calls;
      model_call_duration = sum_of (λ t. t.duration) r.turns;
      tool_call_duration = sum_of (λ c. c.duration) r.tool_calls;
      peak_prompt_chars = r.peak_prompt_chars;
    }
