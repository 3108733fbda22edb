-- ===== src/Copilot/Agent/Conversation.antt =====
-- The loop of v2/src/footballai_v2/copilot/agent/loop.py. A function that changes what the request keeps
-- takes the session and returns the next one. Readings of the clock never decrease, so a difference of
-- two that stops at 0 is theirs.
use Prim.Native.Nat.{min}
use football_ai.Prelude.{
  ℕ, zero, suc, ◌+◌, ◌-◌, Bool, String, Option, none, some, is_some, List, [], ◌∷◌, ◌++◌, any,
  is_empty, leb, ltb, ◌==◌, length, if◌then◌else◌,
}
use football_ai.Copilot.Provider.{
  ProviderFailureKind, ProviderTelemetry, Outcome, replied, timed_out, failed, crashed,
}
use football_ai.Copilot.Grounding.{add_by_id, text_length}
use football_ai.Copilot.Agent.Tools.{ToolExecution, ToolRegistry, execute, references_a_run}
use football_ai.Copilot.Agent.Tools.Names.{ToolErrorCode}
use football_ai.Copilot.Agent.Trace.{record_turn, record_tool, sum_of}
use football_ai.Copilot.Agent.Trace.Records.{
  AgentStopReason, ErrorCode, provider_code, tool_code, tool_call_count, model_turns,
}
use football_ai.Copilot.Agent.Loop.{
  Agent, AgentReply, AgentModelRequest, ToolCall, ToolResult, Message, assistant, tool_results,
  Session, Stop, Ending, stopped, selected, Turn, went_on, ended, tick, failure_stop, never_sent,
}

abbrev stop_at : AgentStopReason → Option ErrorCode → Stop
stop_at reason code = record { reason = reason; error_code = code }

abbrev late : Stop
late = stop_at AgentStopReason.model_timeout (some (provider_code ProviderFailureKind.timeout))

abbrev result_of : ToolCall → ToolExecution → ToolResult
result_of call e = record {
  tool_use_id = call.call_id;
  content = e.content;
  is_error = is_some e.error_code;
}

unfoldable pub with_peak : ℕ → Session → Session
with_peak chars s = record s { recorder = record s.recorder { peak_prompt_chars = chars } }

unfoldable pub with_refused : ℕ → Session → Session
with_refused n s = record s { recorder = record s.recorder { tool_calls_refused = n } }

module _ {Content : Type 0} (agent : Agent Content) where
  -- `recorder.record_turn(self._clock() - called, telemetry)`
  unfoldable pub turn_recorded : (called : ℕ) → Option ProviderTelemetry → Session → Session
  turn_recorded called telemetry s = record s {
    ticks = s.ticks + 1;
    recorder = record_turn s.recorder (agent.clock s.ticks - called) telemetry;
  }

  -- What follows the call of the model.
  unfoldable pub after_call :
      (timeout called : ℕ) → Session → Outcome (AgentReply Content) → Turn Content × Session
  after_call timeout called s (timed_out kind telemetry) =
      (ended late, turn_recorded called telemetry s)
  after_call timeout called s (failed kind telemetry) = (
    ended (stop_at (failure_stop kind) (some (provider_code kind))),
    if never_sent kind then s else turn_recorded called telemetry s,
  )
  after_call timeout called s crashed = (
    ended
        (stop_at AgentStopReason.provider_error (some (provider_code ProviderFailureKind.unknown))),
    turn_recorded called none s,
  )
  after_call timeout called s (replied reply telemetry) = (
    if ltb timeout (agent.clock s.ticks - called) then ended late else went_on reply,
    turn_recorded called telemetry s,
  )

  -- `_model_turn`
  unfoldable pub model_turn : AgentModelRequest Content → Session → Turn Content × Session
  model_turn request s =
      after_call request.timeout (agent.clock s.ticks) (tick s)
        (agent.complete (model_turns s.recorder) request)

  -- `_refusal`, less `tool_calls_refused`, which `answer_calls` sets
  unfoldable pub refusal : AgentReply Content → Session → (final_turn : Bool) → Option Stop
  refusal reply s final_turn =
      if any (λ call. references_a_run agent.dumps agent.payload_json call.arguments)
        reply.tool_calls
      then some (
          stop_at AgentStopReason.cross_run_rejected
            (some (tool_code ToolErrorCode.cross_run_reference)))
      else if ltb agent.limits.max_tool_calls (tool_call_count s.recorder + length reply.tool_calls)
      then some (stop_at AgentStopReason.tool_budget_exhausted none)
      else if final_turn
      then some (stop_at AgentStopReason.turn_budget_exhausted none)
      else none

  -- What one call leaves behind: the trace, the registry and what was retrieved.
  unfoldable pub tool_recorded : ToolExecution × ToolRegistry → Session → Session
  tool_recorded e s = record {
    ticks = s.ticks + 2;
    recorder = record_tool s.recorder (agent.clock (s.ticks + 1) - agent.clock s.ticks) e.0;
    registry = e.1;
    retrieved = add_by_id s.retrieved e.0.claims;
  }

  abbrev pub executed : ToolCall → Session → ToolExecution × ToolRegistry
  executed call s = execute agent.dumps agent.payload_json s.registry call.name call.arguments

  -- `_run_tools`, after the results so far
  unfoldable pub run_tools : List ToolCall → List ToolResult → Session → List ToolResult × Session
  run_tools [] results s = (results, s)
  run_tools (call ∷ calls) results s =
      run_tools calls (results ++ result_of call (executed call s).0 ∷ [])
        (tool_recorded (executed call s) s)

  -- The calls of a reply, before the rest of the loop, which takes the results.
  unfoldable pub answer_calls :
      AgentReply Content
      → Option Stop
      → (rest : List ToolResult → Session → Ending × Session) → Session
      → Ending × Session
  answer_calls reply (some stop) rest s = (stopped stop, with_refused (length reply.tool_calls) s)
  answer_calls reply none rest s = let r = run_tools reply.tool_calls [] s in rest r.0 r.1

  unfoldable pub follow :
      (final_turn : Bool)
      → (rest : AgentReply Content → List ToolResult → Session → Ending × Session)
      → Turn Content × Session
      → Ending × Session
  follow final_turn rest (ended stop, s) = (stopped stop, s)
  follow final_turn rest (went_on reply, s) =
      if is_empty reply.tool_calls
      then (selected reply.claim_ids, s)
      else answer_calls reply (refusal reply s final_turn) (rest reply) s

  abbrev request_for :
      List String → List (Message Content) → (timeout : ℕ) → AgentModelRequest Content
  request_for offered messages timeout = record {
    messages = messages;
    offered_claim_ids = offered;
    max_output_tokens = agent.max_output_tokens;
    timeout = timeout;
  }

  -- The loop of `_converse`, with the number of turns that are left.
  unfoldable pub turns :
      ℕ
      → (deadline : ℕ) → (offered : List String) → List (Message Content)
      → (prompt_chars : ℕ) → Session
      → Ending × Session
  turns zero deadline offered messages chars s =
      (stopped (stop_at AgentStopReason.turn_budget_exhausted none), s)
  turns (suc n) deadline offered messages chars s =
      if leb deadline (agent.clock s.ticks)
      then (stopped (stop_at AgentStopReason.deadline_exceeded none), tick s)
      else if ltb agent.max_prompt_chars chars
      then (
        stopped (
            stop_at AgentStopReason.prompt_budget_exceeded
              (some (provider_code ProviderFailureKind.prompt_budget))),
        with_peak chars (tick s),
      )
      else follow (n == 0)
          (λ reply results.
            turns n deadline offered
              (messages ++ assistant reply.assistant_content ∷ tool_results results ∷ [])
              (chars + sum_of (λ r. text_length r.content) results))
          (model_turn
            (request_for offered messages
              (min agent.limits.model_timeout (deadline - agent.clock s.ticks)))
            (with_peak chars (tick s)))
