-- ===== src/Copilot/Agent/Invariant/Bounds.antt =====
-- The numbers of a trace: the limits of v2/src/footballai_v2/copilot/agent/loop.py and the fields of
-- v2/src/footballai_v2/copilot/agent/trace.py.
use football_ai.Prelude.{
  ℕ, ◌+◌, ◌-◌, ◌≤◌, ◌<◌, ◌≡◌, refl, sym, subst, Option, List, [], ◌∷◌, ◌++◌, length, length-append,
  All, All-append, arith,
}
use football_ai.Copilot.Provider.{ProviderTelemetry}
use football_ai.Copilot.Agent.Trace.{record_turn, turn_trace, record_tool}
use football_ai.Copilot.Agent.Trace.Records.{ToolCallTrace, ModelTurnTrace, model_turns}
use football_ai.Copilot.Agent.Trace.Recorded.{record_turn-IsSameCalls}
use football_ai.Copilot.Agent.Loop.{Agent, AgentLimits, Session, tick}
use football_ai.Copilot.Agent.Conversation.{with_peak, with_refused, turn_recorded, tool_recorded}
use football_ai.Copilot.Agent.Invariant.{
  Change, read, peaked, refused, asked, ran, Reach, here, next,
}

abbrev pub IsTurnWithin : AgentLimits → ModelTurnTrace → Type 0
IsTurnWithin l t = (1 ≤ t.turn) × (t.turn ≤ l.max_model_turns)

abbrev pub IsCallWithin : AgentLimits → ToolCallTrace → Type 0
IsCallWithin l c =
    (1 ≤ c.sequence) × (c.sequence ≤ l.max_tool_calls) × (1 ≤ c.turn) × (c.turn ≤ l.max_model_turns)

-- Numbers of turns and of calls within the limits, and each turn and call numbered within them.
pub record IsWithin (l : AgentLimits) (turns : List ModelTurnTrace) (calls : List ToolCallTrace)
    : Type 0 where
  pub turns_le : length turns ≤ l.max_model_turns
  pub calls_le : length calls ≤ l.max_tool_calls
  pub turns_within : All (IsTurnWithin l) turns
  pub calls_within : All (IsCallWithin l) calls

one_turn-IsWithin :
    (l : AgentLimits) (turns : List ModelTurnTrace) (calls : List ToolCallTrace)
    (t : ModelTurnTrace)
    → length turns < l.max_model_turns
    → t.turn ≡ length turns + 1
    → IsWithin l turns calls
    → IsWithin l (turns ++ t ∷ []) calls
one_turn-IsWithin l turns calls t room e h = record {
  turns_le = omega (arith, room, length-append turns (t ∷ []));
  calls_le = h.calls_le;
  turns_within =
      All-append (IsTurnWithin l) turns _ h.turns_within
        ((omega (arith, e), omega (arith, e, room)), tt);
  calls_within = h.calls_within;
}

one_call-IsWithin :
    (l : AgentLimits) (turns : List ModelTurnTrace) (calls : List ToolCallTrace) (c : ToolCallTrace)
    → 1 ≤ length turns
    → length calls < l.max_tool_calls
    → c.sequence ≡ length calls + 1
    → c.turn ≡ length turns
    → IsWithin l turns calls
    → IsWithin l turns (calls ++ c ∷ [])
one_call-IsWithin l turns calls c started room e f h = record {
  turns_le = h.turns_le;
  calls_le = omega (arith, room, length-append calls (c ∷ []));
  turns_within = h.turns_within;
  calls_within = All-append (IsCallWithin l) calls _ h.calls_within (
    (
      omega (arith, e),
      omega (arith, e, room),
      omega (arith, f, started),
      omega (arith, f, h.turns_le),
    ),
    tt,
  );
}

module _ {Content : Type 0} (agent : Agent Content) where
  abbrev Held : Session → Type 0
  Held s = IsWithin agent.limits s.recorder.turns s.recorder.tool_calls

  asked-Held :
      (s : Session) (called : ℕ) (telemetry : Option ProviderTelemetry)
      → model_turns s.recorder < agent.limits.max_model_turns
      → Held s
      → Held (turn_recorded agent called telemetry s)
  unfolding turn_recorded
  asked-Held s called telemetry room h =
      let duration = agent.clock s.ticks - called in
      let same = record_turn-IsSameCalls s.recorder duration telemetry in
      subst (λ cs. IsWithin agent.limits (record_turn s.recorder duration telemetry).turns cs)
        (sym same.tool_calls_eq)
        (subst (λ ts. IsWithin agent.limits ts s.recorder.tool_calls) (sym same.turns_eq)
          (one_turn-IsWithin agent.limits s.recorder.turns s.recorder.tool_calls
            (turn_trace s.recorder duration telemetry) room refl h))

  Change-Held : {s t : Session} → Held s → Change agent s t → Held t
  unfolding tick with_peak with_refused tool_recorded record_tool
  Change-Held h (read e) = subst Held (sym e) h
  Change-Held h (peaked chars e) = subst Held (sym e) h
  Change-Held h (refused n e) = subst Held (sym e) h
  Change-Held {s} h (asked called telemetry room e) =
      subst Held (sym e) (asked-Held s called telemetry room h)
  Change-Held {s} h (ran call started room e) = subst Held (sym e) (
      one_call-IsWithin agent.limits s.recorder.turns s.recorder.tool_calls _ started room refl refl
        h)

  pub Reach-IsWithin :
      {s t : Session}
      → IsWithin agent.limits s.recorder.turns s.recorder.tool_calls
      → Reach agent s t
      → IsWithin agent.limits t.recorder.turns t.recorder.tool_calls
  Reach-IsWithin h here = h
  Reach-IsWithin h (next r c) = Change-Held (Reach-IsWithin h r) c
