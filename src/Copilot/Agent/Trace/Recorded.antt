-- ===== src/Copilot/Agent/Trace/Recorded.antt =====
-- What `record_turn` leaves of a trace, in v2/src/footballai_v2/copilot/agent/trace.py.
use football_ai.Prelude.{
  ℕ, ◌+◌, ◌≡◌, refl, ap, ◌∙◌, Option, none, some, [], ◌∷◌, ◌++◌, length, length-append,
}
use football_ai.Copilot.Pricing.{TokenUsage}
use football_ai.Copilot.Provider.{ProviderTelemetry}
use football_ai.Copilot.Budget.{reported}
use football_ai.Copilot.Agent.Trace.{record_turn, turn_trace, account}
use football_ai.Copilot.Agent.Trace.Records.{TraceRecorder, model_turns}

-- The parts of a recorder that tell what was asked and what was returned.
pub record IsSameCalls (r q : TraceRecorder) : Type 0 where
  pub turns_eq : q.turns ≡ r.turns
  pub tool_calls_eq : q.tool_calls ≡ r.tool_calls
  pub returned_eq : q.returned ≡ r.returned

account-IsSameCalls :
    (r : TraceRecorder) (usage : Option TokenUsage) → IsSameCalls r (account r usage)
account-IsSameCalls r none = record { turns_eq = refl; tool_calls_eq = refl; returned_eq = refl }
account-IsSameCalls r (some usage) = record {
  turns_eq = refl;
  tool_calls_eq = refl;
  returned_eq = refl;
}

pub record_turn-IsSameCalls :
    (r : TraceRecorder) (duration : ℕ) (telemetry : Option ProviderTelemetry)
    → IsSameCalls
        (record r { turns = r.turns ++ turn_trace r duration telemetry ∷ [] })
        (record_turn r duration telemetry)
unfolding record_turn
record_turn-IsSameCalls r duration telemetry = account-IsSameCalls _ (reported telemetry)

pub model_turns-record_turn :
    (r : TraceRecorder) (duration : ℕ) (telemetry : Option ProviderTelemetry)
    → model_turns (record_turn r duration telemetry) ≡ model_turns r + 1
model_turns-record_turn r duration telemetry =
    let same = record_turn-IsSameCalls r duration telemetry in
    ap length same.turns_eq ∙ length-append r.turns (turn_trace r duration telemetry ∷ [])
