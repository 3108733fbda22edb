-- ===== src/Copilot/Budget.antt =====
-- v2/src/footballai_v2/copilot/budget.py: the cost guard. Each method of `BudgetGuard` runs under its
-- lock, so each is one step. Money is counted as in Pricing.
pub mod Spending
use football_ai.Prelude.{
  ℕ, ◌+◌, ◌-◌, ◌*◌, Bool, true, false, Option, none, some, leb, ltb, if◌then◌else◌,
}
use football_ai.Prelude.Result.{Result, ok, err}
use football_ai.Copilot.Pricing.{ModelPrice, TokenUsage, request_cost_usd, worst_case_cost_usd}
use football_ai.Copilot.Provider.{
  ProviderFailureKind, ProviderTelemetry, Outcome, replied, timed_out, failed, crashed,
}

pub record BudgetGuard : Type 0 where
  pub max_requests : ℕ
  pub max_cost_usd : ℕ
  pub price : ModelPrice
  pub requests_sent : ℕ
  pub spent_usd : ℕ
  pub reserved_usd : ℕ
  pub requests_at_worst_case : ℕ

abbrev pub new_guard : (max_requests max_cost_usd : ℕ) → ModelPrice → BudgetGuard
new_guard max_requests max_cost_usd price = record {
  max_requests = max_requests;
  max_cost_usd = max_cost_usd;
  price = price;
  requests_sent = 0;
  spent_usd = 0;
  reserved_usd = 0;
  requests_at_worst_case = 0;
}

-- `BudgetExhausted`, with the limit that it names.
pub data BudgetExhausted : Type 0 where
  max_requests max_cost_usd : BudgetExhausted

unfoldable pub admit : BudgetGuard → (worst_case_usd : ℕ) → Result BudgetExhausted BudgetGuard
admit g worst_case_usd =
    if leb g.max_requests g.requests_sent
    then err max_requests
    else if ltb g.max_cost_usd (g.spent_usd + g.reserved_usd + worst_case_usd)
    then err max_cost_usd
    else ok (record g {
      requests_sent = g.requests_sent + 1;
      reserved_usd = g.reserved_usd + worst_case_usd;
    })

-- `max(reserved - worst_case, 0)` is the subtraction of ℕ.
unfoldable pub release : BudgetGuard → (worst_case_usd : ℕ) → BudgetGuard
release g worst_case_usd = record g {
  requests_sent = g.requests_sent - 1;
  reserved_usd = g.reserved_usd - worst_case_usd;
}

abbrev pub reported : Option ProviderTelemetry → Option TokenUsage
reported none = none
reported (some t) = t.usage

abbrev charge_usage : BudgetGuard → Option TokenUsage → ℕ → BudgetGuard
charge_usage g none worst_case_usd = record g {
  requests_at_worst_case = g.requests_at_worst_case + 1;
  spent_usd = g.spent_usd + worst_case_usd;
}
charge_usage g (some usage) worst_case_usd = record g {
  spent_usd = g.spent_usd + request_cost_usd g.price usage;
}

unfoldable pub charge : BudgetGuard → Option ProviderTelemetry → (worst_case_usd : ℕ) → BudgetGuard
charge g telemetry worst_case_usd =
    charge_usage (record g { reserved_usd = g.reserved_usd - worst_case_usd }) (reported telemetry)
      worst_case_usd

-- `turn_worst_case_usd`, of the bytes of what the server wrote and the number of assistant messages.
unfoldable pub turn_worst_case_usd :
    ModelPrice → (server_bytes earlier_turns max_output_tokens : ℕ) → ℕ
turn_worst_case_usd price server_bytes earlier_turns max_output_tokens =
    worst_case_cost_usd price (server_bytes + earlier_turns * max_output_tokens) max_output_tokens

abbrev pub is_not_configured : ProviderFailureKind → Bool
is_not_configured ProviderFailureKind.not_configured = true
is_not_configured _ = false

abbrev pub telemetry_of : {Reply : Type 0} → Outcome Reply → Option ProviderTelemetry
telemetry_of (replied reply telemetry) = telemetry
telemetry_of (timed_out kind telemetry) = telemetry
telemetry_of (failed kind telemetry) = telemetry
telemetry_of crashed = none

-- What `BudgetedAgentModel.complete` does with the guard once the call has ended.
unfoldable pub settle :
    {Reply : Type 0} → BudgetGuard → Outcome Reply → (worst_case_usd : ℕ) → BudgetGuard
settle g (replied reply telemetry) w = charge g telemetry w
settle g (timed_out kind telemetry) w =
    if is_not_configured kind then release g w else charge g telemetry w
settle g (failed kind telemetry) w =
    if is_not_configured kind then release g w else charge g telemetry w
settle g crashed w = charge g none w

-- `BudgetedAgentModel.complete`: admit, call, charge. A refused request is never sent.
unfoldable pub complete :
    {Reply : Type 0}
    → BudgetGuard
    → (worst_case_usd : ℕ) → Outcome Reply
    → Outcome Reply × BudgetGuard
complete g worst_case_usd outcome = elim (admit g worst_case_usd) [
  | err limit ↦ (failed ProviderFailureKind.budget_exhausted none, g)
  | ok g' ↦ (outcome, settle g' outcome worst_case_usd)
]
