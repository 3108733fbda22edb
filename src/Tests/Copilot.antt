-- ===== src/Tests/Copilot.antt =====
-- The prices and the cost guard of v2/src/footballai_v2/copilot at a small price.
use football_ai.Prelude.{◌≡◌, ◌≤◌, ◌<◌, refl, none, some, false, [], arith}
use football_ai.Prelude.Result.{err}
use football_ai.Copilot.Pricing.{TokenUsage, haiku, request_cost_usd, worst_case_cost_usd}
use football_ai.Copilot.Pricing.WorstCase.{
  request_cost_usd-le-worst_case_cost_usd, worst_case_cost_usd-lt-cache_write, write_usage,
}
use football_ai.Copilot.Provider.{replied, ProviderTelemetry}
use football_ai.Copilot.Budget.{BudgetGuard, new_guard, admit, settle, charge, max_cost_usd}
use football_ai.Copilot.Budget.Spending.{
  Reach, here, next, admitted, settled, total_excess, IsCovered, new_guard-IsCovered,
}

abbrev usage : TokenUsage
usage = record {
  input_tokens = 500;
  output_tokens = 100;
  cache_creation_input_tokens = 0;
  cache_read_input_tokens = 200;
}

cost_example : request_cost_usd haiku usage ≡ 102_000
unfolding request_cost_usd
cost_example = refl

request_cost_usd-le-worst_case_cost_usd_example :
    request_cost_usd haiku usage ≤ worst_case_cost_usd haiku 1_000 4_096
request_cost_usd-le-worst_case_cost_usd_example =
    request_cost_usd-le-worst_case_cost_usd haiku usage 1_000 4_096 (omega arith) (omega arith) refl
      (omega arith) (omega arith)

worst_case_cost_usd-lt-cache_write_example :
    worst_case_cost_usd haiku 1_000 4_096 < request_cost_usd haiku (write_usage 1_000 4_096)
worst_case_cost_usd-lt-cache_write_example =
    worst_case_cost_usd-lt-cache_write haiku 1_000 4_096 (omega arith) (omega arith)

abbrev first : BudgetGuard
first = new_guard 2 300_000 haiku

abbrev sent_one : BudgetGuard
sent_one = record first { requests_sent = 1; reserved_usd = 200_000 }

abbrev charged : BudgetGuard
charged = record first { requests_sent = 1; spent_usd = 102_000 }

refused_example : admit sent_one 200_000 ≡ err max_cost_usd
unfolding admit
refused_example = refl

abbrev telemetry : ProviderTelemetry
telemetry = record {
  model = "claude-haiku";
  latency = 900_000;
  request_id = none;
  stop_reason = none;
  usage = some usage;
  aborted = false;
  refusal_category = none;
}

one_request :
    Reach
      (Unit {0})
      (record { guard = first; in_flight = [] })
      (record { guard = charged; in_flight = [] })
unfolding admit settle charge request_cost_usd
one_request =
    next (next here (admitted 200_000 sent_one refl refl))
      (settled (replied tt (some telemetry)) [] 200_000 [] refl refl)

new_guard-IsCovered_example :
    IsCovered 300_000 2
      (total_excess (Unit {0}) one_request)
      (record { guard = charged; in_flight = [] })
new_guard-IsCovered_example =
    new_guard-IsCovered (Unit {0}) 300_000 2 haiku (record { guard = charged; in_flight = [] })
      one_request
