-- ===== src/Copilot/Pricing.antt =====
-- v2/src/footballai_v2/copilot/pricing.py, and `TokenUsage` of v2/src/footballai_v2/copilot/models.py.
-- A price in dollars for a million tokens is counted in thousandths of a dollar, so that a cost is
-- a whole number of billionths of a dollar. Every listed price is such a number, and the floating
-- point rounding of the source is not modelled.
pub mod WorstCase
use football_ai.Prelude.{ℕ, zero, suc, ◌+◌, ◌*◌, if◌then◌else◌, ltb}

pub record TokenUsage : Type 0 where
  pub input_tokens : ℕ
  pub output_tokens : ℕ
  pub cache_creation_input_tokens : ℕ
  pub cache_read_input_tokens : ℕ

-- The property `prompt_tokens`.
abbrev pub prompt_tokens : TokenUsage → ℕ
prompt_tokens u = u.input_tokens + u.cache_creation_input_tokens + u.cache_read_input_tokens

pub record ModelPrice : Type 0 where
  pub input : ℕ
  pub output : ℕ
  pub cache_write : ℕ
  pub cache_read : ℕ
  pub long_prompt_multiplier : ℕ

abbrev pub long_prompt_tokens : ℕ
long_prompt_tokens = 100_000

abbrev pub api_prompt_tokens_max : ℕ
api_prompt_tokens_max = 2_000

-- `MODEL_PRICES`
abbrev pub haiku : ModelPrice
haiku = record {
  input = 100;
  output = 500;
  cache_write = 125;
  cache_read = 10;
  long_prompt_multiplier = 5;
}

abbrev pub sonnet : ModelPrice
sonnet = record {
  input = 2000;
  output = 10000;
  cache_write = 2500;
  cache_read = 100;
  long_prompt_multiplier = 1;
}

abbrev pub opus : ModelPrice
opus = record {
  input = 4000;
  output = 20000;
  cache_write = 5000;
  cache_read = 200;
  long_prompt_multiplier = 1;
}

abbrev pub earlier_opus : ModelPrice
earlier_opus = record {
  input = 5000;
  output = 25000;
  cache_write = 6250;
  cache_read = 500;
  long_prompt_multiplier = 1;
}

abbrev multiplier : ModelPrice → TokenUsage → ℕ
multiplier price usage =
    if ltb long_prompt_tokens (prompt_tokens usage) then price.long_prompt_multiplier else 1

unfoldable pub request_cost_usd : ModelPrice → TokenUsage → ℕ
request_cost_usd price usage =
    multiplier price usage
    * (usage.input_tokens * price.input
        + usage.output_tokens * price.output
        + usage.cache_creation_input_tokens * price.cache_write
        + usage.cache_read_input_tokens * price.cache_read)

abbrev worst_usage : ℕ → ℕ → TokenUsage
worst_usage prompt_size max_output_tokens = record {
  input_tokens = prompt_size + api_prompt_tokens_max;
  output_tokens = max_output_tokens;
  cache_creation_input_tokens = 0;
  cache_read_input_tokens = 0;
}

unfoldable pub worst_case_cost_usd : ModelPrice → (prompt_size max_output_tokens : ℕ) → ℕ
worst_case_cost_usd price prompt_size max_output_tokens =
    request_cost_usd price (worst_usage prompt_size max_output_tokens)

-- The sum over `range(model_turns)`, from the last turn down.
unfoldable pub agent_question_worst_case_usd :
    ModelPrice → (max_prompt_chars max_output_tokens model_turns : ℕ) → ℕ
agent_question_worst_case_usd price max_prompt_chars max_output_tokens zero = 0
agent_question_worst_case_usd price max_prompt_chars max_output_tokens (suc turn) =
    agent_question_worst_case_usd price max_prompt_chars max_output_tokens turn
    + worst_case_cost_usd price (max_prompt_chars + turn * max_output_tokens) max_output_tokens
