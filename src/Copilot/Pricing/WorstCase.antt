-- ===== src/Copilot/Pricing/WorstCase.antt =====
-- The bound of v2/src/footballai_v2/copilot/pricing.py on what a request can cost.
use native.Mathlib.Nat.{mul-le-mul, mul-le-mul_left, mul-le-mul_right}
use football_ai.Prelude.{ℕ, ◌+◌, ◌*◌, ◌≤◌, ◌<◌, ◌≡◌, arith}
use football_ai.Copilot.Pricing.{
  TokenUsage, ModelPrice, prompt_tokens, api_prompt_tokens_max, multiplier, worst_usage,
  request_cost_usd, worst_case_cost_usd,
}

-- A longer prompt never has the smaller multiplier.
multiplier_mono :
    (price : ModelPrice) (u v : TokenUsage)
    → 1 ≤ price.long_prompt_multiplier
    → prompt_tokens u ≤ prompt_tokens v
    → multiplier price u ≤ multiplier price v
multiplier_mono price u v h p = ground arith

-- The cost before the multiplier, against that of the largest prompt and output.
tokens_cost_le :
    (price : ModelPrice) (usage : TokenUsage) (prompt_size max_output_tokens : ℕ)
    → price.cache_read ≤ price.input
    → usage.cache_creation_input_tokens ≡ 0
    → prompt_tokens usage ≤ prompt_size + api_prompt_tokens_max
    → usage.output_tokens ≤ max_output_tokens
    → usage.input_tokens * price.input
        + usage.output_tokens * price.output
        + usage.cache_creation_input_tokens * price.cache_write
        + usage.cache_read_input_tokens * price.cache_read
      ≤ (prompt_size + api_prompt_tokens_max) * price.input
        + max_output_tokens * price.output
        + 0 * price.cache_write
        + 0 * price.cache_read
tokens_cost_le price u prompt_size max_output_tokens c w p o =
    let prompt : u.input_tokens + u.cache_read_input_tokens ≤ prompt_size + api_prompt_tokens_max =
      omega arith in
    let no_writes : u.cache_creation_input_tokens * price.cache_write ≡ 0 = rw w (omega arith) in
    omega (
      arith,
      mul-le-mul_left u.cache_read_input_tokens c,
      mul-le-mul_right price.input prompt,
      mul-le-mul_right price.output o,
      no_writes,
    )

-- What reported usage costs is at most the worst case, for a price at which reading the cache is
-- no dearer than input and a long prompt no cheaper, if the usage has at most the measured prompt
-- and the API's own allowance as its prompt, at most the output limit, and no cache writes.
pub request_cost_usd-le-worst_case_cost_usd :
    (price : ModelPrice) (usage : TokenUsage) (prompt_size max_output_tokens : ℕ)
    → 1 ≤ price.long_prompt_multiplier
    → price.cache_read ≤ price.input
    → usage.cache_creation_input_tokens ≡ 0
    → prompt_tokens usage ≤ prompt_size + api_prompt_tokens_max
    → usage.output_tokens ≤ max_output_tokens
    → request_cost_usd price usage ≤ worst_case_cost_usd price prompt_size max_output_tokens
unfolding request_cost_usd worst_case_cost_usd
request_cost_usd-le-worst_case_cost_usd price usage prompt_size max_output_tokens m c w p o =
    mul-le-mul
      (multiplier_mono price usage (worst_usage prompt_size max_output_tokens) m (omega arith))
      (tokens_cost_le price usage prompt_size max_output_tokens c w p o)

scaled_lt : {a b : ℕ} (k l : ℕ) → k ≡ l → 1 ≤ k → a < b → k * a < l * b
scaled_lt {a} {b} k l e h lt = rw (← e) (omega (arith, mul-le-mul_left k lt))

-- Usage that reports the whole allowed prompt as cache writes.
abbrev pub write_usage : ℕ → ℕ → TokenUsage
write_usage prompt_size max_output_tokens = record {
  input_tokens = 0;
  output_tokens = max_output_tokens;
  cache_creation_input_tokens = prompt_size + api_prompt_tokens_max;
  cache_read_input_tokens = 0;
}

-- Cache writes break the bound: at a price at which a token written to the cache is dearer than an
-- input token and a long prompt no cheaper, usage that reports the whole allowed prompt as cache writes, with the output at its
-- limit, costs more than the worst case.
pub worst_case_cost_usd-lt-cache_write :
    (price : ModelPrice) (prompt_size max_output_tokens : ℕ)
    → 1 ≤ price.long_prompt_multiplier
    → price.input < price.cache_write
    → worst_case_cost_usd price prompt_size max_output_tokens
      < request_cost_usd price (write_usage prompt_size max_output_tokens)
unfolding request_cost_usd worst_case_cost_usd
worst_case_cost_usd-lt-cache_write price prompt_size max_output_tokens m c =
    scaled_lt (multiplier price (worst_usage prompt_size max_output_tokens))
      (multiplier price (write_usage prompt_size max_output_tokens)) (ground arith) (ground arith)
      (omega (arith, mul-le-mul_left (prompt_size + api_prompt_tokens_max) c))
