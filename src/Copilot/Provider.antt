-- ===== src/Copilot/Provider.antt =====
-- What a provider call returns: `ProviderFailureKind` and `ProviderFailure` of
-- v2/src/footballai_v2/copilot/errors.py, `ProviderTelemetry` of v2/src/footballai_v2/copilot/models.py.
use football_ai.Prelude.{ℕ, String, Bool, Option}
use football_ai.Copilot.Pricing.{TokenUsage}

pub data ProviderFailureKind : Type 0 where
  not_configured prompt_budget budget_exhausted timeout connection authentication permission billing
        model_unavailable bad_request request_too_large rate_limited server_error refusal truncated
        invalid_response unknown :
      ProviderFailureKind

-- The latency is counted in microseconds.
pub record ProviderTelemetry : Type 0 where
  pub model : String
  pub latency : ℕ
  pub request_id : Option String
  pub stop_reason : Option String
  pub usage : Option TokenUsage
  pub aborted : Bool
  pub refusal_category : Option String

-- How a call of a model ends: a reply, `ProviderTimeoutError`, another `ProviderFailure`, or any
-- other exception. The kind of a `ProviderTimeoutError` can be given by who raises it.
pub data Outcome (Reply : Type 0) : Type 0 where
  replied : Reply → Option ProviderTelemetry → Outcome Reply
  timed_out : ProviderFailureKind → Option ProviderTelemetry → Outcome Reply
  failed : ProviderFailureKind → Option ProviderTelemetry → Outcome Reply
  crashed : Outcome Reply
