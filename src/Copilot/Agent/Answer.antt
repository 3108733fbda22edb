-- ===== src/Copilot/Agent/Answer.antt =====
-- `ReadOnlyAgent.answer` of v2/src/footballai_v2/copilot/agent/loop.py: what goes before the loop, the
-- grounding of a selection, and the result. The evidence is what `build` returns for the run, and
-- `fresh_id` is `uuid.uuid4().hex`.
pub mod Conclusion
use football_ai.Prelude.{
  ℕ, ◌+◌, ◌-◌, String, Bool, not, ◌&&◌, ◌||◌, Option, none, some, List, [], ◌∷◌, all, is_empty, leb,
  ◌==◌, length, str_eq, is_some, if◌then◌else◌,
}
use Prim.Native.String.{count}
use football_ai.Prelude.Result.{Result, ok, err, ◌>>◌, ◌>>=◌}
use football_ai.Prelude.Dict
use football_ai.Run.Text.Identifiers.{codes}
use football_ai.Copilot.Claims.{
  EvidenceClaim, ModelMode, not_invoked, ExplanationResponse, ValidatedRunEvidence,
}
use football_ai.Copilot.Grounding.{
  QuestionRoute, Forged, eligible_claims, can_answer, claims_to_render, render_claims,
  validate_citations, keep,
}
use football_ai.Copilot.Explain.{
  unavailable_response, supported_response, is_unsupported, abstention, no_evidence_answer,
  no_claim_answer,
}
use football_ai.Copilot.Agent.Tools.{is_approved_registry}
use football_ai.Copilot.Agent.Trace.{AgentTrace, build_trace, ids_of}
use football_ai.Copilot.Agent.Trace.Records.{
  AgentStopReason, ErrorCode, TraceRecorder, new_recorder,
}
use football_ai.Copilot.Agent.Loop.{Agent, Session, user, Ending, stopped, selected}
use football_ai.Copilot.Agent.Conversation.{turns}

-- `_PUBLIC_REASONS`
abbrev pub public_reason : AgentStopReason → String
public_reason AgentStopReason.answered = ""
public_reason AgentStopReason.unsupported_question = "unsupported_question"
public_reason AgentStopReason.evidence_not_available = "evidence_not_available"
public_reason AgentStopReason.no_relevant_claim = "no_relevant_claim"
public_reason AgentStopReason.selection_rejected = "forged_citation"
public_reason AgentStopReason.citation_rejected = "forged_citation"
public_reason AgentStopReason.cross_run_rejected = "cross_run_rejected"
public_reason AgentStopReason.tool_budget_exhausted = "agent_limit_reached"
public_reason AgentStopReason.turn_budget_exhausted = "agent_limit_reached"
public_reason AgentStopReason.deadline_exceeded = "agent_limit_reached"
public_reason AgentStopReason.budget_exhausted = "agent_limit_reached"
public_reason AgentStopReason.prompt_budget_exceeded = "prompt_budget_exceeded"
public_reason AgentStopReason.model_timeout = "provider_timeout"
public_reason AgentStopReason.model_refusal = "provider_unavailable"
public_reason AgentStopReason.model_truncated = "provider_unavailable"
public_reason AgentStopReason.malformed_response = "provider_unavailable"
public_reason AgentStopReason.provider_error = "provider_unavailable"

abbrev failed_answer : String
failed_answer =
    "The evidence agent could not finish this question safely, so no answer was produced. The run's verified evidence remains visible on this page."

pub record AgentResult : Type 0 where
  pub response : ExplanationResponse
  pub trace : AgentTrace

pub data AgentError : Type 0 where
  run_not_eligible invalid_registry : AgentError

correlation_char : ℕ → Bool
correlation_char c =
    (leb b'A' c && leb c b'Z')
    || (leb b'a' c && leb c b'z')
    || (leb b'0' c && leb c b'9')
    || c == b'_'
    || c == b'.'
    || c == b':'
    || c == b'-'

-- `_CORRELATION_ID_RE.fullmatch`
unfoldable pub is_correlation_id : String → Bool
unfolding correlation_char
is_correlation_id s = leb 1 (count s) && leb (count s) 64 && all correlation_char (codes s)

abbrev pub correlation_id_or : (fresh_id : String) → Option String → String
correlation_id_or fresh_id none = fresh_id
correlation_id_or fresh_id (some s) = if is_correlation_id s then s else fresh_id

abbrev pub is_eligible_status : String → Bool
is_eligible_status status = str_eq status "succeeded" || str_eq status "partial"

module _ {Content : Type 0} (agent : Agent Content) where
  -- `_mode`
  abbrev pub mode_of : TraceRecorder → ModelMode
  mode_of r = if is_empty r.turns then not_invoked else agent.mode

  -- `_finish`
  unfoldable pub finish :
      ExplanationResponse
      → Session
      → (started : ℕ) → AgentStopReason
      → Option ErrorCode
      → (chosen rendered : List String) → (rejected : ℕ) → AgentResult
  finish response s started termination code chosen rendered rejected = record {
    response = response;
    trace =
        build_trace s.recorder termination response.model_mode (agent.clock s.ticks - started) code
          chosen rendered rejected;
  }

  -- `_abstain`
  unfoldable pub abstain :
      ValidatedRunEvidence
      → Session
      → (started : ℕ) → AgentStopReason
      → (answer : String) → AgentResult
  abstain e s started reason answer =
      finish (unavailable_response e (public_reason reason) not_invoked answer) s started reason
        none [] [] 0

  -- `_failed`
  unfoldable pub fail_with :
      ValidatedRunEvidence
      → Session
      → (started : ℕ) → AgentStopReason
      → Option ErrorCode
      → (chosen : List String) → (rejected : ℕ) → AgentResult
  fail_with e s started reason code chosen rejected =
      finish (unavailable_response e (public_reason reason) (mode_of s.recorder) failed_answer) s
        started reason code chosen [] rejected

  -- What `_ground` shows: the claims with their rendering, checked, or nothing.
  unfoldable pub checked :
      ValidatedRunEvidence
      → (run_id : String) → Option (List EvidenceClaim)
      → Result Forged (Option (List EvidenceClaim))
  checked e run_id none = ok none
  checked e run_id (some shown) =
      validate_citations (render_claims shown).1 e run_id >> ok (some shown)

  -- The result of `_ground`, after the checks.
  unfoldable pub grounded :
      ValidatedRunEvidence
      → Session
      → (started : ℕ) → (known : List String) → Result Forged (Option (List EvidenceClaim))
      → AgentResult
  grounded e s started known (err forged) =
      fail_with e s started AgentStopReason.citation_rejected none known 0
  grounded e s started known (ok none) =
      finish
        (unavailable_response e (public_reason AgentStopReason.no_relevant_claim) agent.mode
          no_claim_answer)
        s started AgentStopReason.no_relevant_claim none known [] 0
  grounded e s started known (ok (some shown)) =
      finish (supported_response e agent.mode (render_claims shown)) s started
        AgentStopReason.answered none known (ids_of shown) 0

  abbrev pub known_ids : Session → List String → List String
  known_ids s ids = keep (λ i. is_some (Dict.get s.retrieved i)) ids

  -- `_ground`
  unfoldable pub ground_selection :
      (run_id : String)
      → ValidatedRunEvidence
      → (catalog : List EvidenceClaim) → QuestionRoute
      → (claim_ids : List String) → Session
      → (started : ℕ) → AgentResult
  ground_selection run_id e catalog route ids s started =
      let known = known_ids s ids in
      if not (length known == length ids)
      then fail_with e s started AgentStopReason.selection_rejected none known
          (length ids - length known)
      else grounded e s started known (claims_to_render catalog known route >>= checked e run_id)

  -- What follows the loop.
  unfoldable pub conclude :
      (run_id : String)
      → ValidatedRunEvidence
      → (catalog : List EvidenceClaim) → QuestionRoute
      → (started : ℕ) → Ending × Session
      → AgentResult
  conclude run_id e catalog route started (stopped stop, s) =
      fail_with e s started stop.reason stop.error_code [] 0
  conclude run_id e catalog route started (selected ids, s) =
      ground_selection run_id e catalog route ids s started

  -- The session before the first turn.
  abbrev pub opened :
      ValidatedRunEvidence → (catalog : List EvidenceClaim) → (correlation_id : String) → Session
  opened e catalog correlation_id = record {
    ticks = 1;
    recorder = new_recorder correlation_id e.run_id agent.price;
    registry = record {
      output_nature = e.output_nature;
      catalog = catalog;
      specs = agent.tools;
      called = [];
    };
    retrieved = [];
  }

  -- `_converse`
  unfoldable pub converse :
      ValidatedRunEvidence
      → (question : Option String) → (catalog : List EvidenceClaim) → (started : ℕ) → Session
      → Ending × Session
  converse e question catalog started s =
      turns agent agent.limits.max_model_turns (started + agent.limits.total_timeout)
        (ids_of catalog) (user (agent.user_message e question) ∷ [])
        (agent.opening_chars e question) s

  -- A question that has a route and a catalog.
  unfoldable pub answer_routed :
      (run_id : String)
      → ValidatedRunEvidence
      → (question : Option String) → (catalog : List EvidenceClaim) → QuestionRoute
      → Session
      → (started : ℕ) → Result AgentError AgentResult
  answer_routed run_id e question catalog route s started =
      if is_unsupported route.scope
      then ok (abstain e s started AgentStopReason.unsupported_question abstention)
      else if not (can_answer catalog route)
      then ok (abstain e s started AgentStopReason.evidence_not_available no_evidence_answer)
      else if not (is_approved_registry agent.tools)
      then err invalid_registry
      else ok (conclude run_id e catalog route started (converse e question catalog started s))

  abbrev pub catalog_for : ValidatedRunEvidence → (question : Option String) → List EvidenceClaim
  catalog_for e question = eligible_claims (agent.build_claim_catalog e) (agent.router question)

  -- `answer`. The clock is read once before the evidence is built.
  unfoldable pub answer :
      (fresh_id : String)
      → (run_id : String) → ValidatedRunEvidence
      → (question correlation_id : Option String) → Result AgentError AgentResult
  answer fresh_id run_id e question correlation_id =
      if not (is_eligible_status e.status)
      then err run_not_eligible
      else answer_routed run_id e question (catalog_for e question) (agent.router question)
          (opened e (catalog_for e question) (correlation_id_or fresh_id correlation_id))
          (agent.clock 0)
