-- ===== src/Copilot/Routing/Closed.antt =====
-- A question with an unknown word in v2/src/footballai_v2/copilot: the routing of grounding.py under the agent of
-- agent/loop.py.
use football_ai.Prelude.{
  ℕ, ◌≡◌, refl, ap, ◌∙◌, String, Bool, true, false, not, ◌||◌, Option, some, List, [], any,
  is_empty,
}
use football_ai.Prelude.Result.{ok}
use football_ai.Run.Text.Identifiers.{non_empty}
use football_ai.Copilot.Claims.{ValidatedRunEvidence}
use football_ai.Copilot.Explain.{abstention}
use football_ai.Copilot.Agent.Trace.{build_trace}
use football_ai.Copilot.Agent.Trace.Records.{AgentStopReason}
use football_ai.Copilot.Agent.Loop.{Agent}
use football_ai.Copilot.Agent.Answer.{
  AgentResult, answer, answer_routed, abstain, finish, opened, catalog_for, correlation_id_or,
  is_eligible_status,
}
use football_ai.Copilot.Routing.{
  is_known, route_words, unsupported_route, question_words, route_question,
}
use football_ai.Copilot.Routing.Vocabulary.{Word}

route_words-unknown :
    (words : List Word)
    → any (λ w. not (is_known w)) words ≡ true
    → route_words words ≡ unsupported_route
unfolding route_words
route_words-unknown words h = rw (unknown (is_empty words)) refl
  where
    unknown : (b : Bool) → (b || any (λ w. not (is_known w)) words) ≡ true
    unknown true = refl
    unknown false = h

-- What the result for a question that is declined says.
pub record IsDeclined (r : AgentResult) : Type 0 where
  pub reason_is : r.trace.termination ≡ AgentStopReason.unsupported_question
  pub never_asked : r.trace.turns ≡ []
  pub never_called : r.trace.tool_calls ≡ []
  pub no_citations : r.response.citations ≡ []
  pub text_is : r.response.answer ≡ abstention

module _ {Content : Type 0} (agent : Agent Content) where
  abstain-IsDeclined :
      (e : ValidatedRunEvidence) (question : Option String) (id : String) (started : ℕ)
      → IsDeclined (
          abstain agent e
            (opened agent e (catalog_for agent e question) id)
            started
            AgentStopReason.unsupported_question
            abstention)
  unfolding abstain finish build_trace
  abstain-IsDeclined e question id started = record {
    reason_is = refl;
    never_asked = refl;
    never_called = refl;
    no_citations = refl;
    text_is = refl;
  }

  -- An agent that routes with `route_question` declines a question, about a run that succeeded fully or in part,
  -- in which a single word is unknown: no turn of the model is taken and no tool is called.
  pub answer-IsDeclined :
      (lower : ℕ → List ℕ) (is_word : ℕ → Bool) (fresh_id run_id : String)
      (e : ValidatedRunEvidence) (question : String) (correlation_id : Option String)
      → ((q : Option String) → agent.router q ≡ route_question lower is_word q)
      → is_eligible_status e.status ≡ true
      → non_empty question ≡ true
      → any (λ w. not (is_known w)) (question_words lower is_word question) ≡ true
      → (r : AgentResult) × (answer agent fresh_id run_id e (some question) correlation_id ≡ ok r)
        × IsDeclined r
  unfolding answer answer_routed route_question
  answer-IsDeclined lower is_word fresh_id run_id e question correlation_id routes eligible asked
        unknown =
      let routed : agent.router (some question) ≡ unsupported_route =
        routes (some question)
        ∙ rw asked (route_words-unknown (question_words lower is_word question) unknown) in
      (
        _,
        rw (eligible, ap (λ r. r.scope) routed) refl,
        abstain-IsDeclined e (some question) (correlation_id_or fresh_id correlation_id)
            (agent.clock 0),
      )
