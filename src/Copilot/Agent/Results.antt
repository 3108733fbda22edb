-- ===== src/Copilot/Agent/Results.antt =====
-- The results of `ReadOnlyAgent.answer`, v2/src/footballai_v2/copilot/agent/loop.py, with their traces,
-- v2/src/footballai_v2/copilot/agent/trace.py.
use football_ai.Prelude.{
  length, ℕ, ◌≡◌, refl, sym, subst, false, Option, none, some, String, List, [], ◌∷◌, ◌⊎◌, inl, inr,
  All, All-map, arith, if◌then◌else◌, is_empty, Option-cases,
}
use football_ai.Prelude.Result.{ok}
use football_ai.Prelude.Dict
use football_ai.Copilot.Claims.{EvidenceClaim, unavailable, not_invoked, ValidatedRunEvidence}
use football_ai.Copilot.Grounding.{
  QuestionRoute, output_nature_id, validate_citations, claims_to_render,
}
use football_ai.Copilot.Grounding.Catalog.{IsNamed}
use football_ai.Prelude.Dict.{All-get}
use football_ai.Copilot.Grounding.Selection.{claims_to_render-IsGrounded}
use football_ai.Copilot.Explain.{support_level_for}
use football_ai.Copilot.Agent.Trace.{AgentTrace, ids_of, build_trace}
use football_ai.Copilot.Agent.Trace.Records.{AgentStopReason, is_answered}
use football_ai.Copilot.Agent.Loop.{Agent, Session}
use football_ai.Copilot.Agent.Invariant.Bounds.{IsWithin, Reach-IsWithin}
use football_ai.Copilot.Agent.Invariant.Retrieved.{IsTraced, Reach-IsTraced}
use football_ai.Copilot.Agent.Invariant.Distinct.{IsDistinct, tools_run, Reach-IsOnce}
use football_ai.Copilot.Agent.Answer.{
  AgentResult, answer, finish, catalog_for, public_reason, mode_of,
}
use football_ai.Copilot.Agent.Answer.Conclusion.{
  IsRetrieved, IsConclusion, unanswered, shows, answer-IsConcluded,
}

-- What a trace and a response repeat of the session that they are built from.
record IsRecorded {Content : Type 0} (agent : Agent Content) (s : Session) (r : AgentResult)
    : Type 0 where
  turns_are : r.trace.turns ≡ s.recorder.turns
  counted : r.trace.model_turns ≡ length r.trace.turns
  calls_are : r.trace.tool_calls ≡ s.recorder.tool_calls
  returned_are : r.trace.claim_ids_returned ≡ s.recorder.returned
  mode_is : r.response.model_mode ≡ mode_of agent s.recorder
  trace_mode_is : r.trace.model_mode ≡ r.response.model_mode

ids_of-All :
    (P : String → Type 0) (cs : List EvidenceClaim) → All (λ c. P c.claim_id) cs → All P (ids_of cs)
ids_of-All P [] h = tt
ids_of-All P (c ∷ cs) h = (h.0, ids_of-All P cs h.1)

-- Where the ids of a trace come from.
pub record IsSourced (catalog : List EvidenceClaim) (t : AgentTrace) : Type 0 where
  pub returned_in : All (λ i. IsNamed i (ids_of catalog)) t.claim_ids_returned
  pub selected_in : All (λ i. IsNamed i t.claim_ids_returned) t.claim_ids_selected
  pub rendered_in :
      All (λ i. (i ≡ output_nature_id) ⊎ IsNamed i t.claim_ids_selected) t.claim_ids_rendered

IsRetrieved-returned :
    (s : Session) (i : String)
    → All (λ x. IsNamed x.0 s.recorder.returned) s.retrieved
    → IsRetrieved s i
    → IsNamed i s.recorder.returned
IsRetrieved-returned s i h k = elim (Option-cases (Dict.get s.retrieved i)) [
  | inl e ↦ cc
  | inr (c, e) ↦ All-get (λ x. IsNamed x.0 s.recorder.returned) s.retrieved i h e
]

shown-IsNamed :
    (catalog : List EvidenceClaim) (known : List String) (route : QuestionRoute)
    (shown : List EvidenceClaim)
    → claims_to_render catalog known route ≡ ok (some shown)
    → All (λ i. (i ≡ output_nature_id) ⊎ IsNamed i known) (ids_of shown)
shown-IsNamed catalog known route shown h =
    let g = claims_to_render-IsGrounded catalog known route shown h in
    subst (λ cs. All (λ i. (i ≡ output_nature_id) ⊎ IsNamed i known) (ids_of cs))
      (sym g.label_first)
      (
        inl g.label_is,
        ids_of-All (λ i. (i ≡ output_nature_id) ⊎ IsNamed i known) g.chosen
            (All-map g.chosen (λ c k. inr k.1) g.chosen_in),
      )

-- What a client reads: an answer whose citations were checked, or no answer and no citation.
pub record IsAnswered (e : ValidatedRunEvidence) (run_id : String) (r : AgentResult) : Type 0 where
  pub is_answer : r.trace.termination ≡ AgentStopReason.answered
  pub citations_valid : validate_citations r.response.citations e run_id ≡ ok tt
  pub level : r.response.support_level ≡ support_level_for e
  pub no_reason : r.response.unavailable_reason ≡ none

pub record IsUnanswered (r : AgentResult) : Type 0 where
  pub no_answer : is_answered r.trace.termination ≡ false
  pub no_citations : r.response.citations ≡ []
  pub nothing_rendered : r.trace.claim_ids_rendered ≡ []
  pub level : r.response.support_level ≡ unavailable
  pub reason_is : r.response.unavailable_reason ≡ some (public_reason r.trace.termination)

module _ {Content : Type 0} (agent : Agent Content) where
  conclusion-IsRecorded :
      {e : ValidatedRunEvidence} {run_id : String} {catalog : List EvidenceClaim}
      {route : QuestionRoute} {started : ℕ} {s : Session} {r : AgentResult}
      → IsConclusion agent e run_id catalog route started s r
      → IsRecorded agent s r
  unfolding finish build_trace
  conclusion-IsRecorded
        (unanswered reason code mode text known n no_answer mode_eq retrieved result) =
      subst (IsRecorded agent _) (sym result) (record {
        turns_are = refl;
        counted = refl;
        calls_are = refl;
        returned_are = refl;
        mode_is = mode_eq;
        trace_mode_is = refl;
      })
  conclusion-IsRecorded (shows known shown mode_eq retrieved renders valid result) =
      subst (IsRecorded agent _) (sym result) (record {
        turns_are = refl;
        counted = refl;
        calls_are = refl;
        returned_are = refl;
        mode_is = mode_eq;
        trace_mode_is = refl;
      })

  -- The turns and the tool calls of a request are within the limits of the agent, and each is numbered
  -- within them.
  pub answer-IsWithin :
      (fresh_id run_id : String) (e : ValidatedRunEvidence)
      (question correlation_id : Option String) (r : AgentResult)
      → answer agent fresh_id run_id e question correlation_id ≡ ok r
      → IsWithin agent.limits r.trace.turns r.trace.tool_calls
  answer-IsWithin fresh_id run_id e question correlation_id r h =
      let c = answer-IsConcluded agent fresh_id run_id e question correlation_id r h in
      let recorded = conclusion-IsRecorded c.concluded in
      subst (λ ts. IsWithin agent.limits ts r.trace.tool_calls) (sym recorded.turns_are)
        (subst (λ cs. IsWithin agent.limits c.session.recorder.turns cs) (sym recorded.calls_are)
          (Reach-IsWithin agent
            (record {
              turns_le = omega arith;
              calls_le = omega arith;
              turns_within = tt;
              calls_within = tt;
            })
            c.reached))

  -- No tool runs twice in one request.
  pub answer-IsDistinct :
      (fresh_id run_id : String) (e : ValidatedRunEvidence)
      (question correlation_id : Option String) (r : AgentResult)
      → answer agent fresh_id run_id e question correlation_id ≡ ok r
      → IsDistinct (tools_run r.trace.tool_calls)
  unfolding IsDistinct tools_run
  answer-IsDistinct fresh_id run_id e question correlation_id r h =
      let c = answer-IsConcluded agent fresh_id run_id e question correlation_id r h in
      let recorded = conclusion-IsRecorded c.concluded in
      subst (λ cs. IsDistinct (tools_run cs)) (sym recorded.calls_are)
        (Reach-IsOnce agent (record { distinct_tools = tt; marked = λ t. refl })
          c.reached).distinct_tools

  conclusion-IsSourced :
      {e : ValidatedRunEvidence} {run_id : String} {catalog : List EvidenceClaim}
      {route : QuestionRoute} {started : ℕ} {s : Session} {r : AgentResult}
      → IsTraced catalog s.registry s.recorder.returned s.retrieved
      → IsConclusion agent e run_id catalog route started s r
      → IsSourced catalog r.trace
  unfolding finish build_trace
  conclusion-IsSourced {catalog} {s} t
        (unanswered reason code mode text known n no_answer mode_eq retrieved result) =
      subst (λ x. IsSourced catalog x.trace) (sym result)
        (record {
          returned_in = t.returned_in;
          selected_in =
              All-map known (λ i k. IsRetrieved-returned s i t.retrieved_returned k) retrieved;
          rendered_in = tt;
        })
  conclusion-IsSourced {catalog} {route} {s} t
        (shows known shown mode_eq retrieved renders valid result) =
      subst (λ x. IsSourced catalog x.trace) (sym result)
        (record {
          returned_in = t.returned_in;
          selected_in =
              All-map known (λ i k. IsRetrieved-returned s i t.retrieved_returned k) retrieved;
          rendered_in = shown-IsNamed catalog known route shown renders;
        })

  -- Every id that a trace says was returned is of the catalog for the question, every selected id was
  -- returned, and every rendered id was selected or is the one that labels the nature of the output.
  pub answer-IsSourced :
      (fresh_id run_id : String) (e : ValidatedRunEvidence)
      (question correlation_id : Option String) (r : AgentResult)
      → answer agent fresh_id run_id e question correlation_id ≡ ok r
      → IsSourced (catalog_for agent e question) r.trace
  answer-IsSourced fresh_id run_id e question correlation_id r h =
      let c = answer-IsConcluded agent fresh_id run_id e question correlation_id r h in
      conclusion-IsSourced
        (Reach-IsTraced agent (catalog_for agent e question)
          (record {
            catalog_kept = refl;
            returned_in = tt;
            retrieved_in = tt;
            retrieved_returned = tt;
          })
          c.reached)
        c.concluded

  conclusion-cases :
      {e : ValidatedRunEvidence} {run_id : String} {catalog : List EvidenceClaim}
      {route : QuestionRoute} {started : ℕ} {s : Session} {r : AgentResult}
      → IsConclusion agent e run_id catalog route started s r
      → IsAnswered e run_id r ⊎ IsUnanswered r
  unfolding finish build_trace
  conclusion-cases {e} {run_id}
        (unanswered reason code mode text known n no_answer mode_eq retrieved result) =
      subst (λ x. IsAnswered e run_id x ⊎ IsUnanswered x) (sym result)
        (inr (record {
          no_answer = no_answer;
          no_citations = refl;
          nothing_rendered = refl;
          level = refl;
          reason_is = refl;
        }))
  conclusion-cases {e} {run_id} (shows known shown mode_eq retrieved renders valid result) =
      subst (λ x. IsAnswered e run_id x ⊎ IsUnanswered x) (sym result)
        (inl (record { is_answer = refl; citations_valid = valid; level = refl; no_reason = refl }))

  -- A result is an answer whose citations are all valid for the run, or it says why there is none and has
  -- no citation; and its mode is that of the model if a turn of the model was recorded, and not_invoked
  -- otherwise.
  pub answer-cases :
      (fresh_id run_id : String) (e : ValidatedRunEvidence)
      (question correlation_id : Option String) (r : AgentResult)
      → answer agent fresh_id run_id e question correlation_id ≡ ok r
      → (IsAnswered e run_id r ⊎ IsUnanswered r)
        × (r.response.model_mode ≡ (if is_empty r.trace.turns then not_invoked else agent.mode))
  answer-cases fresh_id run_id e question correlation_id r h =
      let c = answer-IsConcluded agent fresh_id run_id e question correlation_id r h in
      let recorded = conclusion-IsRecorded c.concluded in
      (
        conclusion-cases c.concluded,
        subst (λ ts. r.response.model_mode ≡ (if is_empty ts then not_invoked else agent.mode))
            (sym recorded.turns_are) recorded.mode_is,
      )
