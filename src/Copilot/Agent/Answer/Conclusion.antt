-- ===== src/Copilot/Agent/Answer/Conclusion.antt =====
-- How a request ends, in v2/src/footballai_v2/copilot/agent/loop.py: every result with a session that the
-- loop can reach.
use football_ai.Prelude.{
  ℕ, ◌≤◌, ◌≡◌, refl, ap, ◌∙◌, subst, true, false, not, Option, none, some, is_some, some_eq, String,
  List, [], ◌∷◌, All, arith, if_both, is_empty, length, ◌==◌, if◌then◌else◌,
}
use football_ai.Prelude.Result.{Result, ok, err, ok_eq, >>=-eq-ok, >>-eq-ok, ◌>>=◌}
use football_ai.Prelude.Dict
use football_ai.Copilot.Claims.{EvidenceClaim, ModelMode, not_invoked, ValidatedRunEvidence}
use football_ai.Copilot.Grounding.{
  QuestionRoute, Forged, can_answer, claims_to_render, render_claims, validate_citations,
}
use football_ai.Copilot.Grounding.Catalog.{keep-All}
use football_ai.Copilot.Explain.{unavailable_response, supported_response, is_unsupported}
use football_ai.Copilot.Agent.Tools.{is_approved_registry}
use football_ai.Copilot.Agent.Trace.{ids_of}
use football_ai.Copilot.Agent.Trace.Records.{
  ModelTurnTrace, is_answered, AgentStopReason, ErrorCode, model_turns,
}
use football_ai.Copilot.Agent.Loop.{Agent, Session, Ending, stopped, selected}
use football_ai.Copilot.Agent.Invariant.{Reach, here, turns-Reach}
use football_ai.Copilot.Agent.Invariant.Asked.{IsAsked, turns-IsAsked}
use football_ai.Copilot.Agent.Answer.{
  AgentResult, AgentError, mode_of, finish, abstain, fail_with, checked, grounded, known_ids,
  ground_selection, conclude, opened, converse, answer_routed, catalog_for, answer, public_reason,
  correlation_id_or, is_eligible_status,
}

-- An id of a claim that a tool returned.
abbrev pub IsRetrieved : Session → String → Type 0
IsRetrieved s i = is_some (Dict.get s.retrieved i) ≡ true

module _ {Content : Type 0} (agent : Agent Content) (e : ValidatedRunEvidence) (run_id : String)
    (catalog : List EvidenceClaim) (route : QuestionRoute) (started : ℕ) where
  -- No answer, for a reason, or claims whose citations were checked.
  pub data IsConclusion (s : Session) (r : AgentResult) : Type 0 where
    unanswered :
        (reason : AgentStopReason) (code : Option ErrorCode) (mode : ModelMode) (text : String)
        (known : List String) (n : ℕ)
        → is_answered reason ≡ false
        → mode ≡ mode_of agent s.recorder
        → All (IsRetrieved s) known
        → r
          ≡ finish agent
              (unavailable_response e (public_reason reason) mode text)
              s
              started
              reason
              code
              known
              []
              n
        → IsConclusion s r
    shows :
        (known : List String) (shown : List EvidenceClaim)
        → agent.mode ≡ mode_of agent s.recorder
        → All (IsRetrieved s) known
        → claims_to_render catalog known route ≡ ok (some shown)
        → validate_citations (render_claims shown).1 e run_id ≡ ok tt
        → r
          ≡ finish agent
              (supported_response e agent.mode (render_claims shown))
              s
              started
              AgentStopReason.answered
              none
              known
              (ids_of shown)
              0
        → IsConclusion s r

  asked-mode : (s : Session) → 1 ≤ model_turns s.recorder → agent.mode ≡ mode_of agent s.recorder
  asked-mode s h = asked_turns s.recorder.turns h
    where
      asked_turns :
          (ts : List ModelTurnTrace)
          → 1 ≤ length ts
          → agent.mode ≡ (if is_empty ts then not_invoked else agent.mode)
      asked_turns [] h = absurd (omega (arith, h))
      asked_turns (t ∷ ts) h = refl

  checked-some :
      (o : Option (List EvidenceClaim)) (shown : List EvidenceClaim)
      → checked agent e run_id o ≡ ok (some shown)
      → (o ≡ some shown) × (validate_citations (render_claims shown).1 e run_id ≡ ok tt)
  unfolding checked
  checked-some none shown h = cc
  checked-some (some given) shown h =
      let (valid, same) = >>-eq-ok (validate_citations (render_claims given).1 e run_id) _ h in
      let same_shown = some_eq (ok_eq same) in
      (
        ap some same_shown,
        subst (λ z. validate_citations (render_claims z).1 e run_id ≡ ok tt) same_shown valid,
      )

  grounded-IsConclusion :
      (s : Session) (known : List String) (r : Result Forged (Option (List EvidenceClaim)))
      → 1 ≤ model_turns s.recorder
      → All (IsRetrieved s) known
      → (claims_to_render catalog known route >>= checked agent e run_id) ≡ r
      → IsConclusion s (grounded agent e s started known r)
  unfolding grounded fail_with
  grounded-IsConclusion s known (err forged) turned retrieved h =
      unanswered AgentStopReason.citation_rejected none _ _ known 0 refl refl retrieved refl
  grounded-IsConclusion s known (ok none) turned retrieved h =
      unanswered AgentStopReason.no_relevant_claim none agent.mode _ known 0 refl
        (asked-mode s turned) retrieved refl
  grounded-IsConclusion s known (ok (some shown)) turned retrieved h =
      let (o, renders, checks) =
        >>=-eq-ok (claims_to_render catalog known route) (checked agent e run_id) h in
      let (same, valid) = checked-some o shown checks in
      shows known shown (asked-mode s turned) retrieved (renders ∙ ap ok same) valid refl

  conclude-IsConclusion :
      (x : Ending × Session)
      → IsAsked agent x
      → IsConclusion x.1 (conclude agent run_id e catalog route started x)
  unfolding conclude ground_selection IsAsked fail_with
  conclude-IsConclusion (stopped stop, s) asked =
      unanswered stop.reason stop.error_code _ _ [] 0 asked refl tt refl
  conclude-IsConclusion (selected ids, s) asked =
      if_both (IsConclusion s) (not (length (known_ids agent s ids) == length ids))
        (λ _.
          unanswered AgentStopReason.selection_rejected none _ _ (known_ids agent s ids) _ refl refl
            (keep-All _ ids) refl)
        (λ _. grounded-IsConclusion s (known_ids agent s ids) _ asked (keep-All _ ids) refl)

-- A session of the loop with the conclusion that is drawn from it.
pub record IsConcluded {Content : Type 0} (agent : Agent Content) (e : ValidatedRunEvidence)
    (run_id : String) (question : Option String) (id : String) (r : AgentResult) : Type 0 where
  pub session : Session
  pub reached : Reach agent (opened agent e (catalog_for agent e question) id) session
  pub concluded :
      IsConclusion agent e run_id
        (catalog_for agent e question)
        (agent.router question)
        (agent.clock 0)
        session
        r

module _ {Content : Type 0} (agent : Agent Content) where
  abstained :
      (run_id : String) (e : ValidatedRunEvidence) (question : Option String) (id : String)
      (reason : AgentStopReason) (text : String)
      → is_answered reason ≡ false
      → IsConcluded agent e run_id question id (
          abstain agent e
            (opened agent e (catalog_for agent e question) id)
            (agent.clock 0)
            reason
            text)
  unfolding abstain
  abstained run_id e question id reason text h = record {
    session = opened agent e (catalog_for agent e question) id;
    reached = here;
    concluded = unanswered reason none not_invoked text [] 0 h refl tt refl;
  }

  converse-IsConcluded :
      (run_id : String) (e : ValidatedRunEvidence) (question : Option String) (id : String)
      → IsConcluded agent e run_id question id (
          conclude agent run_id e
            (catalog_for agent e question)
            (agent.router question)
            (agent.clock 0)
            (converse agent e question
              (catalog_for agent e question)
              (agent.clock 0)
              (opened agent e (catalog_for agent e question) id)))
  unfolding converse
  converse-IsConcluded run_id e question id =
      let start = opened agent e (catalog_for agent e question) id in
      record {
        session = _;
        reached = turns-Reach agent agent.limits.max_model_turns _ _ _ _ start (omega arith) here;
        concluded =
            conclude-IsConclusion agent e run_id (catalog_for agent e question)
              (agent.router question) (agent.clock 0) _
              (turns-IsAsked agent agent.limits.max_model_turns _ _ _ _ start);
      }

  pub answer-IsConcluded :
      (fresh_id run_id : String) (e : ValidatedRunEvidence)
      (question correlation_id : Option String) (r : AgentResult)
      → answer agent fresh_id run_id e question correlation_id ≡ ok r
      → IsConcluded agent e run_id question (correlation_id_or fresh_id correlation_id) r
  unfolding answer answer_routed
  answer-IsConcluded fresh_id run_id e question correlation_id r h =
      if_both Concludes (not (is_eligible_status e.status)) (λ _ k. cc)
        (λ _.
          if_both Concludes (is_unsupported route.scope)
            (λ _ k. subst Concluded (ok_eq k) (abstained run_id e question id _ _ refl))
            (λ _.
              if_both Concludes (not (can_answer (catalog_for agent e question) route))
                (λ _ k. subst Concluded (ok_eq k) (abstained run_id e question id _ _ refl))
                (λ _.
                  if_both Concludes (not (is_approved_registry agent.tools)) (λ _ k. cc)
                    (λ _ k.
                      subst Concluded (ok_eq k) (converse-IsConcluded run_id e question id)))))
        h
    where
      route : QuestionRoute
      route = agent.router question

      id : String
      id = correlation_id_or fresh_id correlation_id

      Concluded : AgentResult → Type 0
      Concluded x = IsConcluded agent e run_id question id x

      Concludes : Result AgentError AgentResult → Type 0
      Concludes x = x ≡ ok r → Concluded r
