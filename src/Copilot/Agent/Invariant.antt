-- ===== src/Copilot/Agent/Invariant.antt =====
-- What happens to a session, one step at a time: the loop of
-- v2/src/footballai_v2/copilot/agent/loop.py as a relation between sessions.
pub mod Asked
pub mod Bounds
pub mod Retrieved
pub mod Distinct
use football_ai.Prelude.{
  ℕ, zero, suc, ◌+◌, ◌-◌, ◌≤◌, ◌<◌, ◌≡◌, refl, sym, ap, ◌∙◌, subst, Bool, true, false, Option, none,
  some, String, List, [], ◌∷◌, ◌++◌, ◌⊎◌, inl, inr, length, length-append, arith, if-eq, if_both,
  if◌then◌else◌, leb, ltb, ◌==◌, is_empty, any, Bool-cases, Option-cases,
}
use football_ai.Copilot.Provider.{
  ProviderFailureKind, ProviderTelemetry, Outcome, replied, timed_out, failed, crashed,
}
use football_ai.Copilot.Agent.Tools.{references_a_run}
use football_ai.Copilot.Agent.Trace.{record_turn, record_tool}
use football_ai.Copilot.Agent.Trace.Records.{is_answered, tool_call_count, model_turns}
use football_ai.Copilot.Agent.Trace.Recorded.{model_turns-record_turn}
use football_ai.Copilot.Agent.Loop.{
  failure_stop, Agent, AgentReply, AgentModelRequest, ToolCall, ToolResult, Message, Session, Stop,
  Ending, Turn, went_on, ended, tick, never_sent,
}
use football_ai.Copilot.Agent.Conversation.{
  with_peak, with_refused, turn_recorded, after_call, model_turn, refusal, tool_recorded, executed,
  run_tools, answer_calls, follow, turns,
}

failure_stop-unanswered : (kind : ProviderFailureKind) → is_answered (failure_stop kind) ≡ false
failure_stop-unanswered kind = elim kind as (λ k. is_answered (failure_stop k) ≡ false) [
  | ProviderFailureKind.refusal ↦ refl
  | _ ↦ refl
]

module _ {Content : Type 0} (agent : Agent Content) where
  -- A reading of the clock, a turn of the model within the limit, or a tool call within the limit.
  pub data Change (s t : Session) : Type 0 where
    read : t ≡ tick s → Change s t
    peaked : (chars : ℕ) → t ≡ with_peak chars s → Change s t
    refused : (n : ℕ) → t ≡ with_refused n s → Change s t
    asked :
        (called : ℕ) (telemetry : Option ProviderTelemetry)
        → model_turns s.recorder < agent.limits.max_model_turns
        → t ≡ turn_recorded agent called telemetry s
        → Change s t
    ran :
        (call : ToolCall)
        → 1 ≤ model_turns s.recorder
        → tool_call_count s.recorder < agent.limits.max_tool_calls
        → t ≡ tool_recorded agent (executed agent call s) s
        → Change s t

  pub data Reach (s : Session) : Session → Type 0 where
    here : Reach s s
    next : {t u : Session} → Reach s t → Change t u → Reach s u

  turn_recorded-turns :
      (s : Session) (called : ℕ) (telemetry : Option ProviderTelemetry)
      → model_turns (turn_recorded agent called telemetry s).recorder ≡ model_turns s.recorder + 1
  unfolding turn_recorded
  turn_recorded-turns s called telemetry =
      model_turns-record_turn s.recorder (agent.clock s.ticks - called) telemetry

  -- A turn that goes on was recorded, and one that ends does not end with an answer.
  IsCounted : (before : ℕ) → Turn Content × Session → Type 0
  IsCounted n (went_on reply, s) = model_turns s.recorder ≡ n + 1
  IsCounted n (ended stop, s) = is_answered stop.reason ≡ false

  replied-IsCounted :
      (b : Bool) (n : ℕ) (stop : Stop) (reply : AgentReply Content) (t : Session)
      → is_answered stop.reason ≡ false
      → model_turns t.recorder ≡ n + 1
      → IsCounted n (if b then ended stop else went_on reply, t)
  unfolding IsCounted
  replied-IsCounted true n stop reply t k h = k
  replied-IsCounted false n stop reply t k h = h

  after_call-Reach :
      {s : Session} (timeout called : ℕ) (t : Session) (outcome : Outcome (AgentReply Content))
      → model_turns t.recorder < agent.limits.max_model_turns
      → Reach s t
      → Reach s (after_call agent timeout called t outcome).1
  unfolding after_call
  after_call-Reach timeout called t (timed_out kind telemetry) room r =
      next r (asked called telemetry room refl)
  after_call-Reach timeout called t crashed room r = next r (asked called none room refl)
  after_call-Reach timeout called t (failed kind telemetry) room r =
      if_both (Reach _) (never_sent kind) (λ _. r) (λ _. next r (asked called telemetry room refl))
  after_call-Reach timeout called t (replied reply telemetry) room r =
      next r (asked called telemetry room refl)

  model_turn-Reach :
      {s : Session} (request : AgentModelRequest Content) (t : Session)
      → model_turns t.recorder < agent.limits.max_model_turns
      → Reach s t
      → Reach s (model_turn agent request t).1
  unfolding model_turn tick
  model_turn-Reach request t room r =
      after_call-Reach request.timeout (agent.clock t.ticks) (tick t)
        (agent.complete (model_turns t.recorder) request) room (next r (read refl))

  after_call-IsCounted :
      (timeout called : ℕ) (t : Session) (outcome : Outcome (AgentReply Content))
      → IsCounted (model_turns t.recorder) (after_call agent timeout called t outcome)
  unfolding after_call IsCounted
  after_call-IsCounted timeout called t (timed_out kind telemetry) = refl
  after_call-IsCounted timeout called t crashed = refl
  after_call-IsCounted timeout called t (failed kind telemetry) = failure_stop-unanswered kind
  after_call-IsCounted timeout called t (replied reply telemetry) =
      replied-IsCounted (ltb timeout (agent.clock t.ticks - called)) (model_turns t.recorder) _
        reply _ refl (turn_recorded-turns t called telemetry)

  model_turn-IsCounted :
      (request : AgentModelRequest Content) (t : Session)
      → IsCounted (model_turns t.recorder) (model_turn agent request t)
  unfolding model_turn tick
  model_turn-IsCounted request t =
      after_call-IsCounted request.timeout (agent.clock t.ticks) (tick t) _

  tool_recorded-counts :
      (call : ToolCall) (t : Session)
      → (model_turns (tool_recorded agent (executed agent call t) t).recorder
          ≡ model_turns t.recorder)
        × (tool_call_count (tool_recorded agent (executed agent call t) t).recorder
            ≡ tool_call_count t.recorder + 1)
  unfolding tool_recorded record_tool
  tool_recorded-counts call t = (refl, length-append t.recorder.tool_calls _)

  run_tools-Reach :
      {s : Session} (calls : List ToolCall) (results : List ToolResult) (t : Session)
      → 1 ≤ model_turns t.recorder
      → tool_call_count t.recorder + length calls ≤ agent.limits.max_tool_calls
      → Reach s t
      → Reach s (run_tools agent calls results t).1
        × (model_turns (run_tools agent calls results t).1.recorder ≡ model_turns t.recorder)
  unfolding run_tools
  run_tools-Reach [] results t started room r = (r, refl)
  run_tools-Reach (call ∷ calls) results t started room r =
      let (turns_kept, one_more) = tool_recorded-counts call t in
      let (reach, kept) =
        run_tools-Reach calls _ (tool_recorded agent (executed agent call t) t)
          (omega (arith, started, turns_kept)) (omega (arith, room, one_more))
          (next r (ran call started (omega (arith, room)) refl)) in
      (reach, kept ∙ turns_kept)

  -- Calls that are not refused are within the limit.
  refusal-none :
      (reply : AgentReply Content) (t : Session) (final_turn : Bool)
      → refusal agent reply t final_turn ≡ none
      → tool_call_count t.recorder + length reply.tool_calls ≤ agent.limits.max_tool_calls
  unfolding refusal
  refusal-none reply t final_turn h =
      elim (if-eq
        (any (λ call. references_a_run agent.dumps agent.payload_json call.arguments)
          reply.tool_calls)
        _ _ h) [
          | inl (e, f) ↦ cc
          | inr (e, f) ↦
              elim (if-eq
                (ltb agent.limits.max_tool_calls
                  (tool_call_count t.recorder + length reply.tool_calls))
                _ _ f) [ inl (g, k) ↦ cc | inr (g, k) ↦ ground (arith, g) ]
        ]

  -- What the rest of the loop does with the results of a turn.
  IsRest : Session → ℕ → (List ToolResult → Session → Ending × Session) → Type 0
  IsRest s n rest =
      (results : List ToolResult) (u : Session)
      → model_turns u.recorder ≡ n
      → Reach s u
      → Reach s (rest results u).1

  answer_calls-Reach :
      {s : Session} (reply : AgentReply Content) (stop : Option Stop)
      (rest : List ToolResult → Session → Ending × Session) (t : Session)
      → 1 ≤ model_turns t.recorder
      → (stop ≡ none
          → tool_call_count t.recorder + length reply.tool_calls ≤ agent.limits.max_tool_calls)
      → IsRest s (model_turns t.recorder) rest
      → Reach s t
      → Reach s (answer_calls agent reply stop rest t).1
  unfolding answer_calls IsRest
  answer_calls-Reach reply (some stop) rest t started room k r =
      next r (refused (length reply.tool_calls) refl)
  answer_calls-Reach reply none rest t started room k r =
      let (reach, kept) = run_tools-Reach reply.tool_calls [] t started (room refl) r in
      k (run_tools agent reply.tool_calls [] t).0 (run_tools agent reply.tool_calls [] t).1 kept
        reach

  follow-Reach :
      {s : Session} (final_turn : Bool)
      (rest : AgentReply Content → List ToolResult → Session → Ending × Session) (n : ℕ)
      (x : Turn Content × Session)
      → ((reply : AgentReply Content) → IsRest s (n + 1) (rest reply))
      → IsCounted n x
      → Reach s x.1
      → Reach s (follow agent final_turn rest x).1
  unfolding follow IsCounted
  follow-Reach final_turn rest n (ended stop, t) k counted r = r
  follow-Reach {s} final_turn rest n (went_on reply, t) k counted r =
      elim (is_empty reply.tool_calls)
        as (λ b.
          Reach s
            (if b
              then (Ending.selected reply.claim_ids, t)
              else answer_calls agent reply (refusal agent reply t final_turn) (rest reply) t).1) [
                | true ↦ r
                | false ↦
                    answer_calls-Reach reply (refusal agent reply t final_turn) (rest reply) t
                      (omega (arith, counted)) (refusal-none reply t final_turn)
                      (subst (λ m. IsRest s m (rest reply)) (sym counted) (k reply)) r
              ]

  pub turns-Reach :
      {s : Session} (n deadline : ℕ) (offered : List String) (messages : List (Message Content))
      (chars : ℕ) (t : Session)
      → model_turns t.recorder + n ≤ agent.limits.max_model_turns
      → Reach s t
      → Reach s (turns agent n deadline offered messages chars t).1
  unfolding turns IsRest with_peak tick
  turns-Reach zero deadline offered messages chars t room r = r
  turns-Reach {s} (suc n) deadline offered messages chars t room r =
      if_both (λ (x : Ending × Session). Reach s x.1) (leb deadline (agent.clock t.ticks))
        (λ _. next r (read refl))
        (λ _.
          if_both (λ (x : Ending × Session). Reach s x.1) (ltb agent.max_prompt_chars chars)
            (λ _. peaked_once)
            (λ _.
              follow-Reach (n == 0) _ (model_turns t.recorder) _
                (λ reply results u same reach.
                  turns-Reach n deadline offered _ _ u (omega (arith, room, same)) reach)
                (model_turn-IsCounted _ (with_peak chars (tick t)))
                (model_turn-Reach _ (with_peak chars (tick t)) (omega (arith, room)) peaked_once)))
    where
      peaked_once : Reach s (with_peak chars (tick t))
      peaked_once = next (next r (read refl)) (peaked chars refl)
