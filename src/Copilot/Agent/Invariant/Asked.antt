-- ===== src/Copilot/Agent/Invariant/Asked.antt =====
-- How the loop of v2/src/footballai_v2/copilot/agent/loop.py ends.
use football_ai.Prelude.{
  ◌+◌, any, length, ◌≡◌, refl, false, ℕ, zero, suc, ◌≤◌, Bool, Option, none, some, String, List,
  arith, if_both, leb, ltb, ◌==◌, is_empty,
}
use football_ai.Copilot.Agent.Trace.Records.{tool_call_count, is_answered, model_turns}
use football_ai.Copilot.Agent.Loop.{
  Agent, AgentReply, ToolResult, Message, Session, Stop, Ending, Turn, went_on, ended, tick,
}
use football_ai.Copilot.Agent.Conversation.{with_peak, refusal, answer_calls, follow, turns}
use football_ai.Copilot.Agent.Invariant.{IsCounted, model_turn-IsCounted}
use football_ai.Copilot.Agent.Tools.{references_a_run}

module _ {Content : Type 0} (agent : Agent Content) where
  -- A selection comes from a turn that was recorded, and no reason to stop is an answer.
  unfoldable pub IsAsked : Ending × Session → Type 0
  IsAsked (Ending.selected ids, s) = 1 ≤ model_turns s.recorder
  IsAsked (Ending.stopped stop, s) = is_answered stop.reason ≡ false

  IsRefusal : Option Stop → Type 0
  IsRefusal none = Unit
  IsRefusal (some stop) = is_answered stop.reason ≡ false

  refusal-IsRefusal :
      (reply : AgentReply Content) (s : Session) (final_turn : Bool)
      → IsRefusal (refusal agent reply s final_turn)
  unfolding refusal IsRefusal
  refusal-IsRefusal reply s final_turn =
      if_both IsRefusal
        (any (λ call. references_a_run agent.dumps agent.payload_json call.arguments)
          reply.tool_calls)
        (λ _. refl)
        (λ _.
          if_both IsRefusal
            (ltb agent.limits.max_tool_calls (tool_call_count s.recorder + length reply.tool_calls))
            (λ _. refl) (λ _. if_both IsRefusal final_turn (λ _. refl) (λ _. tt)))

  answer_calls-IsAsked :
      (reply : AgentReply Content) (stop : Option Stop)
      (rest : List ToolResult → Session → Ending × Session) (t : Session)
      → IsRefusal stop
      → ((results : List ToolResult) (u : Session) → IsAsked (rest results u))
      → IsAsked (answer_calls agent reply stop rest t)
  unfolding answer_calls IsAsked IsRefusal
  answer_calls-IsAsked reply (some stop) rest t h k = h
  answer_calls-IsAsked reply none rest t h k = k _ _

  follow-IsAsked :
      (final_turn : Bool) (rest : AgentReply Content → List ToolResult → Session → Ending × Session)
      (n : ℕ) (x : Turn Content × Session)
      → ((reply : AgentReply Content) (results : List ToolResult) (u : Session)
          → IsAsked (rest reply results u))
      → IsCounted agent n x
      → IsAsked (follow agent final_turn rest x)
  unfolding follow IsCounted IsAsked
  follow-IsAsked final_turn rest n (ended stop, t) k counted = counted
  follow-IsAsked final_turn rest n (went_on reply, t) k counted =
      if_both IsAsked (is_empty reply.tool_calls) (λ _. omega (arith, counted))
        (λ _.
          answer_calls-IsAsked reply (refusal agent reply t final_turn) (rest reply) t
            (refusal-IsRefusal reply t final_turn) (k reply))

  pub turns-IsAsked :
      (n deadline : ℕ) (offered : List String) (messages : List (Message Content)) (chars : ℕ)
      (t : Session)
      → IsAsked (turns agent n deadline offered messages chars t)
  unfolding turns IsAsked
  turns-IsAsked zero deadline offered messages chars t = refl
  turns-IsAsked (suc n) deadline offered messages chars t =
      if_both IsAsked (leb deadline (agent.clock t.ticks)) (λ _. refl)
        (λ _.
          if_both IsAsked (ltb agent.max_prompt_chars chars) (λ _. refl)
            (λ _.
              follow-IsAsked (n == 0) _ (model_turns (with_peak chars (tick t)).recorder) _
                (λ reply results u. turns-IsAsked n deadline offered _ _ u)
                (model_turn-IsCounted agent _ (with_peak chars (tick t)))))
