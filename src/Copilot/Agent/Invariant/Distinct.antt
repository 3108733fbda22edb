-- ===== src/Copilot/Agent/Invariant/Distinct.antt =====
-- The tools that run in one request: v2/src/footballai_v2/copilot/agent/tools.py and
-- v2/src/footballai_v2/copilot/agent/loop.py.
use football_ai.Prelude.{
  ◌≡◌, refl, sym, ap, ◌∙◌, subst, ◌-◌, ℕ, true, false, ◌||◌, Option, none, some, List, [], ◌∷◌,
  ◌++◌, arith, if◌then◌else◌,
}
use mathlib.Core.List.{append-nil, append_assoc}
use football_ai.Copilot.Provider.{ProviderTelemetry}
use football_ai.Copilot.Agent.Tools.{ToolExecution}
use football_ai.Copilot.Agent.Tools.Names.{ToolName, has_tool, is_rejected}
use football_ai.Copilot.Agent.Tools.Execution.{IsCalled, first, never, execute-IsExecution}
use football_ai.Copilot.Agent.Trace.{record_tool}
use football_ai.Copilot.Agent.Trace.Records.{ToolCallTrace}
use football_ai.Copilot.Agent.Trace.Recorded.{record_turn-IsSameCalls}
use football_ai.Copilot.Agent.Loop.{Agent, Session, tick}
use football_ai.Copilot.Agent.Conversation.{
  with_peak, with_refused, turn_recorded, tool_recorded, executed,
}
use football_ai.Copilot.Agent.Invariant.{
  Change, read, peaked, refused, asked, ran, Reach, here, next,
}

-- The tool of a call, if it ran.
unfoldable pub tool_run : ToolCallTrace → List ToolName
tool_run c = if is_rejected c.status then [] else elim c.tool [ none ↦ [] | some t ↦ t ∷ [] ]

-- The tools that ran, in order.
unfoldable pub tools_run : List ToolCallTrace → List ToolName
tools_run [] = []
tools_run (c ∷ cs) = tool_run c ++ tools_run cs

unfoldable pub IsDistinct : List ToolName → Type 0
IsDistinct [] = Unit
IsDistinct (t ∷ ts) = (has_tool ts t ≡ false) × IsDistinct ts

has_tool-append :
    (xs ys : List ToolName) (t : ToolName)
    → has_tool (xs ++ ys) t ≡ (has_tool xs t || has_tool ys t)
has_tool-append [] ys t = refl
has_tool-append (x ∷ xs) ys t = grind (arith, has_tool-append xs ys t)

distinct_there :
    (xs : List ToolName) (x t : ToolName)
    → has_tool xs x ≡ false
    → has_tool (x ∷ xs) t ≡ false
    → has_tool (xs ++ t ∷ []) x ≡ false
distinct_there xs x t h k = ground (arith, h, k, has_tool-append xs (t ∷ []) x)

IsDistinct-append :
    (xs : List ToolName) (t : ToolName)
    → IsDistinct xs
    → has_tool xs t ≡ false
    → IsDistinct (xs ++ t ∷ [])
unfolding IsDistinct
IsDistinct-append [] t h k = (refl, tt)
IsDistinct-append (x ∷ xs) t h k =
    (distinct_there xs x t h.0 k, IsDistinct-append xs t h.1 (ground (arith, k)))

tools_run-append :
    (cs : List ToolCallTrace) (c : ToolCallTrace)
    → tools_run (cs ++ c ∷ []) ≡ tools_run cs ++ tool_run c
unfolding tools_run
tools_run-append [] c = append-nil (tool_run c)
tools_run-append (d ∷ cs) c =
    ap (λ ts. tool_run d ++ ts) (tools_run-append cs c)
    ∙ sym (append_assoc (tool_run d) (tools_run cs) (tool_run c))

-- The tools that ran are distinct, and they are those that the registry marks.
pub record IsOnce (calls : List ToolCallTrace) (called : List ToolName) : Type 0 where
  pub distinct_tools : IsDistinct (tools_run calls)
  pub marked : (t : ToolName) → has_tool (tools_run calls) t ≡ has_tool called t

tool_run-rejected : (c : ToolCallTrace) → is_rejected c.status ≡ true → tool_run c ≡ []
unfolding tool_run
tool_run-rejected c h = rw h refl

tool_run-some :
    (c : ToolCallTrace) (t : ToolName)
    → is_rejected c.status ≡ false
    → c.tool ≡ some t
    → tool_run c ≡ t ∷ []
unfolding tool_run
tool_run-some c t h e = rw (h, e) refl

one_call-IsOnce :
    (calls : List ToolCallTrace) (called called' : List ToolName) (c : ToolCallTrace)
    (e : ToolExecution)
    → c.tool ≡ e.tool
    → c.status ≡ e.status
    → IsCalled called e called'
    → IsOnce calls called
    → IsOnce (calls ++ c ∷ []) called'
one_call-IsOnce calls called called' c e tool_eq status_eq (never r k) h =
    let run_none : tool_run c ≡ [] = tool_run-rejected c (ap is_rejected status_eq ∙ r) in
    let run_same : tools_run (calls ++ c ∷ []) ≡ tools_run calls =
      tools_run-append calls c
      ∙ ap (λ ts. tools_run calls ++ ts) run_none
      ∙ append-nil (tools_run calls) in
    record {
      distinct_tools = subst IsDistinct (sym run_same) h.distinct_tools;
      marked =
          λ u. ap (λ ts. has_tool ts u) run_same ∙ h.marked u ∙ ap (λ ts. has_tool ts u) (sym k);
    }
one_call-IsOnce calls called called' c e tool_eq status_eq (first t tool_is runs fresh k) h =
    let run_one : tool_run c ≡ t ∷ [] =
      tool_run-some c t (ap is_rejected status_eq ∙ runs) (tool_eq ∙ tool_is) in
    let run_more : tools_run (calls ++ c ∷ []) ≡ tools_run calls ++ t ∷ [] =
      tools_run-append calls c ∙ ap (λ ts. tools_run calls ++ ts) run_one in
    record {
      distinct_tools =
          subst IsDistinct (sym run_more)
            (IsDistinct-append (tools_run calls) t h.distinct_tools (h.marked t ∙ fresh));
      marked =
          λ u. ap (λ ts. has_tool ts u) run_more ∙ marked_more u ∙ ap (λ ts. has_tool ts u) (sym k);
    }
  where
    marked_more : (u : ToolName) → has_tool (tools_run calls ++ t ∷ []) u ≡ has_tool (t ∷ called) u
    marked_more u = ground (arith, has_tool-append (tools_run calls) (t ∷ []) u, h.marked u)

abbrev Once : Session → Type 0
Once s = IsOnce s.recorder.tool_calls s.registry.called

module _ {Content : Type 0} (agent : Agent Content) where
  turn_recorded-Once :
      (s : Session) (called : ℕ) (telemetry : Option ProviderTelemetry)
      → Once s
      → Once (turn_recorded agent called telemetry s)
  unfolding turn_recorded
  turn_recorded-Once s called telemetry h =
      let same = record_turn-IsSameCalls s.recorder (agent.clock s.ticks - called) telemetry in
      subst (λ calls. IsOnce calls s.registry.called) (sym same.tool_calls_eq) h

  Change-Once : {s t : Session} → Once s → Change agent s t → Once t
  unfolding tick with_peak with_refused tool_recorded record_tool
  Change-Once h (read e) = subst Once (sym e) h
  Change-Once h (peaked chars e) = subst Once (sym e) h
  Change-Once h (refused n e) = subst Once (sym e) h
  Change-Once {s} h (asked called telemetry room e) =
      subst Once (sym e) (turn_recorded-Once s called telemetry h)
  Change-Once {s} h (ran call started room e) =
      let x =
        execute-IsExecution agent.dumps agent.payload_json s.registry call.name call.arguments in
      subst Once (sym e) (
        one_call-IsOnce s.recorder.tool_calls s.registry.called _ _ (executed agent call s).0 refl
          refl x.one_call h)

  pub Reach-IsOnce :
      {s t : Session}
      → IsOnce s.recorder.tool_calls s.registry.called
      → Reach agent s t
      → IsOnce t.recorder.tool_calls t.registry.called
  Reach-IsOnce h here = h
  Reach-IsOnce h (next r c) = Change-Once (Reach-IsOnce h r) c
