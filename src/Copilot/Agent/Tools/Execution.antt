-- ===== src/Copilot/Agent/Tools/Execution.antt =====
-- What a call of a tool returns and what it changes, in v2/src/footballai_v2/copilot/agent/tools.py.
use football_ai.Prelude.{
  ◌≡◌, refl, ap, String, Bool, true, false, not, ◌||◌, Option, none, some, List, [], ◌∷◌, All, all,
  and_true, if_both, arith, if◌then◌else◌, same_sound, is_empty,
}
use football_ai.Run.Json.{Json}
use football_ai.Copilot.Claims.{EvidenceClaim, EvidenceClaim-discrete, OutputNature}
use football_ai.Copilot.Grounding.{by_id}
use football_ai.Copilot.Grounding.Catalog.{IsIn, IsEntry, by_id-IsEntry}
use football_ai.Prelude.Dict.{All-get}
use football_ai.Copilot.Agent.Tools.{
  ToolSpec, ToolRegistry, ToolExecution, approved, is_exactly, refused, finish_call, execute_spec,
  execute, find_spec, is_no_input, claim_fits,
}
use football_ai.Copilot.Agent.Tools.Names.{
  unknown_tool, ToolName, ToolCallStatus, rejected, is_rejected, has_tool, ok, no_evidence,
}

-- A call that ran a tool which had not run, and one that ran nothing.
pub data IsCalled (called : List ToolName) (e : ToolExecution) (called' : List ToolName)
    : Type 0 where
  first :
      (t : ToolName)
      → e.tool ≡ some t
      → is_rejected e.status ≡ false
      → has_tool called t ≡ false
      → called' ≡ t ∷ called
      → IsCalled called e called'
  never : is_rejected e.status ≡ true → called' ≡ called → IsCalled called e called'

-- The claims are of the catalog, which stays as it is, and a tool runs at most once.
pub record IsExecution (r : ToolRegistry) (x : ToolExecution × ToolRegistry) : Type 0 where
  pub catalog_kept : x.1.catalog ≡ r.catalog
  pub claims_in : All (λ c. IsIn c r.catalog) x.0.claims
  pub one_call : IsCalled r.called x.0 x.1.called

is_exactly-some :
    (o : Option EvidenceClaim) (c : EvidenceClaim) → is_exactly o c ≡ true → o ≡ some c
is_exactly-some none c h = cc
is_exactly-some (some d) c h = ap some (same_sound EvidenceClaim-discrete d c h)

approved-IsIn :
    (r : ToolRegistry) (spec : ToolSpec) (claims : List EvidenceClaim)
    → approved r spec claims ≡ true
    → All (λ c. IsIn c r.catalog) claims
unfolding approved
approved-IsIn r spec [] h = tt
approved-IsIn r spec (c ∷ cs) h =
    let (now, others) = and_true _ _ h in
    (
      (All-get (IsEntry r.catalog) (by_id r.catalog) c.claim_id (by_id-IsEntry r.catalog)
          (is_exactly-some _ c (and_true _ _ now).1)).0,
      approved-IsIn r spec cs others,
    )

-- A call of a handler runs its tool, and returns claims of the catalog only.
IsFinished : ToolRegistry → ToolSpec → ToolExecution → Type 0
IsFinished r spec e =
    All (λ c. IsIn c r.catalog) e.claims
    × (e.tool ≡ some spec.name)
    × (is_rejected e.status ≡ false)

not-ok-IsRan : (b : Bool) → is_rejected (if b then no_evidence else ok) ≡ false
not-ok-IsRan true = refl
not-ok-IsRan false = refl

module _ (dumps : Json → Option String)
    (payload_json : ToolName → ToolCallStatus → OutputNature → List EvidenceClaim → String) where
  finish_call-IsFinished :
      (r : ToolRegistry) (spec : ToolSpec) (claims : Option (List EvidenceClaim))
      → IsFinished r spec (finish_call dumps payload_json r spec claims)
  unfolding finish_call IsFinished
  finish_call-IsFinished r spec none = (tt, refl, refl)
  finish_call-IsFinished r spec (some claims) =
      if_both (IsFinished r spec) (not (approved r spec claims) || not (all claim_fits claims))
        (λ e. (tt, refl, refl))
        (λ e.
          (approved-IsIn r spec claims (ground (arith, e)), refl, not-ok-IsRan (is_empty claims)))

  execute_spec-IsExecution :
      (r : ToolRegistry) (spec : ToolSpec) (arguments : Json)
      → IsExecution r (execute_spec dumps payload_json r spec arguments)
  unfolding execute_spec IsFinished
  execute_spec-IsExecution r spec arguments =
      if_both (IsExecution r) (not (is_no_input arguments))
        (λ _. record { catalog_kept = refl; claims_in = tt; one_call = never refl refl })
        (λ _.
          if_both (IsExecution r) (has_tool r.called spec.name)
            (λ _. record { catalog_kept = refl; claims_in = tt; one_call = never refl refl })
            (λ f.
              let (claims_in, tool_is, ran) =
                finish_call-IsFinished r spec (spec.handler r.catalog) in
              record {
                catalog_kept = refl;
                claims_in = claims_in;
                one_call = first spec.name tool_is ran f refl;
              }))

  pub execute-IsExecution :
      (r : ToolRegistry) (name : String) (arguments : Json)
      → IsExecution r (execute dumps payload_json r name arguments)
  unfolding execute
  execute-IsExecution r name arguments =
      elim (find_spec r.specs name)
        as (λ o. IsExecution r (elim o as (λ _. ToolExecution × ToolRegistry) [
          | none ↦ (refused none unknown_tool rejected, r)
          | some spec ↦ execute_spec dumps payload_json r spec arguments
        ])) [
          | none ↦ record { catalog_kept = refl; claims_in = tt; one_call = never refl refl }
          | some spec ↦ execute_spec-IsExecution r spec arguments
        ]
