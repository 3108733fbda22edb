-- ===== src/Copilot/Agent/Invariant/Retrieved.antt =====
-- What the tools returned in one request, in v2/src/footballai_v2/copilot/agent/loop.py and
-- v2/src/footballai_v2/copilot/agent/trace.py.
use football_ai.Prelude.{
  ◌≡◌, refl, sym, ap, ◌∙◌, subst, ◌-◌, ℕ, String, String-discrete, ◌||◌, Option, List, [], ◌∷◌,
  ◌++◌, All, All-map, All-append, member, same, same_sound, if_both, arith, Bool-cases, inl, inr,
}
use football_ai.Prelude.Dict
use football_ai.Copilot.Claims.{EvidenceClaim, EvidenceClaim-discrete}
use football_ai.Copilot.Provider.{ProviderTelemetry}
use football_ai.Copilot.Grounding.{add_by_id}
use football_ai.Copilot.Grounding.Catalog.{
  IsIn, IsNamed, IsEntry, member-here, member-there, add_by_id-IsEntry,
}
use football_ai.Prelude.Dict.{All-put}
use football_ai.Copilot.Agent.Tools.{ToolRegistry, ToolExecution}
use football_ai.Copilot.Agent.Tools.Execution.{IsExecution, execute-IsExecution}
use football_ai.Copilot.Agent.Trace.{record_tool, add_key, add_keys, ids_of}
use football_ai.Copilot.Agent.Trace.Recorded.{record_turn-IsSameCalls}
use football_ai.Copilot.Agent.Loop.{Agent, Session, tick}
use football_ai.Copilot.Agent.Conversation.{
  with_peak, with_refused, turn_recorded, tool_recorded, executed,
}
use football_ai.Copilot.Agent.Invariant.{
  Change, read, peaked, refused, asked, ran, Reach, here, next,
}

member-append :
    (i : String) (xs ys : List String)
    → member String-discrete i (xs ++ ys)
      ≡ (member String-discrete i xs || member String-discrete i ys)
member-append i [] ys = refl
member-append i (x ∷ xs) ys = grind (arith, member-append i xs ys)

-- Keys are never lost, and all that is added is there.
add_keys-keeps :
    (i : String) (keys is : List String) → IsNamed i keys → IsNamed i (add_keys keys is)
unfolding add_keys
add_keys-keeps i keys [] h = h
add_keys-keeps i keys (j ∷ is) h = add_keys-keeps i (add_key keys j) is (
    if_both (IsNamed i) (member String-discrete j keys) (λ _. h)
      (λ _. ground (arith, h, member-append i keys (j ∷ []))))

All-add_keys :
    (P : String → Type 0) (keys is : List String) → All P keys → All P is → All P (add_keys keys is)
unfolding add_keys
All-add_keys P keys [] h k = h
All-add_keys P keys (j ∷ is) h k =
    All-add_keys P (add_key keys j) is
      (if_both (All P) (member String-discrete j keys) (λ _. h)
        (λ _. All-append P keys (j ∷ []) h (k.0, tt)))
      k.1

add_keys-All : (keys is : List String) → All (λ i. IsNamed i (add_keys keys is)) is
unfolding add_keys
add_keys-All keys [] = tt
add_keys-All keys (j ∷ is) = (
  add_keys-keeps j (add_key keys j) is (
      if_both (IsNamed j) (member String-discrete j keys) (λ e. e)
        (λ _. ground (arith, member-append j keys (j ∷ []), member-here String-discrete j []))),
  add_keys-All (add_key keys j) is,
)

id-IsNamed :
    (c : EvidenceClaim) (all : List EvidenceClaim) → IsIn c all → IsNamed c.claim_id (ids_of all)
id-IsNamed c [] h = h
id-IsNamed c (d ∷ all) h = elim (Bool-cases (same EvidenceClaim-discrete c d)) [
  | inl e ↦
      subst (λ z. IsNamed c.claim_id (z ∷ ids_of all))
        (ap (λ z. z.claim_id) (same_sound EvidenceClaim-discrete c d e))
        (member-here String-discrete c.claim_id (ids_of all))
  | inr e ↦
      member-there String-discrete c.claim_id d.claim_id (ids_of all)
        (id-IsNamed c all (ground (arith, h, e)))
]

ids_of-IsNamed :
    (cs all : List EvidenceClaim)
    → All (λ c. IsIn c all) cs
    → All (λ i. IsNamed i (ids_of all)) (ids_of cs)
ids_of-IsNamed [] all h = tt
ids_of-IsNamed (c ∷ cs) all h = (id-IsNamed c all h.0, ids_of-IsNamed cs all h.1)

keys-add_by_id :
    (keys : List String) (d : Dict.Dict EvidenceClaim) (cs : List EvidenceClaim)
    → All (λ x. IsNamed x.0 keys) d
    → All (λ i. IsNamed i keys) (ids_of cs)
    → All (λ x. IsNamed x.0 keys) (add_by_id d cs)
unfolding add_by_id
keys-add_by_id keys d [] h k = h
keys-add_by_id keys d (c ∷ cs) h k =
    keys-add_by_id keys (Dict.put d c.claim_id c) cs
      (All-put (λ x. IsNamed x.0 keys) d c.claim_id c h k.0) k.1

-- The catalog stays, all that was returned is of it, and what is retrieved is of it and was returned.
pub record IsTraced (catalog : List EvidenceClaim) (r : ToolRegistry) (returned : List String)
    (retrieved : Dict.Dict EvidenceClaim) : Type 0 where
  pub catalog_kept : r.catalog ≡ catalog
  pub returned_in : All (λ i. IsNamed i (ids_of catalog)) returned
  pub retrieved_in : All (IsEntry catalog) retrieved
  pub retrieved_returned : All (λ x. IsNamed x.0 returned) retrieved

abbrev Traced : List EvidenceClaim → Session → Type 0
Traced catalog s = IsTraced catalog s.registry s.recorder.returned s.retrieved

module _ {Content : Type 0} (agent : Agent Content) (catalog : List EvidenceClaim) where
  turn_recorded-Traced :
      (s : Session) (called : ℕ) (telemetry : Option ProviderTelemetry)
      → Traced catalog s
      → Traced catalog (turn_recorded agent called telemetry s)
  unfolding turn_recorded
  turn_recorded-Traced s called telemetry h =
      let same = record_turn-IsSameCalls s.recorder (agent.clock s.ticks - called) telemetry in
      record {
        catalog_kept = h.catalog_kept;
        returned_in =
            subst (All (λ i. IsNamed i (ids_of catalog))) (sym same.returned_eq) h.returned_in;
        retrieved_in = h.retrieved_in;
        retrieved_returned =
            subst (λ keys. All (λ x. IsNamed x.0 keys) s.retrieved) (sym same.returned_eq)
              h.retrieved_returned;
      }

  tool_recorded-Traced :
      (s : Session) (e : ToolExecution × ToolRegistry)
      → IsExecution s.registry e
      → Traced catalog s
      → Traced catalog (tool_recorded agent e s)
  unfolding tool_recorded record_tool
  tool_recorded-Traced s e x h =
      let claims_in : All (λ c. IsIn c catalog) e.0.claims =
        subst (λ cs. All (λ c. IsIn c cs) e.0.claims) h.catalog_kept x.claims_in in
      record {
        catalog_kept = x.catalog_kept ∙ h.catalog_kept;
        returned_in =
            All-add_keys _ s.recorder.returned _ h.returned_in
              (ids_of-IsNamed e.0.claims catalog claims_in);
        retrieved_in = add_by_id-IsEntry catalog s.retrieved e.0.claims h.retrieved_in claims_in;
        retrieved_returned =
            keys-add_by_id _ s.retrieved e.0.claims
              (All-map s.retrieved (λ y k. add_keys-keeps y.0 s.recorder.returned _ k)
                h.retrieved_returned)
              (add_keys-All s.recorder.returned (ids_of e.0.claims));
      }

  Change-Traced : {s t : Session} → Traced catalog s → Change agent s t → Traced catalog t
  unfolding tick with_peak with_refused
  Change-Traced h (read e) = subst (Traced catalog) (sym e) h
  Change-Traced h (peaked chars e) = subst (Traced catalog) (sym e) h
  Change-Traced h (refused n e) = subst (Traced catalog) (sym e) h
  Change-Traced {s} h (asked called telemetry room e) =
      subst (Traced catalog) (sym e) (turn_recorded-Traced s called telemetry h)
  Change-Traced {s} h (ran call started room e) = subst (Traced catalog) (sym e) (
      tool_recorded-Traced s (executed agent call s)
        (execute-IsExecution agent.dumps agent.payload_json s.registry call.name call.arguments) h)

  pub Reach-IsTraced :
      {s t : Session}
      → IsTraced catalog s.registry s.recorder.returned s.retrieved
      → Reach agent s t
      → IsTraced catalog t.registry t.recorder.returned t.retrieved
  Reach-IsTraced h here = h
  Reach-IsTraced h (next r c) = Change-Traced (Reach-IsTraced h r) c
