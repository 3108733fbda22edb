-- ===== src/Copilot/Explain.antt =====
-- v2/src/footballai_v2/copilot/service.py: the explanation without tools. The catalog, the routing and the
-- provider are arguments, and the evidence is what `build` returns. `LLMProvider.generate` answers with
-- ids or with one of the two failures that the service catches, by its code.
pub mod Published
use football_ai.Prelude.{
  ℕ, String, Bool, true, false, not, ◌||◌, Option, none, some, List, [], ◌∷◌, any, is_empty, str_eq,
  if◌then◌else◌,
}
use football_ai.Prelude.Result.{Result, ok, err, ◌>>◌, ◌>>=◌}
use football_ai.Copilot.Claims.{
  Citation, EvidenceClaim, ModelMode, not_invoked, SupportLevel, partial, supported, unavailable,
  OutputNature, unverified_or_partial, ExplanationResponse, ValidatedRunEvidence,
}
use football_ai.Copilot.Grounding.{
  QuestionRoute, QuestionScope, Forged, eligible_claims, can_answer, claims_to_render,
  render_claims, validate_citations,
}

abbrev is_unverified : OutputNature → Bool
is_unverified unverified_or_partial = true
is_unverified _ = false

unfoldable pub support_level_for : ValidatedRunEvidence → SupportLevel
support_level_for e =
    if is_unverified e.output_nature
      || not (is_empty e.missing_evidence)
      || any (λ a. not (str_eq a.integrity_state "verified")) e.artifacts
    then partial
    else supported

abbrev pub unavailable_response :
    ValidatedRunEvidence → (reason : String) → ModelMode → (answer : String) → ExplanationResponse
unavailable_response e reason mode answer = record {
  run_id = e.run_id;
  answer = answer;
  support_level = unavailable;
  output_nature = e.output_nature;
  model_mode = mode;
  citations = [];
  limitations = e.limitations;
  unavailable_reason = some reason;
}

abbrev pub supported_response :
    ValidatedRunEvidence → ModelMode → (rendered : String × List Citation) → ExplanationResponse
supported_response e mode rendered = record {
  run_id = e.run_id;
  answer = rendered.0;
  support_level = support_level_for e;
  output_nature = e.output_nature;
  model_mode = mode;
  citations = rendered.1;
  limitations = e.limitations;
  unavailable_reason = none;
}

abbrev pub is_unsupported : QuestionScope → Bool
is_unsupported QuestionScope.unsupported = true
is_unsupported _ = false

abbrev pub abstention : String
abstention =
    "I can't answer that from verified evidence. I can only answer questions about this run's status, profile, real or synthetic nature, provenance, registered artifacts, tracking diagnostics, and limitations. Passes, possession, player identities, distances, speeds, and clinical risk are not measured."

abbrev pub no_evidence_answer : String
no_evidence_answer = "This run's verified evidence does not contain what the question asks for."

abbrev pub no_claim_answer : String
no_claim_answer = "No verified evidence claim answers that question for this run."

abbrev failure_answer : String
failure_answer =
    "The explanation model is currently unavailable, so no explanation could be produced. The run's verified evidence remains visible on this page."

-- What a provider returns: the mode and the ids of a selection, or the code of its failure.
pub data Generation : Type 0 where
  generated : ModelMode → List String → Generation
  unable : (code : String) → Generation

-- What follows the rendering: a selection that answers nothing, or the answer with its citations.
unfoldable pub publish :
    ValidatedRunEvidence
    → ModelMode
    → Option (List EvidenceClaim)
    → Result Forged ExplanationResponse
publish e mode none = ok (unavailable_response e "no_relevant_claim" mode no_claim_answer)
publish e mode (some shown) =
    validate_citations (render_claims shown).1 e e.run_id
    >> ok (supported_response e mode (render_claims shown))

-- What follows the call of the provider.
unfoldable pub after_generation :
    ValidatedRunEvidence
    → (catalog : List EvidenceClaim) → QuestionRoute
    → (provider_mode : ModelMode) → Generation
    → Result Forged ExplanationResponse
after_generation e catalog route provider_mode (unable code) =
    ok (unavailable_response e code provider_mode failure_answer)
after_generation e catalog route provider_mode (generated mode ids) =
    claims_to_render catalog ids route >>= publish e mode

-- `ExplanationService.explain`, on the evidence of the run. An error is a `ForgedCitationError`.
unfoldable pub explain :
    (router : Option String → QuestionRoute)
    (build_claim_catalog : ValidatedRunEvidence → List EvidenceClaim) (provider_mode : ModelMode)
    (generate : List EvidenceClaim → Generation)
    → ValidatedRunEvidence
    → (question : Option String) → Result Forged ExplanationResponse
explain router build_claim_catalog provider_mode generate e question =
    let route = router question in
    let catalog = eligible_claims (build_claim_catalog e) route in
    if is_unsupported route.scope
    then ok (unavailable_response e "unsupported_question" not_invoked abstention)
    else if not (can_answer catalog route)
    then ok (unavailable_response e "evidence_not_available" not_invoked no_evidence_answer)
    else after_generation e catalog route provider_mode (generate catalog)
