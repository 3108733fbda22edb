-- ===== src/Copilot/Explain/Published.antt =====
-- The responses of `ExplanationService.explain`, v2/src/footballai_v2/copilot/service.py.
use football_ai.Prelude.{
  ◌≡◌, refl, subst, not, Option, none, some, String, List, [], ◌⊎◌, inl, inr, if_both,
}
use football_ai.Prelude.Result.{Result, ok, ok_eq, >>=-eq-ok, >>-eq-ok}
use football_ai.Copilot.Claims.{
  EvidenceClaim, ModelMode, unavailable, ExplanationResponse, ValidatedRunEvidence,
}
use football_ai.Copilot.Grounding.{
  QuestionRoute, Forged, eligible_claims, can_answer, claims_to_render, render_claims,
  validate_citations,
}
use football_ai.Copilot.Explain.{
  support_level_for, is_unsupported, Generation, generated, unable, publish, after_generation,
  explain,
}

-- An answer whose citations were all checked, or none and no citation.
pub record IsSupported (e : ValidatedRunEvidence) (r : ExplanationResponse) : Type 0 where
  pub citations_valid : validate_citations r.citations e e.run_id ≡ ok tt
  pub level : r.support_level ≡ support_level_for e
  pub no_reason : r.unavailable_reason ≡ none

pub record IsUnavailable (r : ExplanationResponse) : Type 0 where
  pub no_citations : r.citations ≡ []
  pub level : r.support_level ≡ unavailable
  pub reason : String
  pub reason_is : r.unavailable_reason ≡ some reason

abbrev pub IsPublished : ValidatedRunEvidence → ExplanationResponse → Type 0
IsPublished e r = IsSupported e r ⊎ IsUnavailable r

declined :
    (e : ValidatedRunEvidence) {r s : ExplanationResponse}
    → IsUnavailable s
    → ◌≡◌ {A = Result Forged ExplanationResponse} (ok s) (ok r)
    → IsPublished e r
declined e u h = inr (subst IsUnavailable (ok_eq h) u)

publish-IsPublished :
    (e : ValidatedRunEvidence) (mode : ModelMode) (shown : Option (List EvidenceClaim))
    (r : ExplanationResponse)
    → publish e mode shown ≡ ok r
    → IsPublished e r
unfolding publish
publish-IsPublished e mode none r h =
    declined e (record { no_citations = refl; level = refl; reason = _; reason_is = refl }) h
publish-IsPublished e mode (some shown) r h =
    let (valid, result) = >>-eq-ok (validate_citations (render_claims shown).1 e e.run_id) _ h in
    inl (
      subst (IsSupported e) (ok_eq result)
        (record { citations_valid = valid; level = refl; no_reason = refl }))

after_generation-IsPublished :
    (e : ValidatedRunEvidence) (catalog : List EvidenceClaim) (route : QuestionRoute)
    (mode : ModelMode) (g : Generation) (r : ExplanationResponse)
    → after_generation e catalog route mode g ≡ ok r
    → IsPublished e r
unfolding after_generation
after_generation-IsPublished e catalog route mode (unable code) r h =
    declined e (record { no_citations = refl; level = refl; reason = code; reason_is = refl }) h
after_generation-IsPublished e catalog route mode (generated used ids) r h =
    let (shown, renders, published) =
      >>=-eq-ok (claims_to_render catalog ids route) (publish e used) h in
    publish-IsPublished e used shown r published

-- A response is an answer with the support level of the evidence, all of whose citations are valid for the
-- run, or it gives a reason and no citation.
pub explain-IsPublished :
    (router : Option String → QuestionRoute)
    (build_claim_catalog : ValidatedRunEvidence → List EvidenceClaim) (provider_mode : ModelMode)
    (generate : List EvidenceClaim → Generation) (e : ValidatedRunEvidence)
    (question : Option String) (r : ExplanationResponse)
    → explain router build_claim_catalog provider_mode generate e question ≡ ok r
    → IsPublished e r
unfolding explain
explain-IsPublished router build mode generate e question r h =
    let route = router question in
    let catalog = eligible_claims (build e) route in
    if_both Publishes (is_unsupported route.scope)
      (λ _. declined e (record { no_citations = refl; level = refl; reason = _; reason_is = refl }))
      (λ _.
        if_both Publishes (not (can_answer catalog route))
          (λ _.
            declined e (record { no_citations = refl; level = refl; reason = _; reason_is = refl }))
          (λ _. after_generation-IsPublished e catalog route mode (generate catalog) r))
      h
  where
    Publishes : Result Forged ExplanationResponse → Type 0
    Publishes x = x ≡ ok r → IsPublished e r
