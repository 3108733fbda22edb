-- ===== src/Copilot/Grounding.antt =====
-- v2/src/footballai_v2/copilot/grounding.py: what an answer may be made of. A question route, the claims
-- that it admits, the rendering of a selection, and the checks of citations. The catalog is any list
-- of claims. A text is measured in code points.
pub mod Catalog
pub mod Selection
use Prim.Native.String.{count, ◌++◌ as append}
use football_ai.Prelude.{
  ℕ, ◌+◌, String, String-discrete, Bool, true, false, not, ◌&&◌, ◌||◌, Option, none, some, List, [],
  ◌∷◌, ◌++◌, map, any, leb, length, member, str_eq, if◌then◌else◌,
}
use football_ai.Prelude.Result.{Result, ok, err, raise_if, ◌>>◌, ◌>>=◌}
use football_ai.Prelude.Dict
use football_ai.Copilot.Claims.{
  Citation, EvidenceClaim, EvidenceArtifact, ValidatedRunEvidence, artifact_of,
}

-- `OUTPUT_NATURE_CLAIM_ID`
abbrev pub output_nature_id : String
output_nature_id = "output_nature"

abbrev pub max_answer_chars : ℕ
max_answer_chars = 4_000

pub data QuestionScope : Type 0 where
  general supported unsupported : QuestionScope

pub record QuestionRoute : Type 0 where
  pub scope : QuestionScope
  pub claims : List String

abbrev pub text_length : String → ℕ
text_length s = count s

unfoldable pub keep {ℓ} : {A : Type ℓ} → (A → Bool) → List A → List A
keep p [] = []
keep p (x ∷ xs) = let rest = keep p xs in if p x then x ∷ rest else rest

abbrev pub is_routed : QuestionRoute → EvidenceClaim → Bool
is_routed route c = member String-discrete c.claim_id route.claims

unfoldable pub eligible_claims : List EvidenceClaim → QuestionRoute → List EvidenceClaim
eligible_claims catalog route =
    keep (λ c. is_routed route c || str_eq c.claim_id output_nature_id) catalog

unfoldable pub can_answer : List EvidenceClaim → QuestionRoute → Bool
can_answer eligible route = any (is_routed route) eligible

-- `ForgedCitationError`, by what is wrong.
pub data Forged : Type 0 where
  unknown_claim wrong_run unknown_field unknown_artifact unverified_artifact wrong_schema
        wrong_sha256 :
      Forged

-- `{claim.claim_id: claim for claim in claims}`, after the claims that are in the dictionary already
unfoldable pub add_by_id : Dict.Dict EvidenceClaim → List EvidenceClaim → Dict.Dict EvidenceClaim
add_by_id d [] = d
add_by_id d (c ∷ cs) = add_by_id (Dict.put d c.claim_id c) cs

abbrev pub by_id : List EvidenceClaim → Dict.Dict EvidenceClaim
by_id claims = add_by_id [] claims

abbrev approved : Option EvidenceClaim → Result Forged EvidenceClaim
approved none = err unknown_claim
approved (some c) = ok c

-- The loop over the selected ids.
unfoldable pub select :
    Dict.Dict EvidenceClaim
    → (selected : Dict.Dict EvidenceClaim) → List String
    → Result Forged (Dict.Dict EvidenceClaim)
select known selected [] = ok selected
select known selected (i ∷ rest) =
    approved (Dict.get known i) >>= λ c. select known (Dict.put selected i c) rest

abbrev pub values : Dict.Dict EvidenceClaim → List EvidenceClaim
values d = map (λ x. x.1) d

-- The claims after the label that fit into the answer. A selected claim is the label if its id is.
unfoldable pub fit : (length_so_far : ℕ) → Dict.Dict EvidenceClaim → List EvidenceClaim
fit n [] = []
fit n ((i, c) ∷ rest) =
    elim (not (str_eq i output_nature_id) && leb (n + 1 + text_length c.text) max_answer_chars) [
      | true ↦ c ∷ fit (n + 1 + text_length c.text) rest
      | false ↦ fit n rest
    ]

-- After the selection: the label first, if there is one and the selection answers the question.
unfoldable pub with_label :
    Option EvidenceClaim → Dict.Dict EvidenceClaim → QuestionRoute → Option (List EvidenceClaim)
with_label none selected route = none
with_label (some label) selected route =
    if can_answer (values selected) route
    then some (label ∷ fit (text_length label.text) selected)
    else none

unfoldable pub claims_to_render :
    (eligible : List EvidenceClaim)
    → (claim_ids : List String) → QuestionRoute
    → Result Forged (Option (List EvidenceClaim))
claims_to_render eligible claim_ids route = select (by_id eligible) [] claim_ids >>= λ selected.
    ok (with_label (Dict.get (by_id eligible) output_nature_id) selected route)

abbrev same_option : Option String → Option String → Bool
same_option none none = true
same_option (some a) (some b) = str_eq a b
same_option _ _ = false

-- The key under which `render_claims` keeps a citation.
abbrev pub same_citation : Citation → Citation → Bool
same_citation a b =
    str_eq a.run_id b.run_id
    && str_eq a.field_path b.field_path
    && same_option a.artifact_id b.artifact_id

unfoldable pub put_citation : List Citation → Citation → List Citation
put_citation [] c = c ∷ []
put_citation (d ∷ ds) c = if same_citation d c then c ∷ ds else d ∷ put_citation ds c

unfoldable pub put_citations : List Citation → List Citation → List Citation
put_citations ds [] = ds
put_citations ds (c ∷ cs) = put_citations (put_citation ds c) cs

unfoldable pub citations_of : List Citation → List EvidenceClaim → List Citation
citations_of ds [] = ds
citations_of ds (c ∷ cs) = citations_of (put_citations ds c.citations) cs

-- `" ".join(texts)`
unfoldable pub join_texts : List String → String
join_texts [] = ""
join_texts (t ∷ []) = t
join_texts (t ∷ u ∷ ts) = append t (append " " (join_texts (u ∷ ts)))

unfoldable pub render_claims : List EvidenceClaim → String × List Citation
render_claims rendered = (join_texts (map (λ c. c.text) rendered), citations_of [] rendered)

-- The checks of a citation against the artifact that it names.
abbrev pub differs_if_given : Option String → Option String → Bool
differs_if_given none recorded = false
differs_if_given given recorded = not (same_option given recorded)

unfoldable pub validate_source : Citation → Option EvidenceArtifact → Result Forged (Unit {0})
validate_source c none = err unknown_artifact
validate_source c (some a) =
    raise_if (not (str_eq a.integrity_state "verified")) unverified_artifact
    >> (raise_if (differs_if_given c.schema_version a.schema_version) wrong_schema
        >> raise_if (differs_if_given c.source_sha256 (some a.sha256)) wrong_sha256)

unfoldable pub validate_artifact_of :
    Citation → ValidatedRunEvidence → Option String → Result Forged (Unit {0})
validate_artifact_of c evidence none = ok tt
validate_artifact_of c evidence (some i) = validate_source c (artifact_of evidence i)

unfoldable pub validate_citation :
    Citation → ValidatedRunEvidence → (requested_run_id : String) → Result Forged (Unit {0})
validate_citation c evidence run_id =
    raise_if (not (str_eq c.run_id run_id)) wrong_run
    >> (raise_if (not (member String-discrete c.field_path evidence.field_paths)) unknown_field
        >> validate_artifact_of c evidence c.artifact_id)

unfoldable pub validate_citations :
    List Citation → ValidatedRunEvidence → (requested_run_id : String) → Result Forged (Unit {0})
validate_citations [] evidence run_id = ok tt
validate_citations (c ∷ cs) evidence run_id =
    validate_citation c evidence run_id >> validate_citations cs evidence run_id
