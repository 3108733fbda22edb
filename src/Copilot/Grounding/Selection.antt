-- ===== src/Copilot/Grounding/Selection.antt =====
-- What an answer is made of, in v2/src/footballai_v2/copilot/grounding.py.
use Prim.Native.String.{◌++◌ as append}
use text.Mathlib.TextLemmas.{length-append}
use football_ai.Prelude.{
  ℕ, ◌+◌, ◌≤◌, ◌≡◌, refl, sym, ◌∙◌, subst, Bool, true, false, not, ◌&&◌, Option, none, some,
  some_eq, String, List, [], ◌∷◌, inl, inr, All, map, any, arith, if-eq, str_eq, leb, Bool-cases,
}
use football_ai.Prelude.Result.{ok, ok_eq, >>=-eq-ok}
use football_ai.Prelude.Dict
use football_ai.Copilot.Claims.{EvidenceClaim}
use football_ai.Copilot.Grounding.{
  by_id, select, values, is_routed, QuestionRoute, can_answer, fit, with_label, claims_to_render,
  text_length, max_answer_chars, output_nature_id, render_claims, join_texts,
}
use football_ai.Copilot.Grounding.Catalog.{
  IsIn, IsNamed, IsEntry, IsSelected, by_id-IsEntry, select-by_id-IsSelected,
}
use football_ai.Prelude.Dict.{All-get}

-- A claim that an answer shows beside the label.
abbrev pub IsChosen : List EvidenceClaim → List String → EvidenceClaim → Type 0
IsChosen eligible ids c = IsIn c eligible × IsNamed c.claim_id ids

fit-IsChosen :
    (eligible : List EvidenceClaim) (ids : List String) (n : ℕ) (d : Dict.Dict EvidenceClaim)
    → All (IsSelected eligible ids) d
    → All (IsChosen eligible ids) (fit n d)
unfolding fit
fit-IsChosen eligible ids n [] h = tt
fit-IsChosen eligible ids n ((i, c) ∷ d) (((found, own), named), rest) =
    elim (not (str_eq i output_nature_id) && leb (n + 1 + text_length c.text) max_answer_chars)
      as (λ b. All (IsChosen eligible ids) (elim b as (λ _. List EvidenceClaim) [
        | true ↦ c ∷ fit (n + 1 + text_length c.text) d
        | false ↦ fit n d
      ])) [
        | true ↦ (
          (found, subst (λ z. IsNamed z ids) (sym own) named),
          fit-IsChosen eligible ids (n + 1 + text_length c.text) d rest,
        )
        | false ↦ fit-IsChosen eligible ids n d rest
      ]

answers-routed :
    (eligible : List EvidenceClaim) (ids : List String) (route : QuestionRoute)
    (d : Dict.Dict EvidenceClaim)
    → All (IsSelected eligible ids) d
    → any (is_routed route) (values d) ≡ true
    → (i : String) × IsNamed i ids × IsNamed i route.claims
answers-routed eligible ids route [] h e = cc
answers-routed eligible ids route ((i, c) ∷ d) (((found, own), named), rest) e =
    elim (Bool-cases (is_routed route c)) [
      | inl f ↦ (i, named, subst (λ z. IsNamed z route.claims) own f)
      | inr f ↦ answers-routed eligible ids route d rest (ground (arith, e, f))
    ]

-- What `claims_to_render` returns if it returns claims.
pub record IsGrounded (eligible : List EvidenceClaim) (ids : List String) (route : QuestionRoute)
    (shown : List EvidenceClaim) : Type 0 where
  pub label : EvidenceClaim
  pub chosen : List EvidenceClaim
  pub label_first : shown ≡ label ∷ chosen
  pub label_is : label.claim_id ≡ output_nature_id
  pub label_in : IsIn label eligible
  pub chosen_in : All (IsChosen eligible ids) chosen
  pub answered : (i : String) × IsNamed i ids × IsNamed i route.claims

with_label-some :
    (label : Option EvidenceClaim) (d : Dict.Dict EvidenceClaim) (route : QuestionRoute)
    {shown : List EvidenceClaim}
    → with_label label d route ≡ some shown
    → (c : EvidenceClaim) × (label ≡ some c)
      × (can_answer (values d) route ≡ true)
      × (shown ≡ c ∷ fit (text_length c.text) d)
unfolding with_label
with_label-some none d route h = cc
with_label-some (some c) d route h = elim (if-eq (can_answer (values d) route) _ none h) [
  | inl (e, f) ↦ (c, refl, e, sym (some_eq f))
  | inr (e, f) ↦ cc
]

-- An answer shows the label first, which is the claim that states the nature of the output, and then
-- claims of the catalog whose ids are all selected; and some selected id is one that the question
-- was routed to.
pub claims_to_render-IsGrounded :
    (eligible : List EvidenceClaim) (claim_ids : List String) (route : QuestionRoute)
    (shown : List EvidenceClaim)
    → claims_to_render eligible claim_ids route ≡ ok (some shown)
    → IsGrounded eligible claim_ids route shown
unfolding claims_to_render can_answer
claims_to_render-IsGrounded eligible ids route shown h =
    let (d, selects, done) = >>=-eq-ok (select (by_id eligible) [] ids) _ h in
    let (c, found, answers, are) =
      with_label-some (Dict.get (by_id eligible) output_nature_id) d route (ok_eq done) in
    let selected = select-by_id-IsSelected eligible ids selects in
    let entry =
      All-get (IsEntry eligible) (by_id eligible) output_nature_id (by_id-IsEntry eligible) found in
    record {
      label = c;
      chosen = fit (text_length c.text) d;
      label_first = are;
      label_is = entry.1;
      label_in = entry.0;
      chosen_in = fit-IsChosen eligible ids (text_length c.text) d selected;
      answered = answers-routed eligible ids route d selected answers;
    }

-- The length of the answer after a text of this length.
rest_length : List String → ℕ
rest_length [] = 0
rest_length (t ∷ ts) = 1 + text_length t + rest_length ts

join_texts-length :
    (t : String) (ts : List String)
    → text_length (join_texts (t ∷ ts)) ≡ text_length t + rest_length ts
unfolding join_texts rest_length
join_texts-length t [] = omega arith
join_texts-length t (u ∷ ts) =
    length-append t (append " " (join_texts (u ∷ ts)))
    ∙ omega (arith, length-append " " (join_texts (u ∷ ts)), join_texts-length u ts, one)
  where
    one : text_length " " ≡ 1
    one = refl

fit-length :
    (n : ℕ) (d : Dict.Dict EvidenceClaim)
    → n ≤ max_answer_chars
    → n + rest_length (map (λ c. c.text) (fit n d)) ≤ max_answer_chars
unfolding fit rest_length
fit-length n [] h = omega (arith, h)
fit-length n ((i, c) ∷ d) h =
    elim (not (str_eq i output_nature_id) && leb (n + 1 + text_length c.text) max_answer_chars)
        as (λ b.
          (not (str_eq i output_nature_id) && leb (n + 1 + text_length c.text) max_answer_chars) ≡ b
          → n
              + rest_length (
                  map (λ c. c.text)
                    (elim b as (λ _. List EvidenceClaim) [
                      | true ↦ c ∷ fit (n + 1 + text_length c.text) d
                      | false ↦ fit n d
                    ]))
            ≤ max_answer_chars) [
              | true ↦ λ e. omega (arith, fit-length (n + 1 + text_length c.text) d (fits _ _ e))
              | false ↦ λ e. fit-length n d h
            ]
      refl
  where
    fits : (b : Bool) (m : ℕ) → (b && leb m max_answer_chars) ≡ true → m ≤ max_answer_chars
    fits b m e = ground (arith, e)

cons_eq :
    {c c' : EvidenceClaim} {cs cs' : List EvidenceClaim} → c ∷ cs ≡ c' ∷ cs' → (c ≡ c') × (cs ≡ cs')
cons_eq e = (cc, cc)

-- The text of an answer is at most as long as `_MAX_ANSWER_CHARS`, if that of the label is.
pub claims_to_render-length :
    (eligible : List EvidenceClaim) (claim_ids : List String) (route : QuestionRoute)
    (label : EvidenceClaim) (rest : List EvidenceClaim)
    → claims_to_render eligible claim_ids route ≡ ok (some (label ∷ rest))
    → text_length label.text ≤ max_answer_chars
    → text_length (render_claims (label ∷ rest)).0 ≤ max_answer_chars
unfolding claims_to_render render_claims
claims_to_render-length eligible ids route label rest h l =
    let (d, selects, done) = >>=-eq-ok (select (by_id eligible) [] ids) _ h in
    let (c, found, answers, are) =
      with_label-some (Dict.get (by_id eligible) output_nature_id) d route (ok_eq done) in
    let (same_label, same_rest) = cons_eq are in
    let bound : text_length c.text + rest_length (map (λ c. c.text) (fit (text_length c.text) d))
        ≤ max_answer_chars =
      fit-length (text_length c.text) d
        (subst (λ z. text_length z.text ≤ max_answer_chars) same_label l) in
    omega (
      arith,
      join_texts-length label.text (map (λ c. c.text) rest),
      subst (λ z. text_length z.text + rest_length (map (λ c. c.text) rest) ≤ max_answer_chars)
          (sym same_label)
          (subst (λ z. text_length c.text + rest_length (map (λ c. c.text) z) ≤ max_answer_chars)
            (sym same_rest) bound),
    )
