-- ===== src/Copilot/Routing/Owned.antt =====
-- Where a question can be routed to: `route_question` of v2/src/footballai_v2/copilot/grounding.py and the tools
-- of v2/src/footballai_v2/copilot/agent/tools.py.
use football_ai.Prelude.{
  ℕ, ◌≡◌, refl, String, String-discrete, Bool, true, false, not, ◌&&◌, ◌||◌, Option, none, some,
  List, [], ◌∷◌, ◌⊎◌, inl, inr, All, All-append, any, all, is_empty, member, str_eq, if_both,
  and_true, if◌then◌else◌,
}
use football_ai.Run.Text.Identifiers.{codes, non_empty}
use football_ai.Copilot.Grounding.{QuestionScope, QuestionRoute, output_nature_id}
use football_ai.Copilot.Agent.Tools.{read_only_tools}
use football_ai.Copilot.Routing.Vocabulary.{
  Word, has_word, specific_words, broad_words, length_words, video_words, tracklet_words,
  general_words, summary_claims,
}
use football_ai.Copilot.Routing.{
  meets, is_known, lookup, claims_in, length_claims, names_its_subject, unsupported_route,
  general_route, supported_route, routed_claims, route_words, route_question, or_else,
}

-- Whether a tool of the agent owns the claim.
unfoldable pub is_owned : String → Bool
is_owned i = any (λ s. member String-discrete i s.claims) read_only_tools

abbrev pub IsOwned : String → Type 0
IsOwned i = is_owned i ≡ true

all-IsOwned : (is : List String) → all is_owned is ≡ true → All IsOwned is
all-IsOwned [] h = tt
all-IsOwned (i ∷ is) h = let (now, others) = and_true _ _ h in (now, all-IsOwned is others)

lookup-IsOwned :
    (table : List (List Word × List String)) (w : Word)
    → all (λ row. all is_owned row.1) table ≡ true
    → All IsOwned (lookup table w)
unfolding lookup
lookup-IsOwned [] w h = tt
lookup-IsOwned ((ws, found) ∷ table) w h =
    let (now, others) = and_true _ _ h in
    if_both (All IsOwned) (has_word w ws) (λ _. all-IsOwned found now)
      (λ _. lookup-IsOwned table w others)

claims_in-IsOwned :
    (table : List (List Word × List String)) (words : List Word)
    → all (λ row. all is_owned row.1) table ≡ true
    → All IsOwned (claims_in table words)
unfolding claims_in
claims_in-IsOwned table [] h = tt
claims_in-IsOwned table (w ∷ ws) h =
    All-append IsOwned (lookup table w) (claims_in table ws) (lookup-IsOwned table w h)
      (claims_in-IsOwned table ws h)

tables_owned :
    (all (λ row. all is_owned row.1) specific_words ≡ true)
    × (all (λ row. all is_owned row.1) broad_words ≡ true)
unfolding is_owned String-discrete
tables_owned = (refl, refl)

or_else-IsOwned :
    (xs ys : List String) → All IsOwned xs → All IsOwned ys → All IsOwned (or_else xs ys)
or_else-IsOwned [] ys hx hy = hy
or_else-IsOwned (x ∷ xs) ys hx hy = hx

routed_claims-IsOwned : (words : List Word) → All IsOwned (routed_claims words)
routed_claims-IsOwned words =
    or_else-IsOwned (claims_in specific_words words) (claims_in broad_words words)
      (claims_in-IsOwned specific_words words tables_owned.0)
      (claims_in-IsOwned broad_words words tables_owned.1)

length_claims-IsOwned : (words : List Word) → All IsOwned (length_claims words)
unfolding length_claims is_owned String-discrete
length_claims-IsOwned words =
    All-append IsOwned (if meets words video_words then _ else []) _
      (if_both (All IsOwned) (meets words video_words) (λ _. (refl, tt)) (λ _. tt))
      (if_both (All IsOwned) (meets words tracklet_words) (λ _. (refl, tt)) (λ _. tt))

-- A route that answers names claims, all of them owned by a tool; one that abstains names none.
unfoldable pub IsServed : QuestionRoute → Type 0
IsServed r =
    All IsOwned r.claims × ((r.scope ≡ QuestionScope.unsupported) ⊎ (is_empty r.claims ≡ false))

unsupported-IsServed : IsServed unsupported_route
unfolding IsServed
unsupported-IsServed = (tt, inl refl)

general-IsServed : IsServed general_route
unfolding IsServed is_owned String-discrete
general-IsServed = (all-IsOwned summary_claims refl, inr refl)

supported_route-IsServed :
    (claims : List String) → All IsOwned claims → IsServed (supported_route claims)
unfolding supported_route IsServed
supported_route-IsServed [] h = (tt, inl refl)
supported_route-IsServed (c ∷ cs) h = (h, inr refl)

route_words-IsServed : (words : List Word) → IsServed (route_words words)
unfolding route_words
route_words-IsServed words =
    if_both IsServed (is_empty words || any (λ w. not (is_known w)) words)
      (λ _. unsupported-IsServed)
      (λ _.
        if_both IsServed (not (names_its_subject words)) (λ _. unsupported-IsServed)
          (λ _.
            if_both IsServed (meets words length_words)
              (λ _.
                if_both IsServed (has_word (codes "short") words) (λ _. unsupported-IsServed)
                  (λ _.
                    supported_route-IsServed (length_claims words) (length_claims-IsOwned words)))
              (λ _.
                if_both IsServed
                  (meets words general_words
                    && all (λ c. str_eq c output_nature_id) (routed_claims words))
                  (λ _.
                    if_both IsServed (meets words video_words) (λ _. unsupported-IsServed)
                      (λ _. general-IsServed))
                  (λ _.
                    supported_route-IsServed (routed_claims words) (routed_claims-IsOwned words)))))

-- Every claim that a question is routed to is owned by a tool of the agent, and a question that is not declined
-- is routed to a claim.
pub route_question-IsServed :
    (lower : ℕ → List ℕ) (is_word : ℕ → Bool) (question : Option String)
    → IsServed (route_question lower is_word question)
unfolding route_question
route_question-IsServed lower is_word none = general-IsServed
route_question-IsServed lower is_word (some question) =
    if_both IsServed (non_empty question) (λ _. route_words-IsServed _) (λ _. general-IsServed)
