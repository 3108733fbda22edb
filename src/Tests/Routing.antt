-- ===== src/Tests/Routing.antt =====
-- Questions to the copilot of v2/src/footballai_v2/copilot, in ASCII.
use football_ai.Prelude.{
  ℕ, ◌≡◌, refl, String, Bool, true, false, not, any, none, some, List, [], ◌∷◌,
}
use football_ai.Prelude.Result.{ok}
use football_ai.Run.Text.{after}
use football_ai.Run.Text.Identifiers.{codes, non_empty}
use football_ai.Copilot.Grounding.{QuestionScope}
use football_ai.Copilot.Agent.Trace.Records.{tool_code}
use football_ai.Copilot.Agent.Tools.Names.{ToolErrorCode}
use football_ai.Copilot.Agent.Trace.Public.{public_error}
use football_ai.Copilot.Agent.Loop.{Agent}
use football_ai.Copilot.Agent.Answer.{AgentResult, answer}
use football_ai.Copilot.Routing.Vocabulary.{has_word, same_word, split_spaces, words_of}
use football_ai.Copilot.Routing.{
  route_question, question_words, route_words, is_known, lookup, claims_in, names_its_subject,
  meets, supported_route, lower_codes, without_filler, find_words, word_char, begins_word,
}
use football_ai.Copilot.Routing.Owned.{IsServed, route_question-IsServed}
use football_ai.Copilot.Routing.Closed.{IsDeclined, answer-IsDeclined}
use football_ai.Tests.Agent.{agent, evidence}

abbrev lower : ℕ → List ℕ
lower c = c ∷ []

abbrev is_word : ℕ → Bool
is_word c = false

abbrev countable : String
countable = "How many tracklets were there?"

words_example :
    question_words lower is_word "The Re-run's most important key?"
    ≡ codes "the" ∷ codes "re-run" ∷ codes "s" ∷ codes "key" ∷ []
unfolding question_words lower_codes without_filler find_words word_char begins_word after
words_example = refl

supported_example : route_question lower is_word (some countable) ≡ record {
  scope = QuestionScope.supported;
  claims = "diag_tracking" ∷ "diag_legacy_tracking" ∷ [];
}
unfolding route_question question_words non_empty lower_codes without_filler find_words word_char
    begins_word after route_words is_known has_word same_word split_spaces words_of lookup claims_in
    names_its_subject meets supported_route
supported_example = refl

route_question-IsServed_example : IsServed (record {
  scope = QuestionScope.supported;
  claims = "diag_tracking" ∷ "diag_legacy_tracking" ∷ [];
})
unfolding route_question question_words non_empty lower_codes without_filler find_words word_char
    begins_word after route_words is_known has_word same_word split_spaces words_of lookup claims_in
    names_its_subject meets supported_route
route_question-IsServed_example = route_question-IsServed lower is_word (some countable)

abbrev fouls : String
fouls = "How many fouls?"

unknown_example : any (λ w. not (is_known w)) (question_words lower is_word fouls) ≡ true
unfolding question_words lower_codes without_filler find_words word_char begins_word after is_known
    has_word same_word split_spaces words_of
unknown_example = refl

asked_example : non_empty fouls ≡ true
unfolding non_empty
asked_example = refl

abbrev routing_agent : Agent (Unit {0})
routing_agent = record agent { router = route_question lower is_word }

answer-IsDeclined_example :
    (r : AgentResult) × (answer routing_agent "f0" "run-1" evidence (some fouls) none ≡ ok r)
    × IsDeclined r
answer-IsDeclined_example =
    answer-IsDeclined routing_agent lower is_word "f0" "run-1" evidence fouls none (λ q. refl) refl
      asked_example unknown_example

public_example :
    public_error (some (tool_code ToolErrorCode.cross_run_reference))
    ≡ some ToolErrorCode.cross_run_reference
public_example = refl
