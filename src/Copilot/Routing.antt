-- ===== src/Copilot/Routing.antt =====
-- `route_question` of v2/src/footballai_v2/copilot/grounding.py. Characters above ASCII are read by two tables of
-- Unicode, which are arguments: what `str.lower` makes of a character, and whether `\w` matches it. Nothing
-- is assumed of them.
pub mod Vocabulary
pub mod Owned
pub mod Closed
use football_ai.Prelude.{
  ℕ, zero, suc, ◌+◌, String, Bool, true, false, not, ◌&&◌, ◌||◌, Option, none, some, is_some, List,
  [], ◌∷◌, ◌++◌, any, all, is_empty, leb, ◌==◌, member, String-discrete, str_eq, if◌then◌else◌,
}
use football_ai.Run.Text.{after}
use football_ai.Run.Text.Identifiers.{codes, non_empty}
use football_ai.Copilot.Grounding.{QuestionScope, QuestionRoute, output_nature_id}
use football_ai.Copilot.Routing.Vocabulary.{
  Word, has_word, words_of, function_words, general_words, reliability_words, outcome_words,
  length_words, video_words, tracklet_words, quantity_words, countable_words, listed_words,
  specific_words, broad_words, subject_of_word, summary_claims,
}

-- `present & words` is not empty.
unfoldable pub meets : List Word → List Word → Bool
meets present words = any (λ w. has_word w words) present

abbrev pub table_has {ℓ} : {A : Type ℓ} → Word → List (List Word × A) → Bool
table_has w table = any (λ row. has_word w row.0) table

unfoldable pub is_known : Word → Bool
is_known w =
    has_word w function_words
    || has_word w general_words
    || has_word w length_words
    || has_word w video_words
    || table_has w specific_words
    || table_has w broad_words

-- What a table has for a word, or nothing.
unfoldable pub lookup {ℓ} : {A : Type ℓ} → List (List Word × List A) → Word → List A
lookup [] w = []
lookup ((ws, found) ∷ table) w = if has_word w ws then found else lookup table w

unfoldable pub claims_in : List (List Word × List String) → List Word → List String
claims_in table [] = []
claims_in table (w ∷ ws) = lookup table w ++ claims_in table ws

unfoldable pub length_claims : List Word → List String
length_claims present =
    (if meets present video_words then "source_duration" ∷ [] else [])
    ++ (if meets present tracklet_words then "diag_duration" ∷ [] else [])

-- Whether a word that wants a subject has one beside it.
abbrev has_subject : List Word → Word → Bool
has_subject present w =
    not (table_has w subject_of_word) || meets present (lookup subject_of_word w)

unfoldable pub names_its_subject : List Word → Bool
names_its_subject present =
    not (meets present quantity_words && not (meets present countable_words))
    && not (has_word (codes "which") present && meets present listed_words)
    && not (meets present outcome_words && any (λ w. table_has w specific_words) present)
    && not (
        meets present reliability_words
        && (meets present video_words || meets present length_words))
    && all (has_subject present) present

abbrev pub unsupported_route : QuestionRoute
unsupported_route = record { scope = QuestionScope.unsupported; claims = [] }

abbrev pub general_route : QuestionRoute
general_route = record { scope = QuestionScope.general; claims = summary_claims }

-- A route to claims, if there are any.
unfoldable pub supported_route : List String → QuestionRoute
supported_route [] = unsupported_route
supported_route (c ∷ cs) = record { scope = QuestionScope.supported; claims = c ∷ cs }

abbrev or_else : List String → List String → List String
or_else [] others = others
or_else (c ∷ cs) others = c ∷ cs

abbrev pub routed_claims : List Word → List String
routed_claims words = or_else (claims_in specific_words words) (claims_in broad_words words)

-- The words of a question, after the filler phrase is taken out.
unfoldable pub route_words : List Word → QuestionRoute
route_words words =
    if is_empty words || any (λ w. not (is_known w)) words
    then unsupported_route
    else if not (names_its_subject words)
    then unsupported_route
    else if meets words length_words
    then (if has_word (codes "short") words
        then unsupported_route
        else supported_route (length_claims words))
    else if meets words general_words && all (λ c. str_eq c output_nature_id) (routed_claims words)
    then (if meets words video_words then unsupported_route else general_route)
    else supported_route (routed_claims words)

module _ (lower : ℕ → List ℕ) (is_word : ℕ → Bool) where
  lower_code : ℕ → List ℕ
  lower_code c =
      if leb 128 c then lower c else if leb b'A' c && leb c b'Z' then (c + 32) ∷ [] else c ∷ []

  unfoldable pub lower_codes : List ℕ → List ℕ
  unfolding lower_code
  lower_codes [] = []
  lower_codes (c ∷ cs) = lower_code c ++ lower_codes cs

  -- `\w`
  unfoldable pub word_char : ℕ → Bool
  word_char c =
      if leb 128 c
      then is_word c
      else (leb b'a' c && leb c b'z')
        || (leb b'A' c && leb c b'Z')
        || (leb b'0' c && leb c b'9')
        || c == b'_'

  -- Whether a text begins with a character that `\w` matches.
  unfoldable pub begins_word : List ℕ → Bool
  begins_word [] = false
  begins_word (c ∷ cs) = word_char c

  filler_ends : Option (List ℕ) → Bool
  filler_ends none = false
  filler_ends (some others) = not (begins_word others)

  -- `_FILLER_PHRASE_RE.sub(" ", text)`, with the characters of a match that are left to skip
  unfoldable pub without_filler : (skip : ℕ) → (inside_word : Bool) → List ℕ → List ℕ
  unfolding filler_ends
  without_filler skip inside_word [] = []
  without_filler (suc skip) inside_word (c ∷ cs) = without_filler skip (word_char c) cs
  without_filler zero inside_word (c ∷ cs) =
      elim (not inside_word && filler_ends (after (codes "most important") (c ∷ cs))) [
        | true ↦ 32 ∷ without_filler 13 (word_char c) cs
        | false ↦ c ∷ without_filler zero (word_char c) cs
      ]

  abbrev flush : Word → List Word → List Word
  flush [] words = words
  flush (c ∷ cs) words = (c ∷ cs) ∷ words

  -- `_WORD_RE.findall(text)`, with the word so far: an underscore is matched by `\w`, and a hyphen joins two words.
  unfoldable pub find_words : Word → List ℕ → List Word
  find_words word [] = flush word []
  find_words word (c ∷ cs) =
      elim (word_char c || (c == b'-' && not (is_empty word) && begins_word cs)) [
        | true ↦ find_words (word ++ c ∷ []) cs
        | false ↦ flush word (find_words [] cs)
      ]

  unfoldable pub question_words : String → List Word
  question_words question = find_words [] (without_filler zero false (lower_codes (codes question)))

  unfoldable pub route_question : Option String → QuestionRoute
  route_question none = general_route
  route_question (some question) =
      if non_empty question then route_words (question_words question) else general_route
