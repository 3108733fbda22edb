-- ===== src/Copilot/Routing/Vocabulary.antt =====
-- The vocabulary of questions in v2/src/footballai_v2/copilot/grounding.py. A word is the list of its code
-- points, and a list of words is written as one text. A set of claims is a list.
use football_ai.Prelude.{
  ℕ, String, Bool, true, false, ◌&&◌, List, [], ◌∷◌, ◌++◌, any, ◌==◌, if◌then◌else◌,
}
use football_ai.Run.Text.Identifiers.{codes}
use football_ai.Copilot.Grounding.{output_nature_id}

abbrev pub Word : Type 0
Word = List ℕ

unfoldable pub same_word : Word → Word → Bool
same_word [] [] = true
same_word (a ∷ as_word) (b ∷ bs) = a == b && same_word as_word bs
same_word _ _ = false

unfoldable pub has_word : Word → List Word → Bool
has_word w ws = any (λ v. same_word w v) ws

-- `text.split()`, for a text with single spaces
unfoldable pub split_spaces : Word → List ℕ → List Word
split_spaces word [] = word ∷ []
split_spaces word (c ∷ cs) =
    if c == 32 then word ∷ split_spaces [] cs else split_spaces (word ++ c ∷ []) cs

unfoldable pub words_of : String → List Word
words_of text = split_spaces [] (codes text)

abbrev pub model_claims : List String
model_claims = "model_details" ∷ "model_references" ∷ []

abbrev pub track_count_claims : List String
track_count_claims = "diag_tracking" ∷ "diag_legacy_tracking" ∷ []

abbrev pub diagnostic_claims : List String
diagnostic_claims =
    track_count_claims
    ++ "diag_synthetic" ∷ "diag_assignment" ∷ "diag_duration" ∷ "diag_active"
      ∷ "diag_short_tracklets" ∷ "diag_insufficient" ∷ "diag_interpretation" ∷ "diag_ground_truth"
      ∷ "diag_reliability_scope" ∷ []

abbrev pub reliability_claims : List String
reliability_claims =
    track_count_claims
    ++ "diag_synthetic" ∷ "diag_duration" ∷ "diag_short_tracklets" ∷ "diag_insufficient"
      ∷ "diag_reliability_scope" ∷ []

abbrev pub limit_claims : List String
limit_claims = "missing_evidence" ∷ "boundaries" ∷ []

abbrev pub summary_claims : List String
summary_claims =
    (output_nature_id ∷ "run_status" ∷ "model_details" ∷ "artifact_integrity" ∷ "diag_synthetic"
      ∷ [])
    ++ track_count_claims
    ++ limit_claims

abbrev pub function_words : List Word
function_words =
    words_of
      "a about all an analysis and any are as at be been by can could did do does for from had has have how i important in is it its key long main many me much my of on once or our please produced recorded report reported run runs s say says show should tell that the their there this to us use used was we were what which with would you"

abbrev pub general_words : List Word
general_words =
    words_of
      "describe explain explanation happened outcome overview result results summarise summarize summary"

abbrev pub reliability_words : List Word
reliability_words = words_of "accurate accuracy reliable reliability trust trustworthy"

abbrev pub outcome_words : List Word
outcome_words =
    words_of "complete completed fail failed finished partial succeed succeeded success successful"

abbrev pub length_words : List Word
length_words = words_of "long length duration"

abbrev pub video_words : List Word
video_words = words_of "source video"

abbrev pub tracklet_words : List Word
tracklet_words = words_of "track tracks tracklet tracklets"

abbrev pub detection_words : List Word
detection_words = words_of "detection detections"

abbrev pub artifact_words : List Word
artifact_words = words_of "artifact artifacts file files"

abbrev pub quantity_words : List Word
quantity_words = words_of "many much"

abbrev pub countable_words : List Word
countable_words =
    tracklet_words
    ++ detection_words
    ++ artifact_words
    ++ words_of "model models reference references"

abbrev pub listed_words : List Word
listed_words = tracklet_words ++ detection_words ++ artifact_words

abbrev pub tracking_subjects : List Word
tracking_subjects = tracklet_words ++ detection_words

-- `_SPECIFIC_WORDS`, by the claims that the words of a group route to
abbrev pub specific_words : List (List Word × List String)
specific_words =
    (words_of "accuracy accurate reliability reliable trust trustworthy", reliability_claims)
    ∷ (words_of "short", "diag_short_tracklets" ∷ [])
    ∷ (words_of "ml model models reference references weights", model_claims)
    ∷ (
      words_of "checksum code commit hash repo repository revision sha sha-256 sha256",
      "provenance" ∷ [],
    )
    ∷ (words_of "assigned assignment fraction", "diag_assignment" ∷ [])
    ∷ (words_of "active simultaneous", "diag_active" ∷ [])
    ∷ (words_of "insufficient", "diag_insufficient" ∷ [])
    ∷ (words_of "interpretation", "diag_interpretation" ∷ [])
    ∷ (words_of "ground truth", "diag_ground_truth" ∷ [])
    ∷ (words_of "median", "diag_duration" ∷ "diag_active" ∷ [])
    ∷ (words_of "missing", "missing_evidence" ∷ "no_missing_evidence" ∷ [])
    ∷ []

-- `_BROAD_WORDS`, by the claims that the words of a group route to
abbrev pub broad_words : List (List Word × List String)
broad_words =
    (
      words_of
          "complete completed fail failed finished origin partial pipeline profile state status succeed succeeded success successful version",
      "run_status" ∷ [],
    )
    ∷ (
      words_of
          "demo demo_fast executed fake genuine inference placeholder placeholders real synthetic unverified verified",
      output_nature_id ∷ [],
    )
    ∷ (words_of "provenance", model_claims ++ "provenance" ∷ "source_duration" ∷ [])
    ∷ (
      words_of "artifact artifacts file files integrity passed registered verification",
      "artifact_integrity" ∷ [],
    )
    ∷ (
      words_of "count counts detection detections total track tracklet tracklets tracks",
      track_count_claims,
    )
    ∷ (
      words_of "diagnostic diagnostics fragmentation metric metrics tracked tracking",
      diagnostic_claims,
    )
    ∷ (
      words_of
          "available boundaries caveat caveats evidence limit limitation limitations limits measured",
      limit_claims,
    )
    ∷ []

-- `_SUBJECT_OF_WORD`, by the subjects that the words of a group want
abbrev pub subject_of_word : List (List Word × List Word)
subject_of_word =
    (
      words_of
          "active assigned assignment count counts fraction insufficient median short simultaneous total",
      tracking_subjects,
    )
    ∷ (words_of "ground", words_of "truth")
    ∷ (words_of "truth", words_of "ground")
    ∷ (words_of "passed", artifact_words ++ words_of "integrity verification")
    ∷ []
