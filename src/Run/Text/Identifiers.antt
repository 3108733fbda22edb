-- ===== src/Run/Text/Identifiers.antt =====
-- Characters and the patterns of identifiers in v2/src/footballai_v2/contracts/v1/analysis_run.py.
use Prim.Native.Char.{code}
use football_ai.Prelude.{
  ℕ, zero, suc, String, Bool, true, false, not, ◌&&◌, ◌||◌, List, [], ◌∷◌, leb, ◌==◌, any, all,
  length,
}

abbrev pub codes : String → List ℕ
codes String.[] = []
codes (String.◌∷◌ c s) = code c ∷ codes s

-- The characters of `str.isspace`, which `str.strip` removes and `\s` matches.
unfoldable pub is_space : ℕ → Bool
is_space c =
    (leb 9 c && leb c 13)
    || (leb 28 c && leb c 32)
    || c == 133
    || c == 160
    || c == 5760
    || (leb 8192 c && leb c 8202)
    || c == 8232
    || c == 8233
    || c == 8239
    || c == 8287
    || c == 12288

-- `_require_non_empty`: `value.strip()` is not empty.
unfoldable pub non_empty : String → Bool
unfolding is_space
non_empty s = any (λ c. not (is_space c)) (codes s)

abbrev pub is_lower : ℕ → Bool
is_lower c = leb b'a' c && leb c b'z'

abbrev pub is_digit : ℕ → Bool
is_digit c = leb b'0' c && leb c b'9'

abbrev pub is_hex : ℕ → Bool
is_hex c = is_digit c || (leb b'a' c && leb c b'f')

abbrev pub is_mark : ℕ → Bool
is_mark c = c == b'.' || c == b'_' || c == b'-'

identifier_codes : List ℕ → Bool
identifier_codes [] = false
identifier_codes (c ∷ cs) =
    is_lower c && all (λ x. is_lower x || is_digit x || is_mark x) cs && leb (length cs) 127

-- `_IDENTIFIER_RE.fullmatch`
unfoldable pub is_identifier : String → Bool
unfolding identifier_codes
is_identifier s = identifier_codes (codes s)

-- `_SHA256_RE.fullmatch`
unfoldable pub is_sha256 : String → Bool
is_sha256 s = all is_hex (codes s) && length (codes s) == 64

-- `_GIT_REVISION_RE.fullmatch`
unfoldable pub is_git_revision : String → Bool
is_git_revision s = all is_hex (codes s) && leb 40 (length (codes s)) && leb (length (codes s)) 64

-- One test for each character of a text of fixed length.
unfoldable pub matches : List (ℕ → Bool) → List ℕ → Bool
matches [] [] = true
matches [] (c ∷ cs) = false
matches (p ∷ ps) [] = false
matches (p ∷ ps) (c ∷ cs) = p c && matches ps cs

unfoldable pub repeat : ℕ → (ℕ → Bool) → List (ℕ → Bool) → List (ℕ → Bool)
repeat zero p ps = ps
repeat (suc n) p ps = p ∷ repeat n p ps

abbrev pub dash : ℕ → Bool
dash c = c == b'-'

-- A text equal to `str(uuid.UUID(text))`, of version 4 and the RFC 4122 variant.
unfoldable pub is_uuid_v4 : String → Bool
unfolding matches repeat
is_uuid_v4 s =
    matches
      (repeat 8 is_hex (
        dash
        ∷ repeat 4 is_hex (
            dash
            ∷ (λ c. c == b'4')
            ∷ repeat 3 is_hex (
                dash
                ∷ (λ c. (leb b'8' c && leb c b'9') || (leb b'a' c && leb c b'b'))
                ∷ repeat 3 is_hex (dash ∷ repeat 12 is_hex [])))))
      (codes s)
