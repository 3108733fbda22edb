-- ===== src/Run/Text.antt =====
-- The text checks of v2/src/footballai_v2/contracts/v1/analysis_run.py: `str.strip`, the regular
-- expressions, the canonical UUID and the artifact path. A text is read as its code points.
pub mod Identifiers
use Prim.Native.Char.{code}
use football_ai.Prelude.{
  ℕ, zero, suc, ◌+◌, ◌≡◌, refl, String, Bool, true, false, not, ◌&&◌, ◌||◌, Option, none, some,
  List, [], ◌∷◌, ◌++◌, map, leb, ◌==◌, if◌then◌else◌, any, all, is_empty, length, is_some,
}
use football_ai.Run.Text.Identifiers.{
  codes, dash, is_digit, is_git_revision, is_hex, is_identifier, is_lower, is_mark, is_sha256,
  is_space, is_uuid_v4, matches, non_empty, repeat,
}

-- Case folding of the letters that `re.IGNORECASE` identifies with an ASCII letter.
unfoldable pub fold : ℕ → ℕ
fold c =
    if leb b'A' c && leb c b'Z'
    then c + 32
    else if c == 304 || c == 305
    then b'i'
    else if c == 383
    then b's'
    else if c == 8490
    then b'k'
    else c

-- What follows the word, if the text begins with it.
unfoldable pub after : List ℕ → List ℕ → Option (List ℕ)
after [] cs = some cs
after (w ∷ ws) [] = none
after (w ∷ ws) (c ∷ cs) = if w == c then after ws cs else none

skip_spaces : List ℕ → List ℕ
unfolding is_space
skip_spaces [] = []
skip_spaces (c ∷ cs) = if is_space c then skip_spaces cs else c ∷ cs

head_is : (ℕ → Bool) → List ℕ → Bool
head_is p [] = false
head_is p (c ∷ cs) = p c

-- `[_-]?`, then the word
after_joined : List ℕ → List ℕ → Option (List ℕ)
unfolding after
after_joined word [] = after word []
after_joined word (c ∷ cs) = if c == b'_' || c == b'-' then after word cs else after word (c ∷ cs)

then_joined : Option (List ℕ) → List ℕ → Option (List ℕ)
unfolding after_joined
then_joined none word = none
then_joined (some cs) word = after_joined word cs

-- `password|passwd|api[_-]?key|access[_-]?token|secret` at the head, and what follows
secret_words : List ℕ → List (Option (List ℕ))
unfolding after then_joined
secret_words cs =
    after (codes "password") cs
    ∷ after (codes "passwd") cs
    ∷ then_joined (after (codes "api") cs) (codes "key")
    ∷ then_joined (after (codes "access") cs) (codes "token")
    ∷ after (codes "secret") cs
    ∷ []

assigned : Option (List ℕ) → Bool
unfolding skip_spaces head_is
assigned none = false
assigned (some cs) = head_is (λ c. c == b':' || c == b'=') (skip_spaces cs)

header_value : Option (List ℕ) → Bool
unfolding skip_spaces head_is
header_value none = false
header_value (some cs) = head_is (λ c. c == b':') (skip_spaces cs)

bearer_value : Option (List ℕ) → Bool
unfolding skip_spaces head_is
bearer_value none = false
bearer_value (some cs) =
    head_is is_space cs
    && head_is (λ c. is_lower c || is_digit c || is_mark c || c == b'~') (skip_spaces cs)

-- A predicate at some position of the text: `pattern.search`.
unfoldable pub somewhere : (List ℕ → Bool) → List ℕ → Bool
somewhere p [] = p []
somewhere p (c ∷ cs) = p (c ∷ cs) || somewhere p cs

unsafe_here : List ℕ → Bool
unfolding secret_words assigned header_value bearer_value
unsafe_here cs =
    is_some (after (codes "traceback (most recent call last)") cs)
    || header_value (after (codes "authorization") cs)
    || bearer_value (after (codes "bearer") cs)
    || any assigned (secret_words cs)

-- `_UNSAFE_TEXT_RE.search`
unfoldable pub is_unsafe : String → Bool
unfolding fold somewhere unsafe_here
is_unsafe s = somewhere unsafe_here (map fold (codes s))

sensitive_here : List ℕ → Bool
unfolding secret_words
sensitive_here cs = any is_some (secret_words cs) || is_some (after (codes "authorization") cs)

-- `_SENSITIVE_KEY_RE.search`
unfoldable pub is_sensitive : String → Bool
unfolding fold somewhere sensitive_here
is_sensitive s = somewhere sensitive_here (map fold (codes s))

-- The text between slashes.
split_slash : List ℕ → List ℕ → List (List ℕ)
split_slash part [] = part ∷ []
split_slash part (c ∷ cs) =
    if c == b'/' then part ∷ split_slash [] cs else split_slash (part ++ c ∷ []) cs

same_codes : List ℕ → List ℕ → Bool
unfolding after
same_codes xs ys = elim (after xs ys) [ none ↦ false | some rest ↦ is_empty rest ]

pub data PathError : Type 0 where
  path_empty path_not_posix path_not_normalized path_not_relative path_not_artifact
        path_names_nothing index_error :
      PathError

-- The checks on the parts of a relative path, which has one part at least.
check_parts : List (List ℕ) → Option PathError
unfolding same_codes
check_parts [] = some index_error
check_parts (first ∷ rest) =
    if any (λ part. same_codes part (codes "..")) (first ∷ rest)
    then some path_not_relative
    else if not (same_codes first (codes "artifacts"))
    then some path_not_artifact
    else if is_empty rest
    then some path_names_nothing
    else none

-- No empty part and no part ".".
plain_parts : List ℕ → Bool
unfolding split_slash same_codes
plain_parts cs =
    not (any (λ part. is_empty part || same_codes part (codes ".")) (split_slash [] cs))

-- A text that begins with a slash equals `str(PurePosixPath(text))`: one or two slashes, and then
-- nothing or plain parts.
normalized_absolute : List ℕ → Bool
unfolding plain_parts
normalized_absolute (a ∷ b ∷ cs) =
    if b == b'/' then is_empty cs || plain_parts cs else plain_parts (b ∷ cs)
normalized_absolute cs = true

-- `validate_relative_artifact_path`: `none` if the path is accepted. A relative path equals
-- `str(PurePosixPath(path))` if it is "." or has no empty part and no part "."; the path "." has
-- no parts, so that `path.parts[0]` fails.
unfoldable pub path_error : String → Option PathError
unfolding split_slash check_parts same_codes plain_parts normalized_absolute head_is
path_error value =
    if not (non_empty value)
    then some path_empty
    else if any (λ c. c == b'\\') (codes value)
    then some path_not_posix
    else if head_is (λ c. c == b'/') (codes value)
    then (if normalized_absolute (codes value)
        then some path_not_relative
        else some path_not_normalized)
    else if same_codes (codes value) (codes ".")
    then some index_error
    else if not (plain_parts (codes value))
    then some path_not_normalized
    else check_parts (split_slash [] (codes value))

text_tests : Unit {0}
unfolding non_empty is_identifier is_sha256 is_git_revision is_uuid_v4 is_unsafe is_sensitive
    path_error
text_tests = tt

path_error_examples :
    (path_error "artifacts/team-summary.json" ≡ none)
    × (path_error "artifacts/../x" ≡ some path_not_relative)
    × (path_error "artifacts//x" ≡ some path_not_normalized)
    × (path_error "artifacts" ≡ some path_names_nothing)
    × (path_error "." ≡ some index_error)
unfolding text_tests
path_error_examples = (refl, refl, refl, refl, refl)

is_unsafe_examples :
    (is_unsafe "see Bearer  abc" ≡ true)
    × (is_unsafe "API-Key = 1" ≡ true)
    × (is_unsafe "a secret" ≡ false)
    × (is_sensitive "my_Secret" ≡ true)
unfolding text_tests
is_unsafe_examples = (refl, refl, refl, refl)

is_uuid_v4_examples :
    (is_uuid_v4 "3f2504e0-4f89-41d3-9a0c-0305e82c3301" ≡ true)
    × (is_uuid_v4 "3f2504e0-4f89-11d3-9a0c-0305e82c3301" ≡ false)
    × (is_identifier "team-summary" ≡ true)
    × (is_identifier "Team" ≡ false)
unfolding text_tests
is_uuid_v4_examples = (refl, refl, refl, refl)
