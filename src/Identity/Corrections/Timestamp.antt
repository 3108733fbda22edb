-- ===== src/Identity/Corrections/Timestamp.antt =====
-- The text checks of v2/src/footballai_v2/execution/ai2c/corrections.py: the handle of a reviewer
-- and the time of a review, with the ranges that `datetime.strptime` demands.
use football_ai.Prelude.{
  ℕ, ◌+◌, ◌-◌, ◌*◌, String, Bool, false, not, ◌&&◌, ◌||◌, List, [], ◌∷◌, length, all, leb, ◌==◌,
  if◌then◌else◌,
}
use football_ai.Run.Text.Identifiers.{codes}
use Prim.Native.Nat.{◌%◌}

is_digit : ℕ → Bool
is_digit c = leb b'0' c && leb c b'9'

is_alphanumeric : ℕ → Bool
unfolding is_digit
is_alphanumeric c = is_digit c || (leb b'A' c && leb c b'Z') || (leb b'a' c && leb c b'z')

reviewer_codes : List ℕ → Bool
unfolding is_alphanumeric
reviewer_codes [] = false
reviewer_codes (c ∷ cs) =
    is_alphanumeric c
    && all (λ x. is_alphanumeric x || x == b'.' || x == b'_' || x == b'-') cs
    && leb (length cs) 63

-- `_REVIEWER_RE.fullmatch`
unfoldable pub is_reviewer : String → Bool
unfolding reviewer_codes
is_reviewer s = reviewer_codes (codes s)

abbrev two : ℕ → ℕ → ℕ
two a b = (a - b'0') * 10 + (b - b'0')

is_leap : ℕ → Bool
is_leap y = ((y % 4) == 0) && (not ((y % 100) == 0) || (y % 400) == 0)

days_in_month : (year month : ℕ) → ℕ
unfolding is_leap
days_in_month y m =
    if m == 2
    then (if is_leap y then 29 else 28)
    else if m == 4 || m == 6 || m == 9 || m == 11
    then 30
    else 31

in_calendar : (year month day hour minute second : ℕ) → Bool
unfolding days_in_month
in_calendar year month day hour minute second =
    leb 1 year
    && leb 1 month
    && leb month 12
    && leb 1 day
    && leb day (days_in_month year month)
    && leb hour 23
    && leb minute 59
    && leb second 59

timestamp_codes : List ℕ → Bool
unfolding is_digit in_calendar
timestamp_codes
      (y1 ∷ y2 ∷ y3 ∷ y4 ∷ d1 ∷ m1 ∷ m2 ∷ d2 ∷ a1 ∷ a2 ∷ t ∷ h1 ∷ h2 ∷ c1 ∷ n1 ∷ n2 ∷ c2 ∷ s1 ∷ s2
        ∷ z ∷ []) =
    all is_digit (y1 ∷ y2 ∷ y3 ∷ y4 ∷ m1 ∷ m2 ∷ a1 ∷ a2 ∷ h1 ∷ h2 ∷ n1 ∷ n2 ∷ s1 ∷ s2 ∷ [])
    && all (λ c. c == b'-') (d1 ∷ d2 ∷ [])
    && all (λ c. c == b':') (c1 ∷ c2 ∷ [])
    && t == b'T'
    && z == b'Z'
    && in_calendar (two y1 y2 * 100 + two y3 y4) (two m1 m2) (two a1 a2) (two h1 h2) (two n1 n2)
        (two s1 s2)
timestamp_codes _ = false

-- `_TIMESTAMP_RE.fullmatch`, and `datetime.strptime` does not raise.
unfoldable pub is_timestamp : String → Bool
unfolding timestamp_codes
is_timestamp s = timestamp_codes (codes s)
