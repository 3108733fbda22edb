-- ===== src/Prelude/Decisions.antt =====
-- Equality that is decided: of texts, and as a Boolean test.
use Prim.Native.String.{String}
use mathlib.Core.Path.{◌≡◌, refl}
use mathlib.Core.Bool.{Bool, true, false, not, ◌&&◌, ◌||◌}
use mathlib.Core.List.{List, [], ◌∷◌}
use text.Mathlib.Text.{◌==◌}
use text.Mathlib.TextEquality.{eq_iff}
use football_ai.Prelude.Tests.{Bool-cases}
use mathlib.Core.Logic.{inl, inr}

unfoldable pub String-discrete : Discrete String
unfolding Bool-cases
String-discrete a b = elim (Bool-cases (a == b)) [
  | inl e ↦ yes ((eq_iff a b).0 e)
  | inr e ↦ no (λ p. absurd (differ e ((eq_iff a b).1 p)))
]
  where
    differ : {c : Bool} → c ≡ false → c ≡ true → ⊥
    differ e f = cc

module _ {ℓ} {A : Type ℓ} (d : Discrete A) where
  -- `a == b`
  abbrev pub same : A → A → Bool
  same a b = elim (d a b) [ yes _ ↦ true | no _ ↦ false ]

  pub same_refl : (a : A) → same a a ≡ true
  same_refl a = elim (d a a) as (λ x. elim x [ yes _ ↦ true | no _ ↦ false ] ≡ true) [
    | yes _ ↦ refl
    | no n ↦ absurd (n refl)
  ]

  pub same_sound : (a b : A) → same a b ≡ true → a ≡ b
  same_sound a b = elim (d a b) as (λ x. elim x [ yes _ ↦ true | no _ ↦ false ] ≡ true → a ≡ b) [
    | yes p ↦ λ _. p
    | no n ↦ λ h. cc
  ]

  abbrev pub member : A → List A → Bool
  member a [] = false
  member a (x ∷ xs) = same a x || member a xs

  -- `len(xs) == len(set(xs))`
  abbrev pub distinct : List A → Bool
  distinct [] = true
  distinct (x ∷ xs) = not (member x xs) && distinct xs
