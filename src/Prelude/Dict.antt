-- ===== src/Prelude/Dict.antt =====
-- A dictionary with text keys, as the list of its items.
use mathlib.Core.Path.{◌≡◌, refl}
use mathlib.Core.Option.{Option, none, some}
use mathlib.Core.List.{List, [], ◌∷◌}
use native.Mathlib.Omega.{arith}
use Prim.Native.String.{String}
use text.Mathlib.Text.{◌==◌}
use text.Mathlib.TextEquality.{eq_iff}
use mathlib.Core.Path.{sym, subst}
use mathlib.Core.Logic.{inl, inr}
use mathlib.Core.Bool.{true, false}
use football_ai.Prelude.Tests.{if◌then◌else◌, if-eq, some_eq}
use football_ai.Prelude.Lists.{All}

abbrev pub Dict {ℓ} : Type ℓ → Type ℓ
Dict V = List (String × V)

module _ {ℓ} {V : Type ℓ} where
  unfoldable pub get : Dict V → String → Option V
  get [] k = none
  get ((j, v) ∷ m) k = if j == k then some v else get m k

  unfoldable pub put : Dict V → String → V → Dict V
  put [] k v = (k, v) ∷ []
  put ((j, w) ∷ m) k v = if j == k then (j, v) ∷ m else (j, w) ∷ put m k v

  pub get-put :
      (m : Dict V) (k : String) (v : V) (j : String)
      → get (put m k v) j ≡ (if k == j then some v else get m j)
  unfolding get put
  get-put [] k v j = refl
  get-put ((i, w) ∷ m) k v j = ground (arith, eq_iff k j, eq_iff i k, eq_iff i j, get-put m k v j)

  unfoldable pub remove : Dict V → String → Dict V
  remove [] k = []
  remove ((j, w) ∷ m) k = if j == k then remove m k else (j, w) ∷ remove m k

  pub get-remove :
      (m : Dict V) (k j : String) → get (remove m k) j ≡ (if k == j then none else get m j)
  unfolding get remove
  get-remove [] k j = ground arith
  get-remove ((i, w) ∷ m) k j = ground (arith, eq_iff k j, eq_iff i k, eq_iff i j, get-remove m k j)

-- What holds of every entry.
module _ {ℓ κ} {V : Type ℓ} (P : String × V → Type κ) where
  pub All-put : (d : Dict V) (k : String) (v : V) → All P d → P (k, v) → All P (put d k v)
  unfolding put
  All-put [] k v h p = (p, tt)
  All-put ((j, w) ∷ d) k v h p =
      elim ((j == k))
          as (λ b. (j == k) ≡ b → All P (if b then (j, v) ∷ d else (j, w) ∷ put d k v)) [
            | true ↦ λ e. (subst (λ z. P (z, v)) (sym ((eq_iff j k).0 e)) p, h.1)
            | false ↦ λ e. (h.0, All-put d k v h.1 p)
          ]
        refl

  pub All-get : (d : Dict V) (k : String) {v : V} → All P d → get d k ≡ some v → P (k, v)
  unfolding get
  All-get [] k h e = cc
  All-get ((j, w) ∷ d) k {v} h e = elim (if-eq ((j == k)) (some w) (get d k) e) [
    | inl (f, g) ↦ subst (λ z. P (k, z)) (some_eq g) (subst (λ z. P (z, w)) ((eq_iff j k).0 f) h.0)
    | inr (f, g) ↦ All-get d k h.1 g
  ]
