-- ===== src/Identity/IdMap.antt =====
-- A dictionary whose keys are ids of tracklets, as the list of its items.
use football_ai.Prelude.{
  ℕ, ◌≡◌, refl, Option, none, some, List, [], ◌∷◌, ◌==◌, if◌then◌else◌, arith,
}

abbrev pub IdMap {ℓ} : Type ℓ → Type ℓ
IdMap V = List (ℕ × V)

module _ {ℓ} {V : Type ℓ} where
  unfoldable pub get : IdMap V → ℕ → Option V
  get [] k = none
  get ((j, v) ∷ m) k = if j == k then some v else get m k

  unfoldable pub put : IdMap V → ℕ → V → IdMap V
  put [] k v = (k, v) ∷ []
  put ((j, w) ∷ m) k v = if j == k then (j, v) ∷ m else (j, w) ∷ put m k v

  unfoldable pub remove : IdMap V → ℕ → IdMap V
  remove [] k = []
  remove ((j, w) ∷ m) k = if j == k then remove m k else (j, w) ∷ remove m k

  pub get-put :
      (m : IdMap V) (k : ℕ) (v : V) (j : ℕ)
      → get (put m k v) j ≡ (if k == j then some v else get m j)
  unfolding get put
  get-put [] k v j = refl
  get-put ((i, w) ∷ m) k v j = ground (arith, get-put m k v j)

  pub get-remove : (m : IdMap V) (k j : ℕ) → get (remove m k) j ≡ (if k == j then none else get m j)
  unfolding get remove
  get-remove [] k j = ground arith
  get-remove ((i, w) ∷ m) k j = ground (arith, get-remove m k j)
