-- ===== src/Prelude/Action.antt =====
-- Code that reads and writes a state, and raises: what it returns, and the state that it leaves.
use mathlib.Core.Path.{◌≡◌, refl}
use football_ai.Prelude.Result.{Result, ok, err}

abbrev pub Action : (S E A : Type 0) → Type 0
Action S E A = S → Result E A × S

module _ {S E : Type 0} where
  abbrev pub follow : {A B : Type 0} → (A → Action S E B) → Result E A × S → Result E B × S
  follow f (ok a, s) = f a s
  follow f (err e, s) = (err e, s)

  abbrev pub handle : {A : Type 0} → (E → Action S E A) → Result E A × S → Result E A × S
  handle h (ok a, s) = (ok a, s)
  handle h (err e, s) = h e s

  -- `try: ... except ...`
  unfoldable pub rescue : {A : Type 0} → Action S E A → (E → Action S E A) → Action S E A
  rescue m h s = handle h (m s)

  -- A step that does not touch the state.
  unfoldable pub lift : {A : Type 0} → Result E A → Action S E A
  lift r s = (r, s)

  abbrev pub pure : {A : Type 0} → A → Action S E A
  pure a = lift (ok a)

  abbrev pub throw : {A : Type 0} → E → Action S E A
  throw e = lift (err e)

infixl 5 ◌>>=◌ ◌>>◌
unfoldable pub ◌>>=◌ : {S E A B : Type 0} → Action S E A → (A → Action S E B) → Action S E B
(m >>= f) s = follow f (m s)

abbrev pub ◌>>◌ : {S E A B : Type 0} → Action S E A → Action S E B → Action S E B
m >> k = m >>= λ _. k

-- What an action that returned has done.
pub lift->>=-eq-ok :
    {S E A B : Type 0} (r : Result E A) (f : A → Action S E B) (s : S) {b : B} {t : S}
    → (lift r >>= f) s ≡ (ok b, t)
    → (a : A) × (r ≡ ok a) × (f a s ≡ (ok b, t))
unfolding ◌>>=◌ lift
lift->>=-eq-ok (ok a) f s h = (a, refl, h)
lift->>=-eq-ok (err e) f s h = cc

pub >>-pure-eq-ok :
    {S E A B : Type 0} (m : Action S E A) (a : B) (s : S) {b : B} {t : S}
    → (m >> lift (ok a)) s ≡ (ok b, t)
    → (a ≡ b) × ((m s).1 ≡ t)
unfolding ◌>>=◌ lift
>>-pure-eq-ok {S} {E} {A} m a s {b} {t} h = returned (m s) h
  where
    returned : (x : Result E A × S) → follow (λ _ u. (ok a, u)) x ≡ (ok b, t) → (a ≡ b) × (x.1 ≡ t)
    returned (ok _, u) h = (cc, cc)
    returned (err _, u) h = cc

pub >>=-returned :
    {S E A B : Type 0} (m : Action S E A) (f : A → Action S E B) (s : S) {b : B} {t : S}
    → (m >>= f) s ≡ (ok b, t)
    → (a : A) × (u : S) × (m s ≡ (ok a, u)) × (f a u ≡ (ok b, t))
unfolding ◌>>=◌
>>=-returned {S} {E} {A} {B} m f s {b} {t} h = returned (m s) refl h
  where
    returned :
        (x : Result E A × S)
        → m s ≡ x
        → follow f x ≡ (ok b, t)
        → (a : A) × (u : S) × (m s ≡ (ok a, u)) × (f a u ≡ (ok b, t))
    returned (ok a, u) e k = (a, u, e, k)
    returned (err _, u) e k = cc
