-- ===== src/Prelude/Result.antt =====
-- Code that raises: a value, or the exception.
use mathlib.Core.Logic.{◌⊎◌, inl, inr}
use mathlib.Core.Path.{◌≡◌, refl}
use mathlib.Core.Bool.{Bool, true, false, not}
use football_ai.Prelude.Tests.{if◌then◌else◌}

pub data Result {ℓ κ} (E : Type κ) (A : Type ℓ) : Type (ℓ ⊔ κ) where
  ok : A → Result E A
  err : E → Result E A

infixl 5 ◌>>=◌ ◌>>◌
abbrev pub ◌>>=◌ {ℓ κ μ} :
    {E : Type μ} {A : Type ℓ} {B : Type κ} → Result E A → (A → Result E B) → Result E B
err e >>= f = err e
ok a >>= f = f a

-- `if b: raise e`
abbrev pub raise_if {μ} : {E : Type μ} → Bool → E → Result E (Unit {0})
raise_if false e = ok tt
raise_if true e = err e

abbrev pub ◌>>◌ {ℓ μ} : {E : Type μ} {B : Type ℓ} → Result E (Unit {0}) → Result E B → Result E B
m >> k = m >>= λ _. k

pub raise_if-eq-ok {μ} : {E : Type μ} (b : Bool) (e : E) → raise_if b e ≡ ok tt → b ≡ false
raise_if-eq-ok true e h = cc
raise_if-eq-ok false e h = refl

pub >>=-eq-ok {ℓ κ μ} :
    {E : Type μ} {B : Type ℓ} {C : Type κ} (first : Result E B) (rest : B → Result E C) {c : C}
    → (first >>= rest) ≡ ok c
    → (b : B) × (first ≡ ok b) × (rest b ≡ ok c)
>>=-eq-ok (err _) rest fails = cc
>>=-eq-ok (ok b) rest done = (b, refl, done)

-- `if not b: raise e`, before the rest.
pub guarded-eq-ok {ℓ μ} :
    {E : Type μ} {A : Type ℓ} (b : Bool) (e : E) (m : Result E A) {a : A}
    → (if not b then err e else m) ≡ ok a
    → (b ≡ true) × (m ≡ ok a)
guarded-eq-ok true e m h = (refl, h)
guarded-eq-ok false e m h = cc

-- `if b: raise e`, before the rest.
pub raise_if-bind-eq-ok {ℓ μ} :
    {E : Type μ} {A : Type ℓ} (b : Bool) (e : E) (m : Result E A) {a : A}
    → (raise_if b e >> m) ≡ ok a
    → (b ≡ false) × (m ≡ ok a)
raise_if-bind-eq-ok true e m h = cc
raise_if-bind-eq-ok false e m h = (refl, h)

-- A check before the rest.
pub >>-eq-ok {ℓ μ} :
    {E : Type μ} {A : Type ℓ} (c : Result E (Unit {0})) (m : Result E A) {a : A}
    → (c >> m) ≡ ok a
    → (c ≡ ok tt) × (m ≡ ok a)
>>-eq-ok (ok u) m h = (refl, h)
>>-eq-ok (err e) m h = cc

pub Result-cases {ℓ μ} :
    {E : Type μ} {A : Type ℓ} (r : Result E A) → ((e : E) × (r ≡ err e)) ⊎ ((a : A) × (r ≡ ok a))
Result-cases (ok a) = inr (a, refl)
Result-cases (err e) = inl (e, refl)

-- `if b: raise e`, before the rest, as a conditional.
pub unless-eq-ok {ℓ μ} :
    {E : Type μ} {A : Type ℓ} (b : Bool) (e : E) (m : Result E A) {a : A}
    → (if b then err e else m) ≡ ok a
    → (b ≡ false) × (m ≡ ok a)
unless-eq-ok true e m h = cc
unless-eq-ok false e m h = (refl, h)

pub ok_eq {ℓ μ} : {E : Type μ} {A : Type ℓ} {a b : A} → ◌≡◌ {A = Result E A} (ok a) (ok b) → a ≡ b
ok_eq h = cc

-- A test that is split on, before the rest.
pub branch-eq-ok {ℓ μ} :
    {E : Type μ} {A : Type ℓ} (b : Bool) (m n : Result E A) {a : A}
    → (elim b as (λ _. Result E A) [ true ↦ m | false ↦ n ]) ≡ ok a
    → ((b ≡ true) × (m ≡ ok a)) ⊎ ((b ≡ false) × (n ≡ ok a))
branch-eq-ok true m n h = inl (refl, h)
branch-eq-ok false m n h = inr (refl, h)

pub branch_true {ℓ μ} :
    {E : Type μ} {A : Type ℓ} (b : Bool) (m n : Result E A)
    → b ≡ true
    → (elim b as (λ _. Result E A) [ true ↦ m | false ↦ n ]) ≡ m
branch_true b m n h = rw h refl

pub branch_false {ℓ μ} :
    {E : Type μ} {A : Type ℓ} (b : Bool) (m n : Result E A)
    → b ≡ false
    → (elim b as (λ _. Result E A) [ true ↦ m | false ↦ n ]) ≡ n
branch_false b m n h = rw h refl
