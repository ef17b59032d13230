-- ===== src/Base/Results.antt =====
-- Go's (value, error) pair: a value where the error is nil, and otherwise the error.
use mathlib.Core.Path.{◌≡◌, refl}
use mathlib.Core.Logic.{◌⊎◌, inl, inr}

pub data Result {ℓ κ} (E : Type κ) (A : Type ℓ) : Type (ℓ ⊔ κ) where
  ok : A → Result E A
  err : E → Result E A

infixl 5 ◌>>=◌
abbrev pub ◌>>=◌ {ℓ κ ℓ'} :
    {E : Type κ} {A : Type ℓ} {B : Type ℓ'} → Result E A → (A → Result E B) → Result E B
err e >>= k = err e
ok x >>= k = k x

-- A bind that succeeds has succeeded at its first step, with a value that the second one takes.
pub >>=-eq-ok {ℓ κ ℓ'} :
    {E : Type κ} {A : Type ℓ} {B : Type ℓ'} (r : Result E A) (k : A → Result E B) {y : B}
    → (r >>= k) ≡ ok y
    → (x : A) × (r ≡ ok x) × (k x ≡ ok y)
>>=-eq-ok (err e) k succeeds = cc
>>=-eq-ok (ok x) k succeeds = (x, refl, succeeds)

pub Result-cases {ℓ κ} :
    {E : Type κ} {A : Type ℓ} (m : Result E A) → ((a : A) × (m ≡ ok a)) ⊎ ((e : E) × (m ≡ err e))
Result-cases (ok a) = inl (a, refl)
Result-cases (err e) = inr (e, refl)
