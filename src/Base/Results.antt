-- ===== src/Base/Results.antt =====
-- Go's `(value, error)`: a value, or an error and no value.
use mathlib.Core.Path.{◌≡◌, refl}
use mathlib.Core.Bool.{Bool, true, false}
use mathlib.Core.Logic.{◌⊎◌, inl, inr}
use perpx_load_test.Base.Tests.{if◌then◌else◌}

pub data Result {ℓ κ} (E : Type κ) (A : Type ℓ) : Type (ℓ ⊔ κ) where
  ok : A → Result E A
  err : E → Result E A

infixl 5 ◌>>=◌
abbrev pub ◌>>=◌ {ℓ κ ι} :
    {E : Type κ} {A : Type ℓ} {B : Type ι} → Result E A → (A → Result E B) → Result E B
ok a >>= f = f a
err e >>= f = err e

pub Result-cases {ℓ κ} :
    {E : Type κ} {A : Type ℓ} (r : Result E A) → ((a : A) × (r ≡ ok a)) ⊎ ((e : E) × (r ≡ err e))
Result-cases (ok a) = inl (a, refl)
Result-cases (err e) = inr (e, refl)

pub ok_eq {ℓ κ} : {E : Type κ} {A : Type ℓ} {a b : A} → ◌≡◌ {A = Result E A} (ok a) (ok b) → a ≡ b
ok_eq h = cc

-- A chain that has given a value has given one at its first step.
pub bind_ok {ℓ κ ι} :
    {E : Type κ} {A : Type ℓ} {B : Type ι} (r : Result E A) (f : A → Result E B) (b : B)
    → (r >>= f) ≡ ok b
    → (a : A) × ((r ≡ ok a) × (f a ≡ ok b))
bind_ok (ok a) f b h = (a, (refl, h))
bind_ok (err e) f b h = cc

-- A check that has given a value has not failed.
pub guard_ok {ℓ κ} :
    {E : Type κ} {A : Type ℓ} (test : Bool) (e : E) (r : Result E A) (a : A)
    → (if test then err e else r) ≡ ok a
    → (test ≡ false) × (r ≡ ok a)
guard_ok true e r a h = cc
guard_ok false e r a h = (refl, h)
