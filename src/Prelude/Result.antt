-- ===== src/Prelude/Result.antt =====
-- Go's `(value, error)` pair: a value, or an error of the component's own type.
use mathlib.Core.Path.{◌≡◌, refl}
use mathlib.Core.Logic.{◌⊎◌, inl, inr}
use native.Mathlib.Omega.{arith}
use mathlib.Core.Bool.{Bool, true, false}

pub data Result {ℓ κ} (E : Type ℓ) (A : Type κ) : Type (ℓ ⊔ κ) where
  ok : A → Result E A
  err : E → Result E A

module _ {ℓ} {E : Type ℓ} where
  infixl 5 ◌>>=◌ ◌>>◌
  abbrev pub ◌>>=◌ {κ ι} : {A : Type κ} {B : Type ι} → Result E A → (A → Result E B) → Result E B
  ok a >>= f = f a
  err e >>= f = err e

  abbrev pub ◌>>◌ {κ} : {B : Type κ} → Result E (Unit {0}) → Result E B → Result E B
  m >> k = m >>= λ _. k

  -- `if !b { return e }`
  abbrev pub guard : Bool → E → Result E (Unit {0})
  guard true e = ok tt
  guard false e = err e

  -- A chain that succeeds has gone through its first part.
  pub bind-ok {κ ι} :
      {A : Type κ} {B : Type ι} (r : Result E A) (f : A → Result E B) {b : B}
      → (r >>= f) ≡ ok b
      → (a : A) × (r ≡ ok a) × (f a ≡ ok b)
  bind-ok (ok a) f h = (a, refl, h)
  bind-ok (err e) f h = absurd (ground arith)

  -- The same for a goal: its parts stand as variables in the proof that goes on.
  pub bind-elim {κ ι π} :
      {A : Type κ} {B : Type ι} (P : Type π) (r : Result E A) (f : A → Result E B) {b : B}
      → (r >>= f) ≡ ok b
      → ((a : A) → r ≡ ok a → f a ≡ ok b → P)
      → P
  bind-elim P (ok a) f h k = k a refl h
  bind-elim P (err e) f h k = absurd (ground arith)

pub Result-cases {ℓ κ} :
    {E : Type ℓ} {A : Type κ} (r : Result E A) → ((a : A) × (r ≡ ok a)) ⊎ ((e : E) × (r ≡ err e))
Result-cases (ok a) = inl (a, refl)
Result-cases (err e) = inr (e, refl)
