-- ===== src/Prelude/Results.antt =====
-- Computations that may throw. The texts of the exceptions are left out.
use mathlib.Core.Path.{◌≡◌, refl}

pub data Exception : Type 0 where
  runtime_error overflow_error invalid_argument : Exception

pub data Result {ℓ} (A : Type ℓ) : Type ℓ where
  ok : A → Result A
  err : Exception → Result A

infixl 5 ◌>>=◌
abbrev pub ◌>>=◌ {ℓ κ} : {A : Type ℓ} {B : Type κ} → Result A → (A → Result B) → Result B
ok a >>= f = f a
err e >>= f = err e

pub err-ne-ok {ℓ} : {A : Type ℓ} {e : Exception} {a : A} → err e ≡ ok a → ⊥
err-ne-ok h = cc

pub ok_inj {ℓ} : {A : Type ℓ} {a b : A} → ok a ≡ ok b → a ≡ b
ok_inj h = cc

-- A chain that returns has passed its first part.
pub then_ok {ℓ κ} :
    {A : Type ℓ} {B : Type κ} (x : Result A) (f : A → Result B) {b : B}
    → (x >>= f) ≡ ok b
    → (a : A) × (x ≡ ok a) × (f a ≡ ok b)
then_ok (ok a) f h = (a, refl, h)
then_ok (err e) f h = absurd (err-ne-ok h)
