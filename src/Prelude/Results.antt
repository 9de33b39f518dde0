-- ===== src/Prelude/Results.antt =====
-- Operations that may raise, and operations on an object that may raise.
use mathlib.Core.Path.{◌≡◌, refl}
use mathlib.Core.Logic.{◌⊎◌, inl, inr}
use mathlib.Core.Bool.{Bool, true, false}
use native.Mathlib.Omega.{arith}

-- A value, or the exception that is raised.
pub data Result (E A : Type 0) : Type 0 where
  ok : A → Result E A
  err : E → Result E A

infixl 5 ◌>>=◌ ◌>>◌
abbrev pub ◌>>=◌ : {E A B : Type 0} → Result E A → (A → Result E B) → Result E B
ok a >>= f = f a
err e >>= f = err e

abbrev pub ◌>>◌ : {E B : Type 0} → Result E (Unit {0}) → Result E B → Result E B
m >> k = m >>= λ _. k

-- `if not test: raise e`
abbrev pub guard : {E : Type 0} → Bool → E → Result E (Unit {0})
guard true e = ok tt
guard false e = err e

-- A method of an object with state `S`: what it returns or raises, and the state that it leaves.
abbrev pub Method : Type 0 → Type 0 → Type 0 → Type 0
Method E S A = S → Result E A × S

-- Checks of the arguments, before the object is touched.
abbrev pub checked : {E S A B : Type 0} → Result E A → (A → Method E S B) → Method E S B
checked (ok a) f s = f a s
checked (err e) f s = (err e, s)

-- To split on a result and keep the equation.
pub Result-cases :
    {E A : Type 0} (r : Result E A) → ((a : A) × (r ≡ ok a)) ⊎ ((e : E) × (r ≡ err e))
Result-cases (ok a) = inl (a, refl)
Result-cases (err e) = inr (e, refl)

-- What a chain that returns did first.
pub chain_ok :
    {E A B : Type 0} (m : Result E A) (f : A → Result E B) (b : B)
    → (m >>= f) ≡ ok b
    → (a : A) × (m ≡ ok a) × (f a ≡ ok b)
chain_ok (ok a) f b h = (a, refl, h)
chain_ok (err e) f b h = absurd (ground (arith, h))
