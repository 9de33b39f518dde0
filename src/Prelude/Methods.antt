-- ===== src/Prelude/Methods.antt =====
-- Methods in sequence: each step takes the state that the one before it left, and the first that
-- raises ends the chain with the state that it leaves.
use mathlib.Core.Path.{◌≡◌, refl}
use mathlib.Core.Bool.{Bool}
use native.Mathlib.Omega.{arith}
use plaik.Prelude.Results.{Result, ok, err, guard, Method}

infixl 5 ◌>>=◌ ◌>>◌
abbrev next : {E S A B : Type 0} → Result E A → S → (A → Method E S B) → Result E B × S
next (ok a) q f = f a q
next (err e) q f = (err e, q)

abbrev pub ◌>>=◌ : {E S A B : Type 0} → Method E S A → (A → Method E S B) → Method E S B
◌>>=◌ m f q = next (m q).0 (m q).1 f

abbrev pub ◌>>◌ : {E S B : Type 0} → Method E S (Unit {0}) → Method E S B → Method E S B
m >> k = m >>= λ _. k

abbrev pub return : {E S A : Type 0} → A → Method E S A
return a q = (ok a, q)

abbrev pub raise : {E S A : Type 0} → E → Method E S A
raise e q = (err e, q)

-- A check or a computation that does not touch the object.
abbrev pub lift : {E S A : Type 0} → Result E A → Method E S A
lift r q = (r, q)

-- A computation that reads the object.
abbrev pub reading : {E S A : Type 0} → (S → Result E A) → Method E S A
reading f q = (f q, q)

abbrev pub changing : {E S : Type 0} → (S → S) → Method E S (Unit {0})
changing f q = (ok tt, f q)

abbrev pub assert : {E S : Type 0} → Bool → E → Method E S (Unit {0})
assert b e q = (guard b e, q)

-- What a chain that returns did first.
module _ {E S A B : Type 0} (f : A → Method E S B) (b : B) (q' : S) where
  next_ok :
      (x : Result E A) (p : S)
      → ◌≡◌ {A = Result E B × S} (next x p f) (ok b, q')
      → (a : A) × (x ≡ ok a) × ◌≡◌ {A = Result E B × S} (f a p) (ok b, q')
  next_ok (ok a) p h = (a, refl, h)
  next_ok (err e) p h = absurd (ground (arith, h))

  pub chain_ok :
      (m : Method E S A) (q : S)
      → ◌≡◌ {A = Result E B × S} ((m >>= f) q) (ok b, q')
      → (a : A) × ((m q).0 ≡ ok a) × ◌≡◌ {A = Result E B × S} (f a (m q).1) (ok b, q')
  chain_ok m q h = next_ok (m q).0 (m q).1 h
