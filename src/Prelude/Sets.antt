-- ===== src/Prelude/Sets.antt =====
-- Python's `set` of texts, as a list, and the loops that stop at the first error.
use Prim.Native.String.{String}
use mathlib.Core.Path.{◌≡◌, refl}
use mathlib.Core.Logic.{inl, inr, ◌≢◌}
use mathlib.Core.Bool.{Bool, true, false, ◌||◌}
use mathlib.Core.List.{List, [], ◌∷◌, ◌++◌}
use native.Mathlib.Omega.{arith}
use text.Mathlib.TextEquality.{eq_iff}
use plaik.Prelude.Tests.{◌==◌, string_eq, if◌then◌else◌, Bool-cases}
use plaik.Prelude.Lists.{All}
use plaik.Prelude.Results.{Result, ok, err, ◌>>◌, Result-cases}

-- `x in s`
unfoldable pub has : String → List String → Bool
has x [] = false
has x (y ∷ ys) = y == x || has x ys

-- `s.remove(x)`
unfoldable pub discard : String → List String → List String
discard x [] = []
discard x (y ∷ ys) = if y == x then discard x ys else y ∷ discard x ys

-- No text stands twice.
abbrev pub Unique : List String → Type 0
Unique [] = Unit
Unique (x ∷ xs) = (has x xs ≡ false) × Unique xs

pub discard-absent : (x : String) (ys : List String) → has x ys ≡ false → discard x ys ≡ ys
unfolding has discard
discard-absent x [] h = refl
discard-absent x (y ∷ ys) h = ground (arith, discard-absent x ys)

pub discard_self : (x : String) (ys : List String) → has x ys ≡ false → discard x (x ∷ ys) ≡ ys
unfolding discard
discard_self x ys h = ground (arith, eq_iff x x, discard-absent x ys h)

pub has-append : (x : String) (ys zs : List String) → has x (ys ++ zs) ≡ (has x ys || has x zs)
unfolding has
has-append x [] zs = refl
has-append x (y ∷ ys) zs = ground (arith, has-append x ys zs)

pub Unique-snoc :
    (xs : List String) (x : String) → Unique xs → has x xs ≡ false → Unique (xs ++ (x ∷ []))
unfolding has
Unique-snoc [] x u h = (refl, tt)
Unique-snoc (y ∷ ys) x u h = (
  ground (arith, eq_iff x y, eq_iff y x, has-append y ys (x ∷ []), u.0, h),
  Unique-snoc ys x u.1 (ground (arith, h)),
)

pub All-has :
    (P : String → Type 0) (x : String) (xs : List String) → All P xs → has x xs ≡ true → P x
unfolding has
All-has P x [] a h = absurd (ground arith)
All-has P x (y ∷ ys) a h = elim (Bool-cases (y == x)) [
  | inl p ↦ let e : y ≡ x = (eq_iff y x).0 p in rw (← e) a.0
  | inr p ↦ All-has P x ys a.1 (ground (arith, p, h))
]

pub All-of-has :
    (P : String → Type 0) (xs : List String) → ((x : String) → has x xs ≡ true → P x) → All P xs
unfolding has
All-of-has P [] w = tt
All-of-has P (y ∷ ys) w =
    (w y (ground (arith, eq_iff y y)), All-of-has P ys (λ x h. w x (ground (arith, h))))

-- A loop whose body may raise.
module _ {E A : Type 0} where
  unfoldable pub each : (A → Result E (Unit {0})) → List A → Result E (Unit {0})
  each f [] = ok tt
  each f (x ∷ xs) = do f x; each f xs

  pub All-each :
      (f : A → Result E (Unit {0})) (xs : List A) → each f xs ≡ ok tt → All (λ x. f x ≡ ok tt) xs
  unfolding each
  All-each f [] h = tt
  All-each f (x ∷ xs) h = (ground arith, All-each f xs (ground arith))

  pub each-ok :
      (f : A → Result E (Unit {0})) (xs : List A) → All (λ x. f x ≡ ok tt) xs → each f xs ≡ ok tt
  unfolding each
  each-ok f [] h = refl
  each-ok f (x ∷ xs) h = rw h.0 (each-ok f xs h.1)

  -- An error that the body never raises is not raised by the loop.
  pub each-ne :
      (f : A → Result E (Unit {0})) (x : E)
      → ((a : A) → f a ≢ err x)
      → (xs : List A) → each f xs ≢ err x
  unfolding each
  each-ne f x w [] h = ground arith
  each-ne f x w (a ∷ rest) h = elim (Result-cases (f a)) [
    | inl (u, e) ↦ each-ne f x w rest (ground (arith, e, h))
    | inr (y, e) ↦ ground (arith, e, h, w a)
  ]
