-- ===== src/Prelude/Lists.antt =====
-- Lists measured by native numbers, and predicates on lists by recursion.
use Prim.Native.Nat.{ℕ, zero, suc, ◌+◌, ◌≤◌}
use mathlib.Core.Path.{◌≡◌, refl}
use mathlib.Core.Bool.{Bool, true}
use mathlib.Core.List.{List, [], ◌∷◌, ◌++◌}
use native.Mathlib.Omega.{arith}
use mathlib.Core.Logic.{inl, inr}
use plaik.Prelude.Tests.{if◌then◌else◌, Bool-cases}

module _ {ℓ} {A : Type ℓ} where
  abbrev pub length : List A → ℕ
  length [] = 0
  length (x ∷ xs) = suc (length xs)

  abbrev pub take : ℕ → List A → List A
  take zero xs = []
  take (suc n) [] = []
  take (suc n) (x ∷ xs) = x ∷ take n xs

  abbrev pub drop : ℕ → List A → List A
  drop zero xs = xs
  drop (suc n) [] = []
  drop (suc n) (x ∷ xs) = drop n xs

  pub take-append-drop : (n : ℕ) (xs : List A) → take n xs ++ drop n xs ≡ xs
  take-append-drop zero xs = refl
  take-append-drop (suc n) [] = refl
  take-append-drop (suc n) (x ∷ xs) = rw (take-append-drop n xs)

  -- The comprehension `[x for x in xs if p(x)]`.
  unfoldable pub keep : (A → Bool) → List A → List A
  keep p [] = []
  keep p (x ∷ xs) = if p x then x ∷ keep p xs else keep p xs

  pub length-keep-le : (p : A → Bool) (xs : List A) → length (keep p xs) ≤ length xs
  unfolding keep
  length-keep-le p [] = omega arith
  length-keep-le p (x ∷ xs) = ground (arith, length-keep-le p xs)

  pub keep-append : (p : A → Bool) (xs ys : List A) → keep p (xs ++ ys) ≡ keep p xs ++ keep p ys
  unfolding keep
  keep-append p [] ys = refl
  keep-append p (x ∷ xs) ys = ground (arith, keep-append p xs ys)

  pub length-append : (xs ys : List A) → length (xs ++ ys) ≡ length xs + length ys
  length-append [] ys = omega arith
  length-append (x ∷ xs) ys = omega (arith, length-append xs ys)

  pub length-take-le : (n : ℕ) (xs : List A) → length (take n xs) ≤ n
  length-take-le zero xs = omega arith
  length-take-le (suc n) [] = omega arith
  length-take-le (suc n) (x ∷ xs) = omega (arith, length-take-le n xs)

-- Every element satisfies `P`.
abbrev pub All {ℓ κ} : {A : Type ℓ} → (A → Type κ) → List A → Type κ
All P [] = Unit
All P (x ∷ xs) = P x × All P xs

module _ {ℓ κ} {A : Type ℓ} (P : A → Type κ) where
  pub All-append : (xs ys : List A) → All P xs → All P ys → All P (xs ++ ys)
  All-append [] ys hx hy = hy
  All-append (x ∷ xs) ys hx hy = (hx.0, All-append xs ys hx.1 hy)

  pub All-take : (n : ℕ) (xs : List A) → All P xs → All P (take n xs)
  All-take zero xs h = tt
  All-take (suc n) [] h = tt
  All-take (suc n) (x ∷ xs) h = (h.0, All-take n xs h.1)

module _ {A : Type 0} (P : A → Type 0) (p : A → Bool) where
  pub All-keep : (xs : List A) → All P xs → All (λ x. P x × (p x ≡ true)) (keep p xs)
  unfolding keep
  All-keep [] h = tt
  All-keep (x ∷ xs) h = elim (Bool-cases (p x)) [
    | inl e ↦ rw e ((h.0, e), All-keep xs h.1)
    | inr e ↦ rw e (All-keep xs h.1)
  ]

  -- What holds of the elements kept holds of each that passes the test.
  pub All-of-keep : (xs : List A) → All P (keep p xs) → All (λ x. p x ≡ true → P x) xs
  unfolding keep
  All-of-keep [] h = tt
  All-of-keep (x ∷ xs) h = elim (Bool-cases (p x)) [
    | inl e ↦ let g : P x × All P (keep p xs) = rw e at h in (λ _. g.0, All-of-keep xs g.1)
    | inr e ↦ let g : All P (keep p xs) = rw e at h in (λ t. cc, All-of-keep xs g)
  ]

module _ {A : Type 0} (P Q : A → Type 0) (weaken : (x : A) → P x → Q x) where
  pub All-weaken : (xs : List A) → All P xs → All Q xs
  All-weaken [] h = tt
  All-weaken (x ∷ xs) h = (weaken x h.0, All-weaken xs h.1)

module _ {A : Type 0} (P Q R : A → Type 0) (both : (x : A) → P x → Q x → R x) where
  pub All-zip : (xs : List A) → All P xs → All Q xs → All R xs
  All-zip [] h k = tt
  All-zip (x ∷ xs) h k = (both x h.0 k.0, All-zip xs h.1 k.1)
