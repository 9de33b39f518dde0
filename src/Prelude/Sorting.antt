-- ===== src/Prelude/Sorting.antt =====
-- `sorted(xs, key=...)`: a stable insertion sort by a strict order.
use Prim.Native.Nat.{suc}
use mathlib.Core.Path.{◌≡◌, refl, ap, sym, subst, ◌∙◌}
use mathlib.Core.Bool.{Bool, true, false}
use mathlib.Core.List.{List, [], ◌∷◌}
use native.Mathlib.Omega.{arith}
use plaik.Prelude.Tests.{if◌then◌else◌, Bool-cases}
use plaik.Prelude.Lists.{All, length}
use mathlib.Core.Logic.{inl, inr}

-- What a sort asks of its order.
pub record StrictOrder {A : Type 0} (lt : A → A → Bool) : Type 0 where
  pub asymm : (a b : A) → lt a b ≡ true → lt b a ≡ false
  pub negative_trans : (a b c : A) → lt a b ≡ false → lt b c ≡ false → lt a c ≡ false

module _ {A : Type 0} (lt : A → A → Bool) where
  unfoldable pub insert_by : A → List A → List A
  insert_by x [] = x ∷ []
  insert_by x (y ∷ ys) = if lt y x then y ∷ insert_by x ys else x ∷ y ∷ ys

  unfoldable pub sort_by : List A → List A
  unfolding insert_by
  sort_by [] = []
  sort_by (x ∷ xs) = insert_by x (sort_by xs)

  -- Nothing in the list comes before `x`.
  abbrev pub LeastIn : A → List A → Type 0
  LeastIn x = All (λ y. lt y x ≡ false)

  -- Each element comes before no later one.
  abbrev pub IsSorted : List A → Type 0
  IsSorted [] = Unit
  IsSorted (x ∷ xs) = LeastIn x xs × IsSorted xs

  module _ (P : A → Type 0) where
    pub All-insert_by : (x : A) (xs : List A) → P x → All P xs → All P (insert_by x xs)
    unfolding insert_by
    All-insert_by x [] p h = (p, tt)
    All-insert_by x (y ∷ ys) p h = elim (Bool-cases (lt y x)) [
      | inl e ↦ rw e (h.0, All-insert_by x ys p h.1)
      | inr e ↦ rw e (p, h)
    ]

    pub All-sort_by : (xs : List A) → All P xs → All P (sort_by xs)
    unfolding sort_by
    All-sort_by [] h = tt
    All-sort_by (x ∷ xs) h = All-insert_by x (sort_by xs) h.0 (All-sort_by xs h.1)

    pub All-of-insert_by : (x : A) (xs : List A) → All P (insert_by x xs) → P x × All P xs
    unfolding insert_by
    All-of-insert_by x [] h = (h.0, tt)
    All-of-insert_by x (y ∷ ys) h = elim (Bool-cases (lt y x)) [
      | inl e ↦
          let g : P y × All P (insert_by x ys) = rw e at h in
          let k = All-of-insert_by x ys g.1 in (k.0, (g.0, k.1))
      | inr e ↦ rw e at h
    ]

    -- What holds of the sorted list holds of the list.
    pub All-of-sort_by : (xs : List A) → All P (sort_by xs) → All P xs
    unfolding sort_by
    All-of-sort_by [] h = tt
    All-of-sort_by (x ∷ xs) h =
        let k = All-of-insert_by x (sort_by xs) h in (k.0, All-of-sort_by xs k.1)

  pub length-insert_by : (x : A) (xs : List A) → length (insert_by x xs) ≡ suc (length xs)
  unfolding insert_by
  length-insert_by x [] = refl
  length-insert_by x (y ∷ ys) = ground (arith, length-insert_by x ys)

  pub length-sort_by : (xs : List A) → length (sort_by xs) ≡ length xs
  unfolding sort_by
  length-sort_by [] = refl
  length-sort_by (x ∷ xs) = length-insert_by x (sort_by xs) ∙ ap suc (length-sort_by xs)

module _ {A : Type 0} (lt : A → A → Bool) (order : StrictOrder lt) where
  LeastIn-below : (x y : A) (xs : List A) → lt y x ≡ false → LeastIn lt y xs → LeastIn lt x xs
  LeastIn-below x y [] h k = tt
  LeastIn-below x y (z ∷ zs) h k = (order.negative_trans z y x k.0 h, LeastIn-below x y zs h k.1)

  insert_by-IsSorted : (x : A) (xs : List A) → IsSorted lt xs → IsSorted lt (insert_by lt x xs)
  unfolding insert_by
  insert_by-IsSorted x [] h = (tt, tt)
  insert_by-IsSorted x (y ∷ ys) h = elim (Bool-cases (lt y x)) [
    | inl e ↦ rw e (
      All-insert_by lt (λ z. lt z y ≡ false) x ys (order.asymm y x e) h.0,
      insert_by-IsSorted x ys h.1,
    )
    | inr e ↦ rw e ((e, LeastIn-below x y ys e h.0), h)
  ]

  pub sort_by-IsSorted : (xs : List A) → IsSorted lt (sort_by lt xs)
  unfolding sort_by
  sort_by-IsSorted [] = tt
  sort_by-IsSorted (x ∷ xs) = insert_by-IsSorted x (sort_by lt xs) (sort_by-IsSorted xs)

  pub irrefl : (x : A) → lt x x ≡ false
  irrefl x = ground (arith, order.asymm x x)

  -- The first element of the sorted list is least in the list.
  pub sort_by-least : (xs : List A) (y : A) (ys : List A) → sort_by lt xs ≡ y ∷ ys → LeastIn lt y xs
  sort_by-least xs y ys e =
      let s : IsSorted lt (y ∷ ys) = subst (IsSorted lt) e (sort_by-IsSorted xs) in
      All-of-sort_by lt (λ z. lt z y ≡ false) xs
        (subst (All (λ z. lt z y ≡ false)) (sym e) (irrefl y, s.0))
