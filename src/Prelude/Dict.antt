-- ===== src/Prelude/Dict.antt =====
-- Python's `dict`: an association list in insertion order, over keys with an equality test.
-- Assigning to a key that is there keeps its place; a new key goes to the end.
use Prim.Native.Nat.{suc, ◌≤◌}
use mathlib.Core.Path.{◌≡◌, refl, sym, ap, subst, subst₂}
use mathlib.Core.Logic.{inl, inr}
use mathlib.Core.Bool.{true}
use mathlib.Core.Option.{Option, none, some}
use mathlib.Core.List.{List, [], ◌∷◌}
use native.Mathlib.Omega.{arith}
use plaik.Prelude.Tests.{Eq, ◌==◌, if◌then◌else◌, Bool-cases}
use plaik.Prelude.Lists.{length, All}

abbrev pub Dict : Type 0 → Type 0 → Type 0
Dict K V = List (K × V)

pub beq_refl : {K : Type 0} ⦃e : Eq K⦄ (k : K) → (k == k) ≡ true
beq_refl ⦃e⦄ k = (e.beq_iff k k).1 refl

module _ {K V : Type 0} ⦃e : Eq K⦄ where
  -- d.get(k)
  unfoldable pub lookup : K → Dict K V → Option V
  lookup k [] = none
  lookup k ((i, u) ∷ rest) = if i == k then some u else lookup k rest

  -- d[k] = v
  unfoldable pub insert : K → V → Dict K V → Dict K V
  insert k v [] = (k, v) ∷ []
  insert k v ((i, u) ∷ rest) = if i == k then (i, v) ∷ rest else (i, u) ∷ insert k v rest

  -- d.pop(k, None), del d[k]
  unfoldable pub delete : K → Dict K V → Dict K V
  delete k [] = []
  delete k ((i, u) ∷ rest) = if i == k then delete k rest else (i, u) ∷ delete k rest

  -- Each key stands once.
  abbrev pub Distinct : Dict K V → Type 0
  Distinct [] = Unit
  Distinct ((k, v) ∷ m) = (lookup k m ≡ none) × Distinct m

  pub lookup-insert :
      (k j : K) (v : V) (d : Dict K V)
      → lookup j (insert k v d) ≡ (if k == j then some v else lookup j d)
  unfolding insert lookup
  lookup-insert k j v [] = refl
  lookup-insert k j v ((i, u) ∷ rest) =
      ground
        (arith, beq_refl k, e.beq_iff i k, e.beq_iff i j, e.beq_iff k j, lookup-insert k j v rest)

  pub lookup-insert_self : (k : K) (v : V) (m : Dict K V) → lookup k (insert k v m) ≡ some v
  lookup-insert_self k v m = simp (lookup-insert, beq_refl)

  pub lookup-delete :
      (k j : K) (m : Dict K V) → lookup j (delete k m) ≡ (if k == j then none else lookup j m)
  unfolding lookup delete
  lookup-delete k j [] = ground arith
  lookup-delete k j ((i, w) ∷ m) =
      ground (arith, e.beq_iff k j, e.beq_iff i k, e.beq_iff i j, lookup-delete k j m)

  pub Distinct-insert : (k : K) (v : V) (m : Dict K V) → Distinct m → Distinct (insert k v m)
  unfolding insert lookup
  Distinct-insert k v [] h = (refl, tt)
  Distinct-insert k v ((j, w) ∷ m) h = elim (Bool-cases (j == k)) [
    | inl p ↦ rw p h
    | inr p ↦ rw p (
      ground (arith, lookup-insert k j v m, e.beq_iff k j, e.beq_iff j k, h.0),
      Distinct-insert k v m h.1,
    )
  ]

  pub Distinct-delete : (k : K) (m : Dict K V) → Distinct m → Distinct (delete k m)
  unfolding delete lookup
  Distinct-delete k [] h = tt
  Distinct-delete k ((j, w) ∷ m) h = elim (Bool-cases (j == k)) [
    | inl p ↦ rw p (Distinct-delete k m h.1)
    | inr p ↦ rw p (ground (arith, lookup-delete k j m, h.0), Distinct-delete k m h.1)
  ]

  pub length-delete-le : (k : K) (m : Dict K V) → length (delete k m) ≤ length m
  unfolding delete
  length-delete-le k [] = omega arith
  length-delete-le k ((j, w) ∷ m) = ground (arith, length-delete-le k m)

  length-delete-none : (k : K) (m : Dict K V) → lookup k m ≡ none → length (delete k m) ≡ length m
  unfolding delete lookup
  length-delete-none k [] h = refl
  length-delete-none k ((j, w) ∷ m) h = ground (arith, length-delete-none k m)

  pub length-delete-ge : (k : K) (m : Dict K V) → Distinct m → length m ≤ suc (length (delete k m))
  unfolding delete
  length-delete-ge k [] d = omega arith
  length-delete-ge k ((j, w) ∷ m) d = elim (Bool-cases (j == k)) [
    | inl p ↦
        let same : j ≡ k = (e.beq_iff j k).0 p in
        let gone : lookup k m ≡ none = subst (λ i. lookup i m ≡ none) same d.0 in
        rw p (omega (arith, length-delete-none k m gone))
    | inr p ↦ rw p (omega (arith, length-delete-ge k m d.1))
  ]

  pub length-insert :
      (k : K) (v : V) (m : Dict K V)
      → length (insert k v m) ≡ elim (lookup k m) [ none ↦ suc (length m) | some _ ↦ length m ]
  unfolding insert lookup
  length-insert k v [] = refl
  length-insert k v ((j, w) ∷ m) = ground (arith, length-insert k v m)

-- Every entry satisfies `P`.
abbrev pub Every {ℓ} : {K V : Type 0} → (K → V → Type ℓ) → Dict K V → Type ℓ
Every P [] = Unit
Every P ((k, v) ∷ m) = P k v × Every P m

module _ {K V : Type 0} ⦃e : Eq K⦄ (P : K → V → Type 0) where
  pub Every-insert : (k : K) (v : V) (m : Dict K V) → P k v → Every P m → Every P (insert k v m)
  unfolding insert
  Every-insert k v [] p h = (p, tt)
  Every-insert k v ((j, w) ∷ m) p h = elim (Bool-cases (j == k)) [
    | inl q ↦ rw q (subst (λ i. P i v) (sym ((e.beq_iff j k).0 q)) p, h.1)
    | inr q ↦ rw q (h.0, Every-insert k v m p h.1)
  ]

  pub Every-delete : (k : K) (m : Dict K V) → Every P m → Every P (delete k m)
  unfolding delete
  Every-delete k [] h = tt
  Every-delete k ((j, w) ∷ m) h = elim (Bool-cases (j == k)) [
    | inl q ↦ rw q (Every-delete k m h.1)
    | inr q ↦ rw q (h.0, Every-delete k m h.1)
  ]

  pub Every-lookup : (k : K) (m : Dict K V) {v : V} → Every P m → lookup k m ≡ some v → P k v
  unfolding lookup
  Every-lookup k [] h q = cc
  Every-lookup k ((j, w) ∷ m) {v} h q = elim (Bool-cases (j == k)) [
    | inl p ↦
        let r : some w ≡ some v = rw p at q in
        let s : w ≡ v = ground arith in subst₂ P ((e.beq_iff j k).0 p) s h.0
    | inr p ↦ let r : lookup k m ≡ some v = rw p at q in Every-lookup k m h.1 r
  ]

module _ {K V : Type 0} (P Q : K → V → Type 0) (weaken : (k : K) (v : V) → P k v → Q k v) where
  pub Every-weaken : (m : Dict K V) → Every P m → Every Q m
  Every-weaken [] h = tt
  Every-weaken ((k, v) ∷ m) h = (weaken k v h.0, Every-weaken m h.1)

module _ {K V : Type 0} ⦃e : Eq K⦄ where
  -- Each entry is the one that its key finds.
  pub Every-self : (m : Dict K V) → Distinct m → Every (λ k v. lookup k m ≡ some v) m
  unfolding lookup
  Every-self [] h = tt
  Every-self ((j, w) ∷ m) h = (
    rw (beq_refl j),
    Every-weaken (λ k v. lookup k m ≡ some v) (λ k v. lookup k ((j, w) ∷ m) ≡ some v)
        (λ k v q. ground (arith, e.beq_iff j k, h.0, q)) m (Every-self m h.1),
  )

module _ {K V : Type 0} where
  -- d.values()
  abbrev pub values : Dict K V → List V
  values [] = []
  values ((k, v) ∷ m) = v ∷ values m

  -- A loop that replaces each value.
  unfoldable pub map_values : (V → V) → Dict K V → Dict K V
  map_values f [] = []
  map_values f ((k, v) ∷ m) = (k, f v) ∷ map_values f m

  pub length-map_values : (f : V → V) (m : Dict K V) → length (map_values f m) ≡ length m
  unfolding map_values
  length-map_values f [] = refl
  length-map_values f ((k, v) ∷ m) = ap suc (length-map_values f m)

module _ {K V : Type 0} ⦃e : Eq K⦄ where
  pub lookup-map_values :
      (f : V → V) (k : K) (m : Dict K V)
      → lookup k (map_values f m) ≡ elim (lookup k m) [ none ↦ none | some v ↦ some (f v) ]
  unfolding lookup map_values
  lookup-map_values f k [] = refl
  lookup-map_values f k ((j, w) ∷ m) = ground (arith, lookup-map_values f k m)

  pub Distinct-map_values : (f : V → V) (m : Dict K V) → Distinct m → Distinct (map_values f m)
  unfolding map_values
  Distinct-map_values f [] h = tt
  Distinct-map_values f ((j, w) ∷ m) h =
      (ground (arith, lookup-map_values f j m, h.0), Distinct-map_values f m h.1)

module _ {K V : Type 0} (P : K → V → Type 0) where
  pub Every-map_values :
      (f : V → V)
      → ((k : K) (v : V) → P k v → P k (f v))
      → (m : Dict K V) → Every P m
      → Every P (map_values f m)
  unfolding map_values
  Every-map_values f step [] h = tt
  Every-map_values f step ((k, v) ∷ m) h = (step k v h.0, Every-map_values f step m h.1)

module _ {K V : Type 0} (P : V → Type 0) where
  pub All-values : (m : Dict K V) → Every (λ k v. P v) m → All P (values m)
  All-values [] h = tt
  All-values ((k, v) ∷ m) h = (h.0, All-values m h.1)

module _ {K V : Type 0} ⦃e : Eq K⦄ (P : V → Type 0) where
  pub All-lookup : (k : K) (m : Dict K V) (v : V) → All P (values m) → lookup k m ≡ some v → P v
  unfolding lookup
  All-lookup k [] v h q = absurd (ground arith)
  All-lookup k ((j, w) ∷ m) v h q = elim (Bool-cases (j == k)) [
    | inl p ↦ subst P (ground (arith, p, q)) h.0
    | inr p ↦ All-lookup k m v h.1 (ground (arith, p, q))
  ]
