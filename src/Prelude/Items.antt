-- ===== src/Prelude/Items.antt =====
-- The order in which the registries are written: `sorted(d.items())`.
use mathlib.Core.Path.{◌≡◌, refl, ap, subst, ◌∙◌}
use mathlib.Core.Logic.{inl, inr}
use mathlib.Core.Option.{none, some}
use mathlib.Core.List.{[], ◌∷◌}
use native.Mathlib.Omega.{arith}
use text.Mathlib.TextEquality.{eq_iff}
use Prim.Native.Nat.{suc}
use Prim.Native.String.{String}
use mathlib.Core.Bool.{true, false}
use plaik.Prelude.Tests.{◌==◌, string_eq, if◌then◌else◌, Bool-cases}
use plaik.Prelude.Lists.{length}
use plaik.Prelude.Text.{codes, text_lt, codes_lt_irrefl}
use plaik.Prelude.Dict.{Dict, lookup, Distinct, Every}

pub text_lt_irrefl : (j k : String) → (j == k) ≡ true → text_lt j k ≡ false
text_lt_irrefl j k h =
    subst (λ i. text_lt j i ≡ false) ((eq_iff j k).0 h) (codes_lt_irrefl (codes j))

-- `sorted(d.items())` of a dictionary with text keys: by key, since no key stands twice.
module _ {V : Type 0} where
  insert_item : String → V → Dict String V → Dict String V
  insert_item k v [] = (k, v) ∷ []
  insert_item k v ((j, w) ∷ m) =
      if text_lt j k then (j, w) ∷ insert_item k v m else (k, v) ∷ (j, w) ∷ m

  unfoldable pub sort_items : Dict String V → Dict String V
  unfolding insert_item
  sort_items [] = []
  sort_items ((k, v) ∷ m) = insert_item k v (sort_items m)

  lookup-insert_item :
      (k j : String) (v : V) (m : Dict String V)
      → lookup j (insert_item k v m) ≡ (if k == j then some v else lookup j m)
  unfolding insert_item lookup
  lookup-insert_item k j v [] = refl
  lookup-insert_item k j v ((i, w) ∷ m) =
      ground
        (arith, eq_iff k j, eq_iff i k, eq_iff i j, text_lt_irrefl i k, lookup-insert_item k j v m)

  -- Sorting a dictionary changes no entry.
  pub lookup-sort_items : (k : String) (m : Dict String V) → lookup k (sort_items m) ≡ lookup k m
  unfolding sort_items lookup
  lookup-sort_items k [] = refl
  lookup-sort_items k ((j, w) ∷ m) =
      ground (arith, lookup-insert_item j k w (sort_items m), lookup-sort_items k m)

  length-insert_item :
      (k : String) (v : V) (m : Dict String V) → length (insert_item k v m) ≡ suc (length m)
  unfolding insert_item
  length-insert_item k v [] = refl
  length-insert_item k v ((j, w) ∷ m) = ground (arith, length-insert_item k v m)

  pub length-sort_items : (m : Dict String V) → length (sort_items m) ≡ length m
  unfolding sort_items
  length-sort_items [] = refl
  length-sort_items ((j, w) ∷ m) =
      length-insert_item j w (sort_items m) ∙ ap suc (length-sort_items m)

  Distinct-insert_item :
      (k : String) (v : V) (m : Dict String V)
      → lookup k m ≡ none
      → Distinct m
      → Distinct (insert_item k v m)
  unfolding insert_item lookup
  Distinct-insert_item k v [] f h = (refl, tt)
  Distinct-insert_item k v ((j, w) ∷ m) f h = elim (Bool-cases (text_lt j k)) [
    | inl p ↦ rw p (
      ground (arith, lookup-insert_item k j v m, eq_iff k j, eq_iff j k, h.0, f),
      Distinct-insert_item k v m (ground arith) h.1,
    )
    | inr p ↦ rw p (f, h)
  ]

  pub Distinct-sort_items : (m : Dict String V) → Distinct m → Distinct (sort_items m)
  unfolding sort_items
  Distinct-sort_items [] h = tt
  Distinct-sort_items ((j, w) ∷ m) h =
      Distinct-insert_item j w (sort_items m) (lookup-sort_items j m ∙ h.0)
        (Distinct-sort_items m h.1)

module _ {V : Type 0} (P : String → V → Type 0) where
  Every-insert_item :
      (k : String) (v : V) (m : Dict String V) → P k v → Every P m → Every P (insert_item k v m)
  unfolding insert_item
  Every-insert_item k v [] p h = (p, tt)
  Every-insert_item k v ((j, w) ∷ m) p h = elim (Bool-cases (text_lt j k)) [
    | inl q ↦ rw q (h.0, Every-insert_item k v m p h.1)
    | inr q ↦ rw q (p, h)
  ]

  pub Every-sort_items : (m : Dict String V) → Every P m → Every P (sort_items m)
  unfolding sort_items
  Every-sort_items [] h = tt
  Every-sort_items ((k, v) ∷ m) h =
      Every-insert_item k v (sort_items m) h.0 (Every-sort_items m h.1)
