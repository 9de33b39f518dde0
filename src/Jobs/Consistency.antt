-- ===== src/Jobs/Consistency.antt =====
-- src/plaik_core/jobs.py: the invariant of the registry's records, and how the ways to change a
-- dictionary keep it.
use plaik.Prelude.{
  ℕ, ◌≤◌, ◌≡◌, sym, ◌∙◌, String, some, arith, length, string_eq, eq_iff, Option-cases, inl, inr,
}
use plaik.Prelude.Dict.{
  lookup, insert, delete, map_values, Distinct, Every, lookup-insert, lookup-delete,
  lookup-map_values, Distinct-insert, Distinct-delete, Distinct-map_values, Every-insert,
  Every-delete, Every-map_values, length-delete-le, length-map_values,
}
use plaik.Prelude.Items.{
  sort_items, lookup-sort_items, length-sort_items, Distinct-sort_items, Every-sort_items,
}
use plaik.Jobs.Record.{JobRecord}
use plaik.Jobs.Registry.{Records}
use plaik.Jobs.Validity.{IsValid}

module _ {P : Type 0} where
  -- A record stands under its own id and is valid.
  abbrev pub Entry : String → JobRecord P → Type 0
  Entry k r = (k ≡ r.id) × IsValid r

  -- No two ids have one idempotency key.
  abbrev pub KeysDiffer : Records P → Type 0
  KeysDiffer m =
      (i j : String) (a b : JobRecord P)
      → lookup i m ≡ some a
      → lookup j m ≡ some b
      → a.idempotency_key ≡ b.idempotency_key
      → i ≡ j

  pub record IsConsistent (maximum : ℕ) (m : Records P) : Type 0 where
    pub distinct : Distinct m
    pub entries : Every Entry m
    pub keys_differ : KeysDiffer m
    pub bounded : length m ≤ maximum

  -- No other record than the one under `k` has the idempotency key of `r`.
  abbrev pub KeyIsFree : String → JobRecord P → Records P → Type 0
  KeyIsFree k r m =
      (j : String) (b : JobRecord P)
      → lookup j m ≡ some b
      → b.idempotency_key ≡ r.idempotency_key
      → j ≡ k

  KeysDiffer-insert :
      (k : String) (r : JobRecord P) (m : Records P)
      → KeyIsFree k r m
      → KeysDiffer m
      → KeysDiffer (insert k r m)
  KeysDiffer-insert k r m free differ i j a b p q e = ground (
    arith,
    lookup-insert k i r m,
    lookup-insert k j r m,
    eq_iff k i,
    eq_iff k j,
    free i a,
    free j b,
    differ i j a b,
  )

  KeysDiffer-delete : (k : String) (m : Records P) → KeysDiffer m → KeysDiffer (delete k m)
  KeysDiffer-delete k m differ i j a b p q e =
      ground (arith, lookup-delete k i m, lookup-delete k j m, differ i j a b)

  KeysDiffer-map_values :
      (f : JobRecord P → JobRecord P)
      → ((r : JobRecord P) → (f r).idempotency_key ≡ r.idempotency_key)
      → (m : Records P) → KeysDiffer m
      → KeysDiffer (map_values f m)
  KeysDiffer-map_values f same m differ i j a b p q e = elim (Option-cases (lookup i m)) [
    | inl u ↦ cc (lookup-map_values f i m, u)
    | inr (x, u) ↦ elim (Option-cases (lookup j m)) [
      | inl v ↦ cc (lookup-map_values f j m, v)
      | inr (y, v) ↦
          let s : some (f x) ≡ some a = sym (lookup-map_values f i m ∙ rw u) ∙ p in
          let t : some (f y) ≡ some b = sym (lookup-map_values f j m ∙ rw v) ∙ q in
          differ i j x y u v (ground (arith, same x, same y))
    ]
  ]

  pub insert-IsConsistent :
      (maximum : ℕ) (k : String) (r : JobRecord P) (m : Records P)
      → Entry k r
      → KeyIsFree k r m
      → length (insert k r m) ≤ maximum
      → IsConsistent maximum m
      → IsConsistent maximum (insert k r m)
  insert-IsConsistent maximum k r m entry free fits c = record {
    distinct = Distinct-insert k r m c.distinct;
    entries = Every-insert Entry k r m entry c.entries;
    keys_differ = KeysDiffer-insert k r m free c.keys_differ;
    bounded = fits;
  }

  pub delete-IsConsistent :
      (maximum : ℕ) (k : String) (m : Records P)
      → IsConsistent maximum m
      → IsConsistent maximum (delete k m)
  delete-IsConsistent maximum k m c = record {
    distinct = Distinct-delete k m c.distinct;
    entries = Every-delete Entry k m c.entries;
    keys_differ = KeysDiffer-delete k m c.keys_differ;
    bounded = omega (arith, length-delete-le k m, c.bounded);
  }

  -- A change of each record that keeps its id, its idempotency key and its validity.
  pub record Keeps (f : JobRecord P → JobRecord P) : Type 0 where
    pub id : (r : JobRecord P) → (f r).id ≡ r.id
    pub key : (r : JobRecord P) → (f r).idempotency_key ≡ r.idempotency_key
    pub valid : (r : JobRecord P) → IsValid r → IsValid (f r)

  pub map_values-IsConsistent :
      (maximum : ℕ) (f : JobRecord P → JobRecord P) (m : Records P)
      → Keeps f
      → IsConsistent maximum m
      → IsConsistent maximum (map_values f m)
  map_values-IsConsistent maximum f m keeps c = record {
    distinct = Distinct-map_values f m c.distinct;
    entries =
        Every-map_values Entry f (λ k r h. (h.0 ∙ sym (keeps.id r), keeps.valid r h.1)) m c.entries;
    keys_differ = KeysDiffer-map_values f keeps.key m c.keys_differ;
    bounded = omega (arith, length-map_values f m, c.bounded);
  }

  pub sort_items-IsConsistent :
      (maximum : ℕ) (m : Records P) → IsConsistent maximum m → IsConsistent maximum (sort_items m)
  sort_items-IsConsistent maximum m c = record {
    distinct = Distinct-sort_items m c.distinct;
    entries = Every-sort_items Entry m c.entries;
    keys_differ = λ i j a b p q e.
        c.keys_differ i j a b (sym (lookup-sort_items i m) ∙ p) (sym (lookup-sort_items j m) ∙ q) e;
    bounded = omega (arith, length-sort_items m, c.bounded);
  }
