-- ===== src/Jobs/Selection.antt =====
-- src/plaik_core/jobs.py: which record `enqueue` finds and which one `claim` selects.
use plaik.Prelude.{
  ℕ, ◌≡◌, ◌≢◌, String, true, false, none, some, List, [], ◌∷◌, arith, All, All-keep, keep, ◌==◌,
  string_eq, eq_iff, Bool-cases, inl, inr,
}
use mathlib.Core.Path.{subst}
use plaik.Prelude.Text.{codes, codes_lt_asymm, codes_lt_negative_trans}
use plaik.Prelude.Dict.{lookup, values, Every, Every-self}
use plaik.Prelude.Sorting.{StrictOrder, All-sort_by}
use plaik.Jobs.Record.{JobRecord}
use plaik.Jobs.Registry.{Records}
use plaik.Jobs.Changes.{find_key, due_lt, older_lt, is_due, due_jobs}
use plaik.Jobs.Validity.{IsValid}
use plaik.Jobs.Consistency.{Entry, IsConsistent}

module _ {P : Type 0} where
  -- No record has a key that is not found.
  pub find_key-none :
      (key : String) (m : Records P) (j : String) (b : JobRecord P)
      → find_key key (values m) ≡ none
      → lookup j m ≡ some b
      → b.idempotency_key ≢ key
  unfolding find_key lookup
  find_key-none key [] j b h q e = cc
  find_key-none key ((k, r) ∷ m) j b h q e =
      ground (arith, eq_iff k j, eq_iff r.idempotency_key key, find_key-none key m j b)

  pub find_key-some :
      (Q : JobRecord P → Type 0) (key : String) (rs : List (JobRecord P)) (r : JobRecord P)
      → All Q rs
      → find_key key rs ≡ some r
      → Q r × (r.idempotency_key ≡ key)
  unfolding find_key
  find_key-some Q key [] r h q = cc
  find_key-some Q key (x ∷ xs) r h q = elim (Bool-cases (x.idempotency_key == key)) [
    | inl t ↦
        let s : some x ≡ some r = rw t at q in
        let u : x ≡ r = ground arith in
        (subst Q u h.0, subst (λ y. y.idempotency_key ≡ key) u ((eq_iff _ key).0 t))
    | inr f ↦ let s : find_key key xs ≡ some r = rw f at q in find_key-some Q key xs r h.1 s
  ]

  due_lt_asymm : (a b : JobRecord P) → due_lt a b ≡ true → due_lt b a ≡ false
  unfolding due_lt
  due_lt_asymm a b h = ground (arith, codes_lt_asymm (codes a.id) (codes b.id))

  due_lt_negative_trans :
      (a b c : JobRecord P) → due_lt a b ≡ false → due_lt b c ≡ false → due_lt a c ≡ false
  unfolding due_lt
  due_lt_negative_trans a b c h k =
      ground (arith, codes_lt_negative_trans (codes a.id) (codes b.id) (codes c.id))

  pub due_lt-StrictOrder : StrictOrder (due_lt {P = P})
  due_lt-StrictOrder = record { asymm = due_lt_asymm; negative_trans = due_lt_negative_trans }

  older_lt_asymm : (a b : JobRecord P) → older_lt a b ≡ true → older_lt b a ≡ false
  unfolding older_lt
  older_lt_asymm a b h = ground (arith, codes_lt_asymm (codes a.id) (codes b.id))

  older_lt_negative_trans :
      (a b c : JobRecord P) → older_lt a b ≡ false → older_lt b c ≡ false → older_lt a c ≡ false
  unfolding older_lt
  older_lt_negative_trans a b c h k =
      ground (arith, codes_lt_negative_trans (codes a.id) (codes b.id) (codes c.id))

  pub older_lt-StrictOrder : StrictOrder (older_lt {P = P})
  older_lt-StrictOrder = record { asymm = older_lt_asymm; negative_trans = older_lt_negative_trans }

  -- A record of the registry, as its own id finds it.
  pub record IsStored (m : Records P) (r : JobRecord P) : Type 0 where
    pub found : lookup r.id m ≡ some r
    pub valid : IsValid r

  Every-IsStored :
      (m : Records P) (n : Records P)
      → Every Entry n
      → Every (λ k r. lookup k m ≡ some r) n
      → All (IsStored m) (values n)
  Every-IsStored m [] h k = tt
  Every-IsStored m ((i, r) ∷ n) h k = (
    record { found = subst (λ j. lookup j m ≡ some r) h.0.0 k.0; valid = h.0.1 },
    Every-IsStored m n h.1 k.1,
  )

  pub values-IsStored :
      (maximum : ℕ) (m : Records P) → IsConsistent maximum m → All (IsStored m) (values m)
  values-IsStored maximum m c = Every-IsStored m m c.entries (Every-self m c.distinct)

  -- The job that `claim` selects is stored, queued and due.
  pub record IsSelected (now : ℕ) (m : Records P) (r : JobRecord P) : Type 0 where
    pub stored : IsStored m r
    pub due : is_due now r ≡ true

  pub IsSelected-of_due :
      (maximum now : ℕ) (m : Records P) (r : JobRecord P) (rest : List (JobRecord P))
      → IsConsistent maximum m
      → due_jobs now m ≡ r ∷ rest
      → IsSelected now m r
  unfolding due_jobs
  IsSelected-of_due maximum now m r rest c e =
      let kept : All (λ x. IsStored m x × (is_due now x ≡ true)) (keep (is_due now) (values m)) =
        All-keep (IsStored m) (is_due now) (values m) (values-IsStored maximum m c) in
      let first : IsStored m r × (is_due now r ≡ true) =
        (subst (All (λ x. IsStored m x × (is_due now x ≡ true))) e (
          All-sort_by due_lt (λ x. IsStored m x × (is_due now x ≡ true))
            (keep (is_due now) (values m)) kept)).0 in
      record { stored = first.0; due = first.1 }
