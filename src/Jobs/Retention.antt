-- ===== src/Jobs/Retention.antt =====
-- src/plaik_core/jobs.py: what `cancel_owner` fails, what `purge_terminal` removes, and what both
-- leave alone.
use plaik.Prelude.{
  ℕ, ◌+◌, ◌≤◌, ◌<◌, refl, ◌&&◌, ◌≡◌, ◌⊎◌, sym, ◌∙◌, ap, String, Bool, true, false, Option, none,
  some, List, [], ◌∷◌, arith, All, All-keep, All-take, All-weaken, keep, take, length,
  length-take-le, eq_iff, string_eq, inl, inr, Bool-cases, ◌==◌, nat_beq,
}
use plaik.Prelude.Text.{starts_with}
use plaik.Prelude.Results.{ok}
use plaik.Prelude.Dict.{
  Distinct, Distinct-delete, length-delete-ge, lookup, delete, values, lookup-delete,
}
use plaik.Prelude.Sorting.{sort_by, All-sort_by}
use plaik.Prelude.Items.{lookup-sort_items, length-sort_items}
use plaik.Jobs.Record.{JobRecord, JobStatus, queued, running, succeeded, failed, is_open, cancelled}
use plaik.Jobs.Registry.{Records, DurableJobQueue}
use plaik.Jobs.Changes.{
  is_cancellable, cancel_one, is_purgeable, older_lt, delete_all, purge_change,
}
use plaik.Jobs.Consistency.{IsConsistent}
use plaik.Jobs.Selection.{IsStored, values-IsStored}
use plaik.Jobs.Returned.{written}

abbrev pub is_unfinished : JobStatus → Bool
is_unfinished queued = true
is_unfinished running = true
is_unfinished succeeded = false
is_unfinished failed = false

is_unfinished-is_open : (s : JobStatus) → is_open s ≡ is_unfinished s
is_unfinished-is_open queued = refl
is_unfinished-is_open running = refl
is_unfinished-is_open succeeded = refl
is_unfinished-is_open failed = refl

module _ {P : Type 0} where
  stored_same :
      (m : Records P) (x r : JobRecord P) (j : String)
      → lookup x.id m ≡ some x
      → x.id ≡ j
      → lookup j m ≡ some r
      → x ≡ r
  stored_same m x r j h p e =
      let k : some x ≡ some r = sym h ∙ ap (λ i. lookup i m) p ∙ e in ground arith

  cancel_one_closes :
      (prefix : String) (now : ℕ) (r : JobRecord P)
      → is_cancellable prefix (cancel_one prefix now r) ≡ false
  unfolding cancel_one is_cancellable cancelled
  cancel_one_closes prefix now r = ground arith

  -- A queued or running job whose type begins with the prefix.
  abbrev pub to_cancel : String → JobRecord P → Bool
  to_cancel prefix r = is_unfinished r.status && starts_with prefix r.type

  delete_all-none :
      (rs : List (JobRecord P)) (m : Records P) (j : String)
      → lookup j m ≡ none
      → lookup j (delete_all rs m) ≡ none
  unfolding delete_all
  delete_all-none [] m j e = e
  delete_all-none (x ∷ rs) m j e =
      delete_all-none rs (delete x.id m) j (ground (arith, lookup-delete x.id j m))

  delete_all_lem :
      (Q : Type 0) (rs : List (JobRecord P)) (m : Records P) (j : String) (r : JobRecord P)
      → All (λ x. x.id ≡ j → Q) rs
      → lookup j m ≡ some r
      → (lookup j (delete_all rs m) ≡ some r) ⊎ ((lookup j (delete_all rs m) ≡ none) × Q)
  unfolding delete_all
  delete_all_lem Q [] m j r h e = inl e
  delete_all_lem Q (x ∷ rs) m j r h e = elim (Bool-cases (x.id == j)) [
    | inl t ↦
        let gone : lookup j (delete x.id m) ≡ none = ground (arith, lookup-delete x.id j m) in
        inr (delete_all-none rs (delete x.id m) j gone, h.0 ((eq_iff x.id j).0 t))
    | inr t ↦ delete_all_lem Q rs (delete x.id m) j r h.1 (ground (arith, lookup-delete x.id j m))
  ]

  purge_change_keeps :
      (cutoff limit : ℕ) (q : DurableJobQueue P) (m : Records P) (n : ℕ) (w : Option (Records P))
      (j : String) (r : JobRecord P)
      → IsConsistent q.maximum_records m
      → purge_change cutoff limit q m ≡ ok (n, w)
      → lookup j m ≡ some r
      → (n ≤ limit)
        × ((lookup j (written m w) ≡ some r)
            ⊎ ((lookup j (written m w) ≡ none)
                × ((is_open r.status ≡ false) × (r.updated_at < cutoff))))
  unfolding purge_change is_purgeable
  purge_change_keeps cutoff limit q m n w j r c h e =
      let candidates = keep (is_purgeable cutoff) (values m) in
      let batch = take limit (sort_by older_lt candidates) in
      let Q : Type 0 = (is_open r.status ≡ false) × (r.updated_at < cutoff) in
      let Old = λ (x : JobRecord P). IsStored m x × (is_purgeable cutoff x ≡ true) in
      let old : All Old batch = All-take Old limit (sort_by older_lt candidates) (
        All-sort_by older_lt Old candidates (
          All-keep (IsStored m) (is_purgeable cutoff) (values m)
            (values-IsStored q.maximum_records m c))) in
      let known : All (λ x. x.id ≡ j → Q) batch =
        All-weaken Old (λ x. x.id ≡ j → Q)
          (λ x o p.
            let same : x ≡ r = stored_same m x r j o.0.found p e in (ground arith, ground arith))
          batch old in
      let few = length-take-le limit (sort_by older_lt candidates) in
      elim (Bool-cases (nat_beq (length batch) 0)) [
        | inl t ↦ (ground arith, inl (let u : w ≡ none = ground arith in rw u e))
        | inr t ↦
            let u : w ≡ some (delete_all batch m) = ground arith in
            (
              ground arith,
              rw (u, lookup-sort_items j (delete_all batch m))
                  (delete_all_lem Q batch m j r known e),
            )
      ]

  length-delete_all :
      (rs : List (JobRecord P)) (m : Records P)
      → Distinct m
      → length m ≤ length (delete_all rs m) + length rs
  unfolding delete_all
  length-delete_all [] m d = omega arith
  length-delete_all (r ∷ rs) m d = omega (
    arith,
    length-delete-ge r.id m d,
    length-delete_all rs (delete r.id m) (Distinct-delete r.id m d),
  )

  purge_change-length :
      (cutoff limit : ℕ) (q : DurableJobQueue P) (m : Records P) (n : ℕ) (w : Option (Records P))
      → Distinct m
      → purge_change cutoff limit q m ≡ ok (n, w)
      → length m ≤ length (written m w) + n
  unfolding purge_change
  purge_change-length cutoff limit q m n w d h =
      let batch = take limit (sort_by older_lt (keep (is_purgeable cutoff) (values m))) in
      let count : length batch ≡ n = ground arith in
      elim (Bool-cases (nat_beq (length batch) 0)) [
        | inl t ↦ let u : w ≡ none = ground arith in rw u (omega arith)
        | inr t ↦
            let u : w ≡ some (delete_all batch m) = ground arith in
            rw u (
              omega
                (arith, count, length-sort_items (delete_all batch m), length-delete_all batch m d))
      ]

  -- From a consistent registry, `purge_terminal` removes at most the number of jobs that it returns,
  -- and this is at most `limit`. A job that it removes is neither queued nor running and was last
  -- updated before the cutoff; every other job stays as it is.
  pub purge_change_safe :
      (cutoff limit : ℕ) (q : DurableJobQueue P) (m : Records P) (n : ℕ) (w : Option (Records P))
      (j : String) (r : JobRecord P)
      → IsConsistent q.maximum_records m
      → purge_change cutoff limit q m ≡ ok (n, w)
      → lookup j m ≡ some r
      → (n ≤ limit)
        × (length m ≤ length (written m w) + n)
        × ((lookup j (written m w) ≡ some r)
            ⊎ ((lookup j (written m w) ≡ none)
                × ((is_unfinished r.status ≡ false) × (r.updated_at < cutoff))))
  purge_change_safe cutoff limit q m n w j r c h e =
      let (few, kept) = purge_change_keeps cutoff limit q m n w j r c h e in
      (
        few,
        purge_change-length cutoff limit q m n w c.distinct h,
        rw (is_unfinished-is_open r.status) at kept,
      )
