-- ===== src/Jobs/Returned.antt =====
-- src/plaik_core/jobs.py, `DurableJobQueue`: what is known of an operation that has returned.
use plaik.Prelude.{◌≡◌, refl, sym, ◌∙◌, ap, Option, none, some, arith, inl, inr}
use plaik.Prelude.Results.{Result, ok, err, Result-cases}
use plaik.Prelude.Items.{sort_items}
use plaik.Jobs.Record.{JobError}
use plaik.Jobs.Registry.{Records, DurableJobQueue, Change, read, write, commit, transact, operate}

module _ {P : Type 0} where
  -- The records that the registry holds after a transaction on `m`.
  abbrev pub written : Records P → Option (Records P) → Records P
  written m none = m
  written m (some n) = sort_items n

  -- A returned operation: its checks passed, the registry was read, and what it then holds.
  pub record Returned {A B : Type 0} (checks : Result JobError A)
      (body : A → DurableJobQueue P → Records P → Change P B) (q : DurableJobQueue P) (b : B)
      (q' : DurableJobQueue P) : Type 0 where
    pub argument : A
    pub passed : checks ≡ ok argument
    pub before : Records P
    pub was_read : read q.file ≡ ok before
    pub wrote : Option (Records P)
    pub change : body argument q before ≡ ok (b, wrote)
    pub reads_back : read q'.file ≡ ok (written before wrote)
    pub same_limits : q'.maximum_records ≡ q.maximum_records

  commit_returned :
      {B : Type 0} (c : Change P B) (q : DurableJobQueue P) (b : B) (q' : DurableJobQueue P)
      (m : Records P)
      → commit c q ≡ (ok b, q')
      → read q.file ≡ ok m
      → (w : Option (Records P)) × (c ≡ ok (b, w))
        × (read q'.file ≡ ok (written m w))
        × (q'.maximum_records ≡ q.maximum_records)
  unfolding read write
  commit_returned {B} (err e) q b q' m h r = absurd (ground arith)
  commit_returned {B} (ok (a, none)) q b q' m h r = (
    none,
    ground arith,
    ap (λ (p : Result JobError B × DurableJobQueue P). read p.1.file) (sym h) ∙ r,
    ground arith,
  )
  commit_returned {B} (ok (a, some n)) q b q' m h r = (
    some n,
    ground arith,
    ap (λ (p : Result JobError B × DurableJobQueue P). read p.1.file) (sym h),
    ground arith,
  )

  pub operate-Returned :
      {A B : Type 0} (checks : Result JobError A)
      (body : A → DurableJobQueue P → Records P → Change P B) (q : DurableJobQueue P) (b : B)
      (q' : DurableJobQueue P)
      → operate checks body q ≡ (ok b, q')
      → Returned checks body q b q'
  unfolding operate transact
  operate-Returned (err e) body q b q' h = absurd (ground arith)
  operate-Returned (ok a) body q b q' h = elim (Result-cases (read q.file)) [
    | inl (m, r) ↦
        let c : commit (body a q m) q ≡ (ok b, q') = rw r at h in
        let (w, change, reads, same) = commit_returned (body a q m) q b q' m c r in
        record {
          argument = a;
          passed = refl;
          before = m;
          was_read = r;
          wrote = w;
          change = change;
          reads_back = reads;
          same_limits = same;
        }
    | inr (e, r) ↦ absurd (ground arith)
  ]

  -- An operation that raises leaves the queue as it was.
  pub operate_raised :
      {A B : Type 0} (checks : Result JobError A)
      (body : A → DurableJobQueue P → Records P → Change P B) (q : DurableJobQueue P) (e : JobError)
      → (operate checks body q).0 ≡ err e
      → (operate checks body q).1 ≡ q
  unfolding operate transact
  operate_raised checks body q e h = ground arith
