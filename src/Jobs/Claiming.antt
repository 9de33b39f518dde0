-- ===== src/Jobs/Claiming.antt =====
-- src/plaik_core/jobs.py, `claim`: the job that it hands out, and the leases that it respects.
use plaik.Prelude.{
  ℕ, ◌+◌, ◌≤◌, All-weaken, none, ◌≡◌, refl, ◌∙◌, String, true, false, Option, some, List, ◌∷◌,
  arith, All, All-of-keep, keep, string_eq,
}
use plaik.Prelude.Results.{ok}
use plaik.Prelude.Dict.{lookup, insert, values, map_values, lookup-insert_self}
use plaik.Prelude.Items.{sort_items, lookup-sort_items}
use plaik.Prelude.Sorting.{sort_by-least}
use plaik.Prelude.Time.{DateTime, aware, or_now, as_utc}
use plaik.Jobs.Record.{JobRecord, queued, running, claimed, recover}
use plaik.Jobs.Registry.{Records, DurableJobQueue, read}
use plaik.Jobs.Changes.{is_due, due_lt, due_jobs}
use plaik.Jobs.Queue.{Environment, claim, claim_checks}
use plaik.Jobs.Consistency.{map_values-IsConsistent}
use plaik.Jobs.Invariant.{recover-Keeps}
use plaik.Jobs.Preservation.{Holds}
use plaik.Jobs.Selection.{due_lt-StrictOrder, IsSelected-of_due}
use plaik.Jobs.Outcomes.{Claims, claim_change_writes, claim_change-Claims}
use plaik.Jobs.Returned.{operate-Returned}

checked_time :
    (worker : String) (lease : ℕ) (now : Option DateTime) (env : Environment) (t : ℕ)
    → claim_checks worker lease now env ≡ ok t
    → or_now now env.clock ≡ aware t
unfolding claim_checks as_utc
checked_time worker lease now env t h = ground arith

module _ {P : Type 0} where
  -- `r` comes no later than any job of `m` that is due, in the order scheduled, created, id.
  abbrev pub IsFirstDue : ℕ → Records P → JobRecord P → Type 0
  IsFirstDue now m r =
      All (λ s. s.status ≡ queued → s.scheduled_at ≤ now → due_lt s r ≡ false) (values m)

  is_due-of_queued :
      (now : ℕ) (s : JobRecord P) → s.status ≡ queued → s.scheduled_at ≤ now → is_due now s ≡ true
  unfolding is_due
  is_due-of_queued now s e l = ground (arith, e, l)

  queued-of_is_due :
      (now : ℕ) (s : JobRecord P)
      → is_due now s ≡ true
      → (s.status ≡ queued) × (s.scheduled_at ≤ now)
  unfolding is_due
  queued-of_is_due now s e = ground (arith, e)

  due_jobs-IsFirstDue :
      (now : ℕ) (m : Records P) (r : JobRecord P) (rest : List (JobRecord P))
      → due_jobs now m ≡ r ∷ rest
      → IsFirstDue now m r
  unfolding due_jobs
  due_jobs-IsFirstDue now m r rest e =
      All-weaken (λ s. is_due now s ≡ true → due_lt s r ≡ false)
        (λ s. s.status ≡ queued → s.scheduled_at ≤ now → due_lt s r ≡ false)
        (λ s f q l. f (is_due-of_queued now s q l)) (values m)
        (All-of-keep (λ s. due_lt s r ≡ false) (is_due now) (values m)
          (sort_by-least due_lt due_lt-StrictOrder (keep (is_due now) (values m)) r rest e))

  -- How `claim` went: the time it read, the records it found, and what it did.
  pub record Claimed (worker : String) (lease : ℕ) (now : DateTime) (q : DurableJobQueue P)
      (a : Option (JobRecord P)) (q' : DurableJobQueue P) : Type 0 where
    pub time : ℕ
    pub read_clock : now ≡ aware time
    pub before : Records P
    pub was_read : read q.file ≡ ok before
    pub after : Records P
    pub outcome : Claims worker lease time (map_values (recover time) before) a after
    pub reads_back : read q'.file ≡ ok (sort_items after)

  pub claim-Claimed :
      (worker : String) (lease : ℕ) (now : Option DateTime) (env : Environment)
      (q : DurableJobQueue P) (a : Option (JobRecord P)) (q' : DurableJobQueue P)
      → claim worker lease now env q ≡ (ok a, q')
      → Claimed worker lease (or_now now env.clock) q a q'
  unfolding claim
  claim-Claimed worker lease now env q a q' h =
      let r = operate-Returned _ _ q a q' h in
      let (m', e) = claim_change_writes worker lease r.argument q r.before a r.wrote r.change in
      record {
        time = r.argument;
        read_clock = checked_time worker lease now env r.argument r.passed;
        before = r.before;
        was_read = r.was_read;
        after = m';
        outcome = claim_change-Claims worker lease r.argument q r.before a m' (r.change ∙ (rw e));
        reads_back = r.reads_back ∙ (rw e);
      }

  Claims-some :
      (worker : String) (lease now : ℕ) (m : Records P) (a : JobRecord P) (m' : Records P)
      → Claims worker lease now m (some a) m'
      → (r : JobRecord P) × (rest : List (JobRecord P)) × (due_jobs now m ≡ r ∷ rest)
        × (a ≡ claimed worker lease now r)
        × (m' ≡ insert r.id (claimed worker lease now r) m)
  Claims-some worker lease now m a m' (Claims.nothing e f g) = absurd (ground arith)
  Claims-some worker lease now m a m' (Claims.job r rest e f g) = (r, rest, e, ground arith, g)

  pub id-claimed :
      (worker : String) (lease now : ℕ) (r : JobRecord P) → (claimed worker lease now r).id ≡ r.id
  unfolding claimed
  id-claimed worker lease now r = refl

  stored_after :
      (worker : String) (lease now : ℕ) (r a : JobRecord P) (m m' : Records P)
      → a ≡ claimed worker lease now r
      → m' ≡ insert r.id (claimed worker lease now r) m
      → lookup a.id m' ≡ some a
  stored_after worker lease now r a m m' e f =
      ground (
        arith,
        lookup-insert_self r.id (claimed worker lease now r) m,
        id-claimed worker lease now r,
      )

  -- The claim at the time `now` took `q` to `q'` and handed out `a`.
  abbrev pub HandsOut :
      String → ℕ → DateTime → DurableJobQueue P → JobRecord P → DurableJobQueue P → Type 0
  HandsOut worker lease now q a q' =
      (time : ℕ) × (m : Records P) × (r : JobRecord P) × (m' : Records P) × (now ≡ aware time)
      × (read q.file ≡ ok m)
      × (lookup r.id (map_values (recover time) m) ≡ some r)
      × (r.status ≡ queued)
      × (r.scheduled_at ≤ time)
      × IsFirstDue time (map_values (recover time) m) r
      × (a ≡ record r {
        status = running;
        attempts = r.attempts + 1;
        updated_at = time;
        lease_owner = some worker;
        lease_expires_at = some (time + lease);
        fencing_token = r.fencing_token + 1;
        error_code = none;
      })
      × (read q'.file ≡ ok m')
      × (lookup a.id m' ≡ some a)

  -- On a consistent registry, a claim that hands out a job hands out a queued job whose
  -- time has come, as it stands after expired leases were recovered, and no such job comes before
  -- it. The job that the registry then holds under its id is the one returned: running, one attempt
  -- and one fencing token further, leased to the worker for `lease`.
  pub claim_correct :
      (worker : String) (lease : ℕ) (now : Option DateTime) (env : Environment)
      (q : DurableJobQueue P) (a : JobRecord P) (q' : DurableJobQueue P)
      → Holds q
      → claim worker lease now env q ≡ (ok (some a), q')
      → HandsOut worker lease (or_now now env.clock) q a q'
  unfolding claimed
  claim_correct worker lease now env q a q' h e =
      let c = claim-Claimed worker lease now env q (some a) q' e in
      let recovered = map_values (recover c.time) c.before in
      let (r, rest, due, same, wrote) =
        Claims-some worker lease c.time recovered a c.after c.outcome in
      let consistent =
        map_values-IsConsistent q.maximum_records (recover c.time) c.before (recover-Keeps c.time)
          (h.at c.before c.was_read) in
      let s = IsSelected-of_due q.maximum_records c.time recovered r rest consistent due in
      (
        c.time,
        c.before,
        r,
        sort_items c.after,
        c.read_clock,
        c.was_read,
        s.stored.found,
        (queued-of_is_due c.time r s.due).0,
        (queued-of_is_due c.time r s.due).1,
        due_jobs-IsFirstDue c.time recovered r rest due,
        same,
        c.reads_back,
        lookup-sort_items a.id c.after
            ∙ stored_after worker lease c.time r a recovered c.after same wrote,
      )
