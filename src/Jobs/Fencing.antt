-- ===== src/Jobs/Fencing.antt =====
-- src/plaik_core/jobs.py, `_finish`: who may finish a job, and what a finished attempt becomes.
use plaik.Prelude.{ℕ, ◌≡◌, ◌∙◌, String, Bool, Option, some, arith, string_eq, if◌then◌else◌, ◌==◌}
use plaik.Prelude.Results.{ok}
use plaik.Prelude.Dict.{lookup, insert, lookup-insert}
use plaik.Prelude.Items.{sort_items, lookup-sort_items}
use plaik.Prelude.Time.{DateTime, aware, or_now, as_utc}
use plaik.Jobs.Record.{JobRecord}
use plaik.Jobs.Registry.{Records, DurableJobQueue, read}
use plaik.Jobs.Queue.{Environment, worker_checks, finish}
use plaik.Jobs.Outcomes.{MayFinish, finished, finish_change-MayFinish}
use plaik.Jobs.Returned.{operate-Returned}

finish_time :
    (worker : String) (token : ℕ) (now : Option DateTime) (env : Environment) (t : ℕ)
    → worker_checks worker token now env ≡ ok t
    → or_now now env.clock ≡ aware t
unfolding worker_checks as_utc
finish_time worker token now env t h = ground arith

module _ {P : Type 0} where
  -- The call at the time `now` took `q` to `q'`, and the job became `a`.
  abbrev pub Finishes :
      String
      → String
      → ℕ
      → Bool
      → Option String
      → DateTime
      → DurableJobQueue P
      → JobRecord P
      → DurableJobQueue P
      → Type 0
  Finishes job_id worker token success code now q a q' =
      (time : ℕ) × (m : Records P) × (r : JobRecord P) × (m' : Records P) × (now ≡ aware time)
      × (read q.file ≡ ok m)
      × (lookup job_id m ≡ some r)
      × MayFinish worker token time r
      × (a ≡ finished q success code time r)
      × (read q'.file ≡ ok m')
      × ((j : String) → lookup j m' ≡ (if job_id == j then some a else lookup j m))

  -- A finish that returns was called by the worker that holds the job on a live lease under the
  -- job's current fencing token, and the registry then holds the returned record under the id:
  -- the stored one with the outcome of the attempt.
  pub finish_sound :
      (job_id worker : String) (token : ℕ) (success : Bool) (code : Option String)
      (now : Option DateTime) (env : Environment) (q : DurableJobQueue P) (a : JobRecord P)
      (q' : DurableJobQueue P)
      → finish job_id worker token success code now env q ≡ (ok a, q')
      → Finishes job_id worker token success code (or_now now env.clock) q a q'
  unfolding finish
  finish_sound job_id worker token success code now env q a q' h =
      let c = operate-Returned _ _ q a q' h in
      let (r, found, may, same, wrote) =
        finish_change-MayFinish job_id worker token success code c.argument q c.before a c.wrote
          c.change in
      (
        c.argument,
        c.before,
        r,
        sort_items (insert job_id a c.before),
        finish_time worker token now env c.argument c.passed,
        c.was_read,
        found,
        may,
        same,
        c.reads_back ∙ rw wrote,
        λ j. lookup-sort_items j (insert job_id a c.before) ∙ lookup-insert job_id j a c.before,
      )
