-- ===== src/Jobs/Leases.antt =====
-- src/plaik_core/jobs.py, `claim`: the leases that it respects.
use plaik.Jobs.Claiming.{claim-Claimed, id-claimed}
use plaik.Prelude.{
  ℕ, ◌<◌, ◌≡◌, ◌≢◌, ◌∙◌, ap, String, true, false, Option, some, arith, eq_iff, string_eq,
}
use plaik.Prelude.Results.{ok}
use plaik.Prelude.Dict.{lookup, map_values, lookup-insert, lookup-map_values}
use plaik.Prelude.Items.{sort_items, lookup-sort_items}
use plaik.Prelude.Time.{DateTime, aware, or_now}
use plaik.Jobs.Record.{JobRecord, is_running, claimed, expired, recover}
use plaik.Jobs.Registry.{Records, DurableJobQueue, read}
use plaik.Jobs.Changes.{is_due}
use plaik.Jobs.Queue.{Environment, claim}
use plaik.Jobs.Consistency.{IsConsistent, map_values-IsConsistent}
use plaik.Jobs.Invariant.{recover-Keeps}
use plaik.Jobs.Preservation.{Holds}
use plaik.Jobs.Selection.{IsSelected-of_due}
use plaik.Jobs.Outcomes.{Claims}

module _ {P : Type 0} where
  recover_live :
      (now : ℕ) (r : JobRecord P) (expires : ℕ)
      → r.lease_expires_at ≡ some expires
      → now < expires
      → recover now r ≡ r
  unfolding recover expired
  recover_live now r expires h k = ground arith

  not_due_of_running :
      (now : ℕ) (r : JobRecord P) → is_running r.status ≡ true → is_due now r ≡ false
  unfolding is_due
  not_due_of_running now r h = ground arith

  Claims-keep_running :
      (maximum : ℕ) (worker : String) (lease now : ℕ) (m : Records P) (a : Option (JobRecord P))
      (m' : Records P) (j : String) (held : JobRecord P)
      → IsConsistent maximum m
      → Claims worker lease now m a m'
      → lookup j m ≡ some held
      → is_running held.status ≡ true
      → ((b : JobRecord P) → a ≡ some b → b.id ≢ j) × (lookup j m' ≡ some held)
  Claims-keep_running maximum worker lease now m a m' j held c (Claims.nothing e f g) found run =
      (λ b p. absurd (ground arith), rw g found)
  Claims-keep_running maximum worker lease now m a m' j held c (Claims.job r rest e f g) found run =
      let s = IsSelected-of_due maximum now m r rest c e in
      let differ : r.id ≢ j = λ p. ground (
        arith,
        not_due_of_running now r,
        s.due,
        ap (λ i. lookup i m) p,
        s.stored.found,
        found,
        run,
      ) in
      (
        λ b p q. differ (ground (arith, id-claimed worker lease now r)),
        rw g (
            ground (
              arith,
              lookup-insert r.id j (claimed worker lease now r) m,
              eq_iff r.id j,
              differ,
              found,
            )),
      )

  -- On a consistent registry, a running job whose lease has not expired is left as it is by a claim, and is not the
  -- job that the claim hands out.
  pub claim_respects_lease :
      (worker : String) (lease : ℕ) (now : Option DateTime) (env : Environment)
      (q : DurableJobQueue P) (a : Option (JobRecord P)) (q' : DurableJobQueue P) (m : Records P)
      (j : String) (held : JobRecord P) (time expires : ℕ)
      → Holds q
      → claim worker lease now env q ≡ (ok a, q')
      → or_now now env.clock ≡ aware time
      → read q.file ≡ ok m
      → lookup j m ≡ some held
      → is_running held.status ≡ true
      → held.lease_expires_at ≡ some expires
      → time < expires
      → ((b : JobRecord P) → a ≡ some b → b.id ≢ j)
        × (m' : Records P) × (read q'.file ≡ ok m')
        × (lookup j m' ≡ some held)
  claim_respects_lease worker lease now env q a q' m j held time expires h e clock reads found run
        lim live =
      let c = claim-Claimed worker lease now env q a q' e in
      let recovered = map_values (recover c.time) c.before in
      let same_time : time ≡ c.time = ground (arith, c.read_clock) in
      let same_records : m ≡ c.before = ground (arith, c.was_read) in
      let live_now : c.time < expires = omega (arith, same_time) in
      let still : lookup j recovered ≡ some held =
        lookup-map_values (recover c.time) j c.before
        ∙ rw (← same_records, found, recover_live c.time held expires lim live_now) in
      let consistent =
        map_values-IsConsistent q.maximum_records (recover c.time) c.before (recover-Keeps c.time)
          (h.at c.before c.was_read) in
      let kept =
        Claims-keep_running q.maximum_records worker lease c.time recovered a c.after j held
          consistent c.outcome still run in
      (kept.0, sort_items c.after, c.reads_back, lookup-sort_items j c.after ∙ kept.1)
