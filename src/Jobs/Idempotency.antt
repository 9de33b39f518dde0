-- ===== src/Jobs/Idempotency.antt =====
-- src/plaik_core/jobs.py, `enqueue`: a repeated request is answered with the first one's job.
use plaik.Prelude.{
  ℕ, ◌≡◌, refl, sym, ◌∙◌, ap, String, Bool, true, Option, none, some, arith, string_eq, eq_iff,
  Option-cases, inl, inr,
}
use plaik.Prelude.Results.{Result, ok}
use plaik.Prelude.Dict.{lookup, insert, values, lookup-insert_self}
use plaik.Prelude.Items.{lookup-sort_items}
use plaik.Prelude.Time.{DateTime, aware, naive, or_now, as_utc}
use plaik.Jobs.Record.{JobError, JobRecord, new_record}
use plaik.Jobs.Registry.{Records, DurableJobQueue, read, transact, operate}
use plaik.Jobs.Changes.{find_key, enqueue_change}
use plaik.Jobs.Queue.{EnqueueArguments, Environment, enqueue_checks, enqueue}
use plaik.Jobs.Consistency.{IsConsistent}
use mathlib.Core.Path.{subst}
use plaik.Jobs.Returned.{operate-Returned, written}
use plaik.Jobs.Preservation.{Holds, enqueue-Holds}
use plaik.Jobs.Selection.{find_key-none, find_key-some, IsStored, values-IsStored}

abbrev instant : DateTime → ℕ
instant (aware t) = t
instant (naive t) = t

module _ {P : Type 0} where
  -- The record under a stored record's idempotency key is that record.
  pub find_key_stored :
      (maximum : ℕ) (m : Records P) (j : String) (r : JobRecord P)
      → IsConsistent maximum m
      → lookup j m ≡ some r
      → find_key r.idempotency_key (values m) ≡ some r
  find_key_stored maximum m j r c found =
      elim (Option-cases (find_key r.idempotency_key (values m))) [
        | inl e ↦ absurd (find_key-none r.idempotency_key m j r e found refl)
        | inr (x, e) ↦
            let (stored, key) =
              find_key-some (IsStored m) r.idempotency_key (values m) x
                (values-IsStored maximum m c) e in
            let same : x.id ≡ j = c.keys_differ x.id j x r stored.found found key in
            e ∙ sym stored.found ∙ ap (λ i. lookup i m) same ∙ found
      ]

module _ {P Raw : Type 0} (safe_payload : Raw → Result JobError P) (same : P → P → Bool) where
  -- The checks that pass at one reading of the clock pass at another, with the same payload.
  checks_again :
      (a : EnqueueArguments Raw) (env later : Environment) (c : P × ℕ × ℕ)
      → enqueue_checks safe_payload a env ≡ ok c
      → (d : P × ℕ × ℕ) × (enqueue_checks safe_payload a later ≡ ok d) × (d.0 ≡ c.0)
  unfolding enqueue_checks as_utc
  checks_again a env later c h =
      let timestamp = instant (or_now a.now later.clock) in
      ((c.0, timestamp, instant (or_now a.scheduled_at timestamp)), ground arith, refl)

  existing_returned :
      (fresh job_type key : String) (payload : P) (attempts due now : ℕ) (q : DurableJobQueue P)
      (m : Records P) (r : JobRecord P)
      → find_key key (values m) ≡ some r
      → r.type ≡ job_type
      → same r.payload payload ≡ true
      → enqueue_change same fresh job_type key payload attempts due now q m ≡ ok (r, none)
  unfolding enqueue_change
  existing_returned fresh job_type key payload attempts due now q m r e f g =
      ground (arith, eq_iff r.type job_type)

  -- A request whose checks pass, and whose idempotency key a job of its type and payload bears,
  -- returns that job, draws no new one, and leaves the registry as it is, at any later time.
  pub enqueue_duplicate :
      (a : EnqueueArguments Raw) (env : Environment) (q : DurableJobQueue P) (c : P × ℕ × ℕ)
      (m : Records P) (j : String) (r : JobRecord P)
      → enqueue_checks safe_payload a env ≡ ok c
      → read q.file ≡ ok m
      → IsConsistent q.maximum_records m
      → lookup j m ≡ some r
      → r.idempotency_key ≡ a.idempotency_key
      → r.type ≡ a.job_type
      → same r.payload c.0 ≡ true
      → enqueue safe_payload same a env q ≡ (ok r, q)
  unfolding enqueue operate transact
  enqueue_duplicate a env q c m j r passed reads k found key type payload =
      let e : find_key a.idempotency_key (values m) ≡ some r =
        ap (λ s. find_key s (values m)) (sym key)
        ∙ find_key_stored q.maximum_records m j r k found in
      rw (
        passed,
        reads,
        existing_returned env.fresh a.job_type a.idempotency_key c.0 a.maximum_attempts c.2 c.1 q m
            r e type payload,
      )

  -- The record that a request returns bears its key and type, and the registry then holds it.
  record Stored (job_type key : String) (payload : P) (r : JobRecord P) (m : Records P)
      : Type 0 where
    place : String
    found : lookup place m ≡ some r
    key_kept : r.idempotency_key ≡ key
    type_kept : r.type ≡ job_type
    payload_kept : same r.payload payload ≡ true

  enqueue_change-Stored :
      (fresh job_type key : String) (payload : P) (attempts due now maximum : ℕ)
      (q : DurableJobQueue P) (m : Records P) (r : JobRecord P) (w : Option (Records P))
      → ((p : P) → same p p ≡ true)
      → IsConsistent maximum m
      → enqueue_change same fresh job_type key payload attempts due now q m ≡ ok (r, w)
      → Stored job_type key payload r (written m w)
  unfolding enqueue_change new_record
  enqueue_change-Stored fresh job_type key payload attempts due now maximum q m r w reflexive c h =
      elim (Option-cases (find_key key (values m))) [
        | inl e ↦
            let new = new_record fresh job_type key payload attempts due now in
            let wrote : w ≡ some (insert fresh r m) = ground arith in
            let same_record : r ≡ new = ground arith in
            record {
              place = fresh;
              found =
                  rw wrote
                    (lookup-sort_items fresh (insert fresh r m) ∙ lookup-insert_self fresh r m);
              key_kept = rw same_record refl;
              type_kept = rw same_record refl;
              payload_kept = rw same_record (reflexive payload);
            }
        | inr (x, e) ↦
            let (stored, key_kept) =
              find_key-some (IsStored m) key (values m) x (values-IsStored maximum m c) e in
            let wrote : w ≡ none = ground arith in
            let same_record : r ≡ x = ground arith in
            record {
              place = x.id;
              found = rw (wrote, same_record) stored.found;
              key_kept = rw same_record key_kept;
              type_kept = ground (arith, eq_iff x.type job_type);
              payload_kept = ground arith;
            }
      ]

  -- On a consistent registry, where every payload equals itself, a request that was answered is answered with the same job, at any later time and whatever the
  -- draw, and the registry stays as it is.
  pub enqueue_idempotent :
      (a : EnqueueArguments Raw) (env later : Environment) (q q' : DurableJobQueue P)
      (r : JobRecord P)
      → ((p : P) → same p p ≡ true)
      → Holds q
      → enqueue safe_payload same a env q ≡ (ok r, q')
      → enqueue safe_payload same a later q' ≡ (ok r, q')
  unfolding enqueue
  enqueue_idempotent a env later q q' r reflexive h e =
      let c = operate-Returned _ _ q r q' e in
      let s =
        enqueue_change-Stored _ _ _ _ _ _ _ q.maximum_records q c.before r c.wrote reflexive
          (h.at c.before c.was_read) c.change in
      let (d, passed, kept) = checks_again a env later c.argument c.passed in
      let consistent =
        (subst Holds (ap (λ (p : Result JobError (JobRecord P) × DurableJobQueue P). p.1) e)
            (enqueue-Holds safe_payload same a env q h)).at
          (written c.before c.wrote) c.reads_back in
      enqueue_duplicate a later q' d (written c.before c.wrote) s.place r passed c.reads_back
        consistent s.found s.key_kept s.type_kept (rw kept s.payload_kept)
