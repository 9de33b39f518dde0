-- ===== src/Jobs/Examples.antt =====
-- src/plaik_core/jobs.py: a queue in use, and the theorems at it.
use mathlib.Core.Path.{subst}
use plaik.Prelude.{
  ℕ, ◌+◌, ◌≤◌, ◌<◌, ◌≡◌, ◌≢◌, ◌⊎◌, refl, ap, false, Option, none, some, List, [], ◌∷◌, arith,
  nat_beq, nat_beq_iff, keep, length, string_eq,
}
use plaik.Prelude.Text.{starts, kebab}
use plaik.Prelude.Results.{Result, ok, err}
use plaik.Prelude.Dict.{delete, lookup, insert, map_values}
use plaik.Prelude.Items.{sort_items}
use plaik.Prelude.Sorting.{sort_by}
use plaik.Prelude.Time.{aware, as_utc}
use plaik.Jobs.Record.{
  JobError, JobRecord, validate_owner, validate_job_type, validate_worker_id,
  validate_idempotency_key, new_record, claimed, expired, recover, cancelled, succeeded_record,
  failed_record, retry_fits, overflow,
}
use plaik.Jobs.Registry.{Records, DurableJobQueue, absent, read, write, transact, operate}
use plaik.Jobs.Changes.{
  find_key, enqueue_change, due_lt, is_due, due_jobs, claim_change, finish_change, is_cancellable,
  cancel_one, cancel_change, is_purgeable, purge_change, delete_all,
}
use plaik.Jobs.Queue.{
  EnqueueArguments, Environment, enqueue, claim, claim_checks, cancel_owner, owner_checks, finish,
  worker_checks,
}
use plaik.Jobs.Consistency.{IsConsistent}
use plaik.Jobs.Preservation.{
  Holds, Operation, enqueue_op, claim_op, fail_op, enqueue-Holds, cancel_owner-Holds, claim-Holds,
  after_all, after_all-Holds,
}
use plaik.Jobs.Claiming.{HandsOut, claim_correct}
use plaik.Jobs.Leases.{claim_respects_lease}
use plaik.Jobs.Outcomes.{finished}
use plaik.Jobs.Fencing.{Finishes, finish_sound}
use plaik.Jobs.Idempotency.{enqueue_idempotent}
use plaik.Jobs.Retention.{is_unfinished, purge_change_safe}

abbrev empty_queue : DurableJobQueue ℕ
empty_queue = record {
  base_retry_delay = 5000000;
  maximum_retry_delay = 3600000000;
  maximum_records = 2;
  file = absent;
}

abbrev request : EnqueueArguments ℕ
request = record {
  job_type = "mail-queue.send";
  payload = 7;
  idempotency_key = "order-000001";
  maximum_attempts = 3;
  scheduled_at = none;
  now = none;
}

abbrev at_noon : Environment
at_noon = record { clock = 43200000000; fresh = "job-1" }

abbrev first_job : JobRecord ℕ
first_job = (new_record "job-1" "mail-queue.send" "order-000001" 7 3 43200000000 43200000000)

abbrev one_records : Records ℕ
one_records = ("job-1", first_job) ∷ []

abbrev one_job : DurableJobQueue ℕ
one_job = record empty_queue { file = write one_records }

enqueue_first : enqueue (λ p. ok p) nat_beq request at_noon empty_queue ≡ (ok first_job, one_job)
unfolding enqueue operate transact read write sort_items enqueue_change find_key insert new_record
    validate_job_type validate_idempotency_key as_utc
enqueue_first = refl

abbrev five_minutes : ℕ
five_minutes = 300000000

abbrev later : Environment
later = record { clock = 43200000005; fresh = "unused" }

abbrev claimed_job : JobRecord ℕ
claimed_job = claimed "worker-1" five_minutes 43200000005 first_job

abbrev running_records : Records ℕ
running_records = ("job-1", claimed_job) ∷ []

abbrev running_queue : DurableJobQueue ℕ
running_queue = record empty_queue { file = write running_records }

claim_first_job :
    claim "worker-1" five_minutes none later one_job ≡ (ok (some claimed_job), running_queue)
unfolding claim claim_checks operate transact read write sort_items claim_change due_jobs is_due
    due_lt keep sort_by recover expired map_values claimed new_record insert validate_worker_id
    as_utc
claim_first_job = refl

claim_nothing : claim "worker-2" five_minutes none later running_queue ≡ (ok none, running_queue)
unfolding claim claim_checks operate transact read write sort_items claim_change due_jobs is_due
    due_lt keep sort_by recover expired map_values claimed new_record insert validate_worker_id
    as_utc
claim_nothing = refl

finish_first_job :
    finish "job-1" "worker-1" 1 false (some "job.timeout") none later running_queue ≡ (
      ok (finished empty_queue false (some "job.timeout") 43200000005 claimed_job),
      record empty_queue {
        file = write (
            ("job-1", finished empty_queue false (some "job.timeout") 43200000005 claimed_job)
            ∷ []);
      },
    )
unfolding finish worker_checks operate transact read write sort_items finish_change lookup finished
    retry_fits failed_record succeeded_record claimed new_record insert validate_worker_id as_utc
finish_first_job = refl

nothing_read : (m : Records ℕ) → read empty_queue.file ≡ ok m → m ≡ []
unfolding read
nothing_read m e = ground arith

empty-IsConsistent : IsConsistent {P = ℕ} 2 []
unfolding lookup
empty-IsConsistent = record {
  distinct = tt;
  entries = tt;
  keys_differ = λ i j a b p q e. cc;
  bounded = omega arith;
}

empty_queue-Holds : Holds empty_queue
empty_queue-Holds = record { at = λ m e. rw (nothing_read m e) empty-IsConsistent }

abbrev calls : List (Operation ℕ)
calls =
    enqueue_op request at_noon
    ∷ claim_op "worker-1" five_minutes none later
    ∷ fail_op "job-1" "worker-1" 1 "job.timeout" none later
    ∷ []

after_all-Holds_example : Holds (after_all (λ p. ok p) nat_beq calls empty_queue)
after_all-Holds_example = after_all-Holds (λ p. ok p) nat_beq calls empty_queue empty_queue-Holds

one_job-Holds : Holds one_job
one_job-Holds =
    subst Holds (ap (λ (p : Result JobError (JobRecord ℕ) × DurableJobQueue ℕ). p.1) enqueue_first)
      (enqueue-Holds (λ p. ok p) nat_beq request at_noon empty_queue empty_queue-Holds)

running_queue-Holds : Holds running_queue
running_queue-Holds =
    subst Holds
      (ap (λ (p : Result JobError (Option (JobRecord ℕ)) × DurableJobQueue ℕ). p.1) claim_first_job)
      (claim-Holds one_job one_job-Holds "worker-1" five_minutes none later)

claim_correct_example :
    HandsOut "worker-1" five_minutes (aware 43200000005) one_job claimed_job running_queue
claim_correct_example =
    claim_correct "worker-1" five_minutes none later one_job claimed_job running_queue one_job-Holds
      claim_first_job

running_read : read running_queue.file ≡ ok running_records
unfolding read write sort_items
running_read = refl

running_lookup : lookup "job-1" running_records ≡ some claimed_job
unfolding lookup
running_lookup = refl

claim_respects_lease_example :
    ((b : JobRecord ℕ) → none ≡ some b → b.id ≢ "job-1")
    × (m' : Records ℕ) × (read running_queue.file ≡ ok m')
    × (lookup "job-1" m' ≡ some claimed_job)
unfolding claimed
claim_respects_lease_example =
    claim_respects_lease "worker-2" five_minutes none later running_queue none running_queue
      running_records "job-1" claimed_job 43200000005 43500000005 running_queue-Holds claim_nothing
      refl running_read running_lookup refl refl (omega arith)

abbrev timed_out : JobRecord ℕ
timed_out = finished empty_queue false (some "job.timeout") 43200000005 claimed_job

finish_sound_example :
    Finishes "job-1" "worker-1" 1 false
      (some "job.timeout")
      (aware 43200000005)
      running_queue
      timed_out
      (record empty_queue { file = write (("job-1", timed_out) ∷ []) })
finish_sound_example =
    finish_sound "job-1" "worker-1" 1 false (some "job.timeout") none later running_queue timed_out
      (record empty_queue { file = write (("job-1", timed_out) ∷ []) }) finish_first_job

-- The delay of a late attempt of a slow queue is no `timedelta`.
finish_overflow :
    (finish "job-1" "worker-1" 1 false none none later (record empty_queue {
      base_retry_delay = 86400000000;
      maximum_retry_delay = 86400000000;
      file = write (("job-1", record claimed_job { attempts = 31; maximum_attempts = 32 }) ∷ []);
    })).0
    ≡ err overflow
unfolding finish worker_checks operate transact read write sort_items finish_change lookup
    retry_fits claimed new_record insert validate_worker_id as_utc
finish_overflow = refl

enqueue_idempotent_example :
    enqueue (λ p. ok p) nat_beq request later one_job ≡ (ok first_job, one_job)
enqueue_idempotent_example =
    enqueue_idempotent (λ p. ok p) nat_beq request at_noon later empty_queue one_job first_job
      (λ p. (nat_beq_iff p p).1 refl) empty_queue-Holds enqueue_first

abbrev old_job : JobRecord ℕ
old_job = cancelled 43200000005 first_job

abbrev old_records : Records ℕ
old_records = ("job-1", old_job) ∷ []

abbrev cancelled_queue : DurableJobQueue ℕ
cancelled_queue = record empty_queue { file = write old_records }

cancel_owner_first : cancel_owner "mail-queue" none later one_job ≡ (ok 1, cancelled_queue)
unfolding cancel_owner owner_checks operate transact read write sort_items cancel_change cancel_one
    is_cancellable keep map_values new_record starts cancelled as_utc validate_owner kebab
cancel_owner_first = refl

cancelled_queue-Holds : Holds cancelled_queue
cancelled_queue-Holds =
    subst Holds (ap (λ (p : Result JobError ℕ × DurableJobQueue ℕ). p.1) cancel_owner_first)
      (cancel_owner-Holds one_job one_job-Holds "mail-queue" none later)

cancelled_read : read cancelled_queue.file ≡ ok old_records
unfolding read write sort_items
cancelled_read = refl

purge_old : purge_change 50000000000 10 cancelled_queue old_records ≡ ok (1, some [])
unfolding purge_change is_purgeable keep sort_by new_record cancelled delete_all delete
purge_old = refl

old_lookup : lookup "job-1" old_records ≡ some old_job
unfolding lookup
old_lookup = refl

purge_change_safe_example :
    (1 ≤ 10)
    × (1 ≤ length (sort_items {V = JobRecord ℕ} []) + 1)
    × ((lookup "job-1" (sort_items []) ≡ some old_job)
        ⊎ ((lookup {V = JobRecord ℕ} "job-1" (sort_items []) ≡ none)
            × ((is_unfinished old_job.status ≡ false) × (old_job.updated_at < 50000000000))))
purge_change_safe_example =
    purge_change_safe 50000000000 10 cancelled_queue old_records 1 (some []) "job-1" old_job
      (cancelled_queue-Holds.at old_records cancelled_read) purge_old old_lookup
