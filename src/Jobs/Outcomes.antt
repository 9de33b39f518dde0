-- ===== src/Jobs/Outcomes.antt =====
-- src/plaik_core/jobs.py: what a claim and a finish that return have found and written.
use plaik.Prelude.{
  ℕ, ◌<◌, ◌≡◌, refl, ◌||◌, ◌∙◌, String, Bool, true, Option, none, some, List, [], ◌∷◌, arith,
  string_eq, eq_iff, Option-cases, option_beq, ap, inl, inr, if◌then◌else◌,
}
use plaik.Prelude.Results.{ok, err, Result-cases}
use plaik.Prelude.Dict.{lookup, insert, map_values}
use plaik.Jobs.Record.{
  JobRecord, is_running, claimed, recover, succeeded_record, failed_record, retry_fits, overflow,
}
use plaik.Jobs.Registry.{Records, DurableJobQueue}
use plaik.Jobs.Changes.{claim_first, due_jobs, claim_change, finish_current, finish_change}

option_beq-some : (o : Option String) (w : String) → option_beq o (some w) ≡ true → o ≡ some w
option_beq-some none w h = cc
option_beq-some (some v) w h = ap some ((eq_iff v w).0 h)

option_beq-some_refl : (w : String) → option_beq (some w) (some w) ≡ true
option_beq-some_refl w = (eq_iff w w).1 refl

module _ {P : Type 0} where
  -- What `claim` returned and wrote, over the recovered records `m`.
  pub data Claims (worker : String) (lease now : ℕ) (m : Records P) (a : Option (JobRecord P))
      (m' : Records P) : Type 0 where
    nothing : due_jobs now m ≡ [] → a ≡ none → m' ≡ m → Claims worker lease now m a m'
    job :
        (r : JobRecord P) (rest : List (JobRecord P))
        → due_jobs now m ≡ r ∷ rest
        → a ≡ some (claimed worker lease now r)
        → m' ≡ insert r.id (claimed worker lease now r) m
        → Claims worker lease now m a m'

  claim_first-Claims :
      (worker : String) (lease now : ℕ) (m : Records P) (due : List (JobRecord P))
      (a : Option (JobRecord P)) (m' : Records P)
      → due_jobs now m ≡ due
      → claim_first worker lease now m due ≡ ok (a, some m')
      → Claims worker lease now m a m'
  unfolding claim_first claimed
  claim_first-Claims worker lease now m [] a m' e h = Claims.nothing e (ground arith) (ground arith)
  claim_first-Claims worker lease now m (r ∷ rest) a m' e h =
      Claims.job r rest e (ground arith) (ground arith)

  claim_first_writes :
      (worker : String) (lease now : ℕ) (m : Records P) (due : List (JobRecord P))
      (a : Option (JobRecord P)) (w : Option (Records P))
      → claim_first worker lease now m due ≡ ok (a, w)
      → (m' : Records P) × (w ≡ some m')
  unfolding claim_first
  claim_first_writes worker lease now m [] a w h = (m, ground arith)
  claim_first_writes worker lease now m (r ∷ rest) a w h =
      let new = claimed worker lease now r in (insert new.id new m, ground arith)

  -- A claim writes the registry whether or not it hands out a job.
  pub claim_change_writes :
      (worker : String) (lease now : ℕ) (q : DurableJobQueue P) (m : Records P)
      (a : Option (JobRecord P)) (w : Option (Records P))
      → claim_change worker lease now q m ≡ ok (a, w)
      → (m' : Records P) × (w ≡ some m')
  unfolding claim_change
  claim_change_writes worker lease now q m a w h = claim_first_writes worker lease now _ _ a w h

  pub claim_change-Claims :
      (worker : String) (lease now : ℕ) (q : DurableJobQueue P) (m : Records P)
      (a : Option (JobRecord P)) (m' : Records P)
      → claim_change worker lease now q m ≡ ok (a, some m')
      → Claims worker lease now (map_values (recover now) m) a m'
  unfolding claim_change
  claim_change-Claims worker lease now q m a m' h =
      let recovered = map_values (recover now) m in
      claim_first-Claims worker lease now recovered (due_jobs now recovered) a m' refl h

  -- The checks that a finishing worker has passed.
  pub record MayFinish (worker : String) (token now : ℕ) (r : JobRecord P) : Type 0 where
    pub running : is_running r.status ≡ true
    pub owner : r.lease_owner ≡ some worker
    pub token_fresh : r.fencing_token ≡ token
    pub live : (t : ℕ) × (r.lease_expires_at ≡ some t) × (now < t)

  -- The record that `_finish` writes.
  unfoldable pub finished : DurableJobQueue P → Bool → Option String → ℕ → JobRecord P → JobRecord P
  finished q success code now r =
      if success
      then succeeded_record now r
      else failed_record q.base_retry_delay q.maximum_retry_delay code now r

  finish_current-MayFinish :
      (worker : String) (token : ℕ) (success : Bool) (code : Option String) (now : ℕ)
      (q : DurableJobQueue P) (r a : JobRecord P)
      → finish_current worker token success code now q r ≡ ok a
      → MayFinish worker token now r × (a ≡ finished q success code now r)
  unfolding finish_current finished
  finish_current-MayFinish worker token success code now q r a h =
      elim (Option-cases r.lease_expires_at) [
        | inl e ↦ absurd (ground arith)
        | inr (t, e) ↦ (
          record {
            running = ground arith;
            owner = option_beq-some r.lease_owner worker (ground arith);
            token_fresh = ground arith;
            live = (t, e, ground arith);
          },
          ground arith,
        )
      ]

  pub finish_change_of_MayFinish :
      (job_id worker : String) (token : ℕ) (success : Bool) (code : Option String) (now : ℕ)
      (q : DurableJobQueue P) (m : Records P) (r : JobRecord P)
      → lookup job_id m ≡ some r
      → MayFinish worker token now r
      → finish_change job_id worker token success code now q m ≡ (
          if success || retry_fits q.base_retry_delay q.maximum_retry_delay now r
          then ok (
            finished q success code now r,
            some (insert job_id (finished q success code now r) m),
          )
          else err overflow)
  unfolding finish_change finish_current finished
  finish_change_of_MayFinish job_id worker token success code now q m r e may =
      ground (arith, option_beq-some_refl worker)

  -- A finish that returns found the job, let the worker pass its checks, and wrote the record.
  pub finish_change-MayFinish :
      (job_id worker : String) (token : ℕ) (success : Bool) (code : Option String) (now : ℕ)
      (q : DurableJobQueue P) (m : Records P) (a : JobRecord P) (w : Option (Records P))
      → finish_change job_id worker token success code now q m ≡ ok (a, w)
      → (r : JobRecord P) × (lookup job_id m ≡ some r)
        × MayFinish worker token now r
        × (a ≡ finished q success code now r)
        × (w ≡ some (insert job_id a m))
  unfolding finish_change
  finish_change-MayFinish job_id worker token success code now q m a w h =
      elim (Option-cases (lookup job_id m)) [
        | inl e ↦ absurd (ground arith)
        | inr (r, e) ↦ elim (Result-cases (finish_current worker token success code now q r)) [
          | inl (b, f) ↦
              let same : b ≡ a = ground arith in
              let (may, g) =
                finish_current-MayFinish worker token success code now q r a (f ∙ ap ok same) in
              (r, e, may, g, ground arith)
          | inr (x, f) ↦ absurd (ground arith)
        ]
      ]
