-- ===== src/Jobs/Validity.antt =====
-- src/plaik_core/jobs.py: what holds of every job record, whatever operations were run.
use plaik.Prelude.{ℕ, ◌≤◌, ◌<◌, ◌≡◌, String, Bool, true, false, Option, none, some, arith}
use plaik.Jobs.Record.{
  JobRecord, is_queued, is_running, new_record, claimed, recover, cancelled, succeeded_record,
  failed_record,
}

abbrev pub is_some : {A : Type 0} → Option A → Bool
is_some none = false
is_some (some _) = true

module _ {P : Type 0} where
  pub record IsValid (r : JobRecord P) : Type 0 where
    pub attempts_allowed : (1 ≤ r.maximum_attempts) × (r.maximum_attempts ≤ 32)
    pub attempts_capped : r.attempts ≤ r.maximum_attempts
    pub fenced : r.fencing_token ≡ r.attempts
    pub owned : is_some r.lease_owner ≡ is_running r.status
    pub limited : is_some r.lease_expires_at ≡ is_running r.status
    pub started : is_running r.status ≡ true → 1 ≤ r.attempts
    pub retryable : is_queued r.status ≡ true → r.attempts < r.maximum_attempts

  pub new_record-IsValid :
      (fresh job_type key : String) (payload : P) (attempts due now : ℕ)
      → 1 ≤ attempts
      → attempts ≤ 32
      → IsValid (new_record fresh job_type key payload attempts due now)
  unfolding new_record
  new_record-IsValid fresh job_type key payload attempts due now h k = ground arith

  module _ {r : JobRecord P} (valid : IsValid r) where
    pub claimed-IsValid :
        (worker : String) (lease now : ℕ)
        → is_queued r.status ≡ true
        → IsValid (claimed worker lease now r)
    unfolding claimed
    claimed-IsValid worker lease now h = ground arith

    pub recover-IsValid : (now : ℕ) → IsValid (recover now r)
    unfolding recover
    recover-IsValid now = ground arith

    pub cancelled-IsValid : (now : ℕ) → IsValid (cancelled now r)
    unfolding cancelled
    cancelled-IsValid now = ground arith

    pub succeeded_record-IsValid : (now : ℕ) → IsValid (succeeded_record now r)
    unfolding succeeded_record
    succeeded_record-IsValid now = ground arith

    pub failed_record-IsValid :
        (base maximum : ℕ) (code : Option String) (now : ℕ)
        → IsValid (failed_record base maximum code now r)
    unfolding failed_record
    failed_record-IsValid base maximum code now = ground arith
