-- ===== src/Jobs/Record.antt =====
-- src/plaik_core/jobs.py: job records, the checks of arguments, and what each operation does to
-- the one record that it changes. Times are in microseconds.
use plaik.Prelude.{
  ℕ, ◌+◌, ◌-◌, ◌*◌, ◌^◌, min, String, Bool, true, false, ◌&&◌, ◌||◌, Option, none, some, List, [],
  ◌∷◌, leb, nat_beq, if◌then◌else◌,
}
use plaik.Prelude.Text.{codes, lower, digit, alphanumeric, head_tail, kebab}
use plaik.Prelude.Results.{Result, guard}

-- The exceptions. `bound_elsewhere` to `unsupported_registry` are `JobQueueError`s.
pub data JobError : Type 0 where
  invalid_job_type invalid_owner invalid_worker_id invalid_idempotency_key : JobError
  naive_timestamp invalid_attempts invalid_lease invalid_error_code : JobError
  invalid_fencing_token invalid_limit : JobError
  bound_elsewhere capacity_exhausted missing_job not_owner stale_token lease_expired : JobError
  unsafe_payload malformed_registry unsupported_registry missing_context : JobError
  overflow : JobError

-- `except JobQueueError`
unfoldable pub is_queue_error : JobError → Bool
is_queue_error invalid_job_type = false
is_queue_error invalid_owner = false
is_queue_error invalid_worker_id = false
is_queue_error invalid_idempotency_key = false
is_queue_error naive_timestamp = false
is_queue_error invalid_attempts = false
is_queue_error invalid_lease = false
is_queue_error invalid_error_code = false
is_queue_error invalid_fencing_token = false
is_queue_error invalid_limit = false
is_queue_error overflow = false
is_queue_error _ = true

pub data JobStatus : Type 0 where
  queued running succeeded failed : JobStatus

abbrev pub is_queued : JobStatus → Bool
is_queued queued = true
is_queued _ = false

abbrev pub is_running : JobStatus → Bool
is_running running = true
is_running _ = false

-- `status in {QUEUED, RUNNING}`
abbrev pub is_open : JobStatus → Bool
is_open queued = true
is_open running = true
is_open _ = false

-- A job over the type `P` of JSON objects.
pub record JobRecord (P : Type 0) : Type 0 where
  pub id : String
  pub type : String
  pub idempotency_key : String
  pub payload : P
  pub status : JobStatus
  pub attempts : ℕ
  pub maximum_attempts : ℕ
  pub scheduled_at : ℕ
  pub created_at : ℕ
  pub updated_at : ℕ
  pub lease_owner : Option String
  pub lease_expires_at : Option ℕ
  pub fencing_token : ℕ
  pub error_code : Option String

-- `[a-z0-9._-]` and the classes of the other patterns.
type_tail : ℕ → Bool
type_tail c = lower c || digit c || nat_beq c b'.' || nat_beq c b'_' || nat_beq c b'-'

worker_tail : ℕ → Bool
worker_tail c =
    alphanumeric c || nat_beq c b'.' || nat_beq c b'_' || nat_beq c b':' || nat_beq c b'-'

key_tail : ℕ → Bool
unfolding worker_tail
key_tail c = worker_tail c || nat_beq c b'/'

-- `[a-z0-9-]{1,63}\.[a-z][a-z0-9._-]{1,95}$`, with the characters before the dot counted.
job_type_rest : ℕ → List ℕ → Bool
unfolding type_tail head_tail
job_type_rest n [] = false
job_type_rest n (c ∷ s) =
    let more = job_type_rest (n + 1) s in
    let name = head_tail lower type_tail 1 95 s in
    if nat_beq c b'.'
    then leb 1 n && leb n 63 && name
    else (lower c || digit c || nat_beq c b'-') && more

matches_job_type : List ℕ → Bool
unfolding job_type_rest
matches_job_type [] = false
matches_job_type (c ∷ s) = lower c && job_type_rest 0 s

unfoldable pub validate_job_type : String → Result JobError (Unit {0})
unfolding matches_job_type
validate_job_type value = guard (matches_job_type (codes value)) invalid_job_type

unfoldable pub validate_owner : String → Result JobError (Unit {0})
unfolding kebab
validate_owner owner = guard (kebab (codes owner)) invalid_owner

unfoldable pub validate_worker_id : String → Result JobError (Unit {0})
unfolding worker_tail head_tail
validate_worker_id value =
    guard (head_tail alphanumeric worker_tail 2 127 (codes value)) invalid_worker_id

unfoldable pub validate_idempotency_key : String → Result JobError (Unit {0})
unfolding key_tail head_tail
validate_idempotency_key value =
    guard (head_tail alphanumeric key_tail 7 255 (codes value)) invalid_idempotency_key

unfoldable pub validate_error_code : String → Result JobError (Unit {0})
unfolding type_tail head_tail
validate_error_code value = guard (head_tail lower type_tail 1 127 (codes value)) invalid_error_code

-- `timedelta.max` in microseconds, and `datetime.max` in microseconds of the first year's begin.
abbrev pub longest_delay : ℕ
longest_delay = 86399999999999999999

abbrev pub last_instant : ℕ
last_instant = 315537897599999999

module _ {P : Type 0} where
  -- The record that `enqueue` adds.
  unfoldable pub new_record : String → String → String → P → ℕ → ℕ → ℕ → JobRecord P
  new_record fresh job_type idempotency_key payload maximum_attempts due timestamp = record {
    id = fresh;
    type = job_type;
    idempotency_key = idempotency_key;
    payload = payload;
    status = queued;
    attempts = 0;
    maximum_attempts = maximum_attempts;
    scheduled_at = due;
    created_at = timestamp;
    updated_at = timestamp;
    lease_owner = none;
    lease_expires_at = none;
    fencing_token = 0;
    error_code = none;
  }

  -- The record after `claim`.
  unfoldable pub claimed : String → ℕ → ℕ → JobRecord P → JobRecord P
  claimed worker lease now r = record r {
    status = running;
    attempts = r.attempts + 1;
    updated_at = now;
    lease_owner = some worker;
    lease_expires_at = some (now + lease);
    fencing_token = r.fencing_token + 1;
    error_code = none;
  }

  -- The lease of a running job has run out.
  unfoldable pub expired : ℕ → JobRecord P → Bool
  expired now r =
      is_running r.status && elim r.lease_expires_at [ none ↦ false | some t ↦ leb t now ]

  -- `_recover_expired`, at one record.
  unfoldable pub recover : ℕ → JobRecord P → JobRecord P
  unfolding expired
  recover now r =
      if expired now r
      then record r {
        status = if leb r.maximum_attempts r.attempts then failed else queued;
        scheduled_at = now;
        updated_at = now;
        lease_owner = none;
        lease_expires_at = none;
        error_code = some "job.lease_expired";
      }
      else r

  -- The record that `cancel_owner` fails.
  unfoldable pub cancelled : ℕ → JobRecord P → JobRecord P
  cancelled now r = record r {
    status = failed;
    updated_at = now;
    lease_owner = none;
    lease_expires_at = none;
    error_code = some "job.owner_inactive";
  }

  unfoldable pub succeeded_record : ℕ → JobRecord P → JobRecord P
  succeeded_record now r = record r {
    status = succeeded;
    updated_at = now;
    lease_owner = none;
    lease_expires_at = none;
    error_code = none;
  }

  -- The delay of a retry and the time after it are values of `timedelta` and `datetime`; if not,
  -- computing them raises `OverflowError`.
  unfoldable pub retry_fits : ℕ → ℕ → ℕ → JobRecord P → Bool
  retry_fits base_delay maximum_delay now r =
      let delay = base_delay * 2 ^ (r.attempts - 1) in
      leb r.maximum_attempts r.attempts
      || (leb delay longest_delay && leb (now + min delay maximum_delay) last_instant)

  -- A failed attempt is the last one, or is tried again after a doubling delay.
  unfoldable pub failed_record : ℕ → ℕ → Option String → ℕ → JobRecord P → JobRecord P
  failed_record base_delay maximum_delay error_code now r =
      if leb r.maximum_attempts r.attempts
      then record r {
        status = failed;
        updated_at = now;
        lease_owner = none;
        lease_expires_at = none;
        error_code = error_code;
      }
      else record r {
        status = queued;
        scheduled_at = now + min (base_delay * 2 ^ (r.attempts - 1)) maximum_delay;
        updated_at = now;
        lease_owner = none;
        lease_expires_at = none;
        error_code = error_code;
      }
