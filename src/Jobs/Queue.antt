-- ===== src/Jobs/Queue.antt =====
-- src/plaik_core/jobs.py, `DurableJobQueue`: the operations. Each checks its arguments and then
-- runs a transaction on the registry file.
use plaik.Prelude.{ℕ, String, Bool, true, false, ◌&&◌, Option, none, some, leb, string_eq}
use Prim.Native.String.{◌++◌}
use plaik.Prelude.Items.{sort_items}
use plaik.Prelude.Results.{Result, ok, guard, ◌>>=◌, ◌>>◌, Method, checked}
use plaik.Prelude.Time.{DateTime, or_now, as_utc}
use plaik.Jobs.Record.{
  JobError, naive_timestamp, invalid_attempts, invalid_lease, invalid_fencing_token, invalid_limit,
  JobRecord, validate_job_type, validate_owner, validate_worker_id, validate_idempotency_key,
  validate_error_code,
}
use plaik.Jobs.Registry.{Records, DurableJobQueue, read, operate}
use plaik.Jobs.Changes.{
  enqueue_change, cancel_change, claim_change, finish_change, leased_change, purge_change,
}

abbrev pub maximum_terminal_purge_batch : ℕ
maximum_terminal_purge_batch = 1000

abbrev pub second : ℕ
second = 1000000

abbrev pub hour : ℕ
hour = 3600000000

-- The arguments of `enqueue`, over the type of the payloads that callers pass.
pub record EnqueueArguments (Raw : Type 0) : Type 0 where
  pub job_type : String
  pub payload : Raw
  pub idempotency_key : String
  pub maximum_attempts : ℕ
  pub scheduled_at : Option DateTime
  pub now : Option DateTime

-- The clock's reading at a call, and the identifier that `uuid4` draws.
pub record Environment : Type 0 where
  pub clock : ℕ
  pub fresh : String

timestamp_of : Option DateTime → Environment → Result JobError ℕ
unfolding as_utc
timestamp_of now env = as_utc naive_timestamp (or_now now env.clock)

module _ {P Raw : Type 0} (safe_payload : Raw → Result JobError P) where
  -- The checks of `enqueue`: the payload's copy, the timestamp and the due time.
  unfoldable pub enqueue_checks : EnqueueArguments Raw → Environment → Result JobError (P × ℕ × ℕ)
  unfolding timestamp_of
  enqueue_checks a env = do
    validate_job_type a.job_type
    validate_idempotency_key a.idempotency_key
    payload ← safe_payload a.payload
    timestamp ← timestamp_of a.now env
    due ← as_utc naive_timestamp (or_now a.scheduled_at timestamp)
    guard (leb 1 a.maximum_attempts && leb a.maximum_attempts 32) invalid_attempts
    ok (payload, timestamp, due)

  unfoldable pub enqueue :
      (P → P → Bool)
      → EnqueueArguments Raw
      → Environment
      → Method JobError (DurableJobQueue P) (JobRecord P)
  unfolding enqueue_checks
  enqueue same a env = operate (enqueue_checks a env) λ checks.
      enqueue_change same env.fresh a.job_type a.idempotency_key checks.0 a.maximum_attempts
        checks.2 checks.1

unfoldable pub owner_checks : String → Option DateTime → Environment → Result JobError ℕ
unfolding timestamp_of
owner_checks owner now env = do validate_owner owner; timestamp_of now env

unfoldable pub claim_checks : String → ℕ → Option DateTime → Environment → Result JobError ℕ
unfolding timestamp_of
claim_checks worker lease now env = do
  validate_worker_id worker
  guard (leb second lease && leb lease hour) invalid_lease
  timestamp_of now env

-- The checks of `_finish` and of `leased`.
unfoldable pub worker_checks : String → ℕ → Option DateTime → Environment → Result JobError ℕ
unfolding timestamp_of
worker_checks worker token now env = do
  validate_worker_id worker
  guard (leb 1 token) invalid_fencing_token
  timestamp_of now env

unfoldable pub purge_checks : DateTime → ℕ → Result JobError ℕ
unfolding as_utc
purge_checks before limit = do
  cutoff ← as_utc naive_timestamp before
  guard (leb 1 limit && leb limit maximum_terminal_purge_batch) invalid_limit
  ok cutoff

module _ {P : Type 0} where
  unfoldable pub cancel_owner :
      String → Option DateTime → Environment → Method JobError (DurableJobQueue P) ℕ
  unfolding owner_checks
  cancel_owner owner now env = operate (owner_checks owner now env) (cancel_change (owner ++ "."))

  unfoldable pub claim :
      String
      → ℕ
      → Option DateTime
      → Environment
      → Method JobError (DurableJobQueue P) (Option (JobRecord P))
  unfolding claim_checks
  claim worker lease now env =
      operate (claim_checks worker lease now env) (claim_change worker lease)

  -- `_finish`
  unfoldable pub finish :
      String
      → String
      → ℕ
      → Bool
      → Option String
      → Option DateTime
      → Environment
      → Method JobError (DurableJobQueue P) (JobRecord P)
  unfolding worker_checks
  finish job_id worker token success error_code now env =
      operate (worker_checks worker token now env)
        (finish_change job_id worker token success error_code)

  unfoldable pub succeed :
      String
      → String
      → ℕ
      → Option DateTime
      → Environment
      → Method JobError (DurableJobQueue P) (JobRecord P)
  unfolding finish
  succeed job_id worker token now env = finish job_id worker token true none now env

  unfoldable pub fail :
      String
      → String
      → ℕ
      → String
      → Option DateTime
      → Environment
      → Method JobError (DurableJobQueue P) (JobRecord P)
  unfolding finish
  fail job_id worker token error_code now env =
      checked (validate_error_code error_code)
        λ _. finish job_id worker token false (some error_code) now env

  unfoldable pub leased :
      String
      → String
      → ℕ
      → Option DateTime
      → Environment
      → Method JobError (DurableJobQueue P) (Option (JobRecord P))
  unfolding worker_checks
  leased job_id worker token now env =
      operate (worker_checks worker token now env) (leased_change job_id worker token)

  unfoldable pub purge_terminal : DateTime → ℕ → Method JobError (DurableJobQueue P) ℕ
  unfolding purge_checks
  purge_terminal before limit =
      operate (purge_checks before limit) (λ cutoff. purge_change cutoff limit)

  -- `records()`: the records in the order of their ids.
  unfoldable pub records : Method JobError (DurableJobQueue P) (Records P)
  unfolding read
  records q = (read q.file >>= λ jobs. ok (sort_items jobs), q)
