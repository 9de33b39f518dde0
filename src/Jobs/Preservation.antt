-- ===== src/Jobs/Preservation.antt =====
-- src/plaik_core/jobs.py, `DurableJobQueue`: after any sequence of operations, those that raise
-- included, the registry is consistent.
use plaik.Prelude.{
  ℕ, ◌≤◌, ◌≡◌, refl, String, Bool, true, false, Option, none, some, List, [], ◌∷◌, arith,
}
use plaik.Prelude.Results.{Result, ok, err, ◌>>=◌, checked}
use plaik.Prelude.Items.{sort_items}
use plaik.Prelude.Time.{DateTime}
use plaik.Jobs.Record.{JobError}
use plaik.Jobs.Registry.{Records, DurableJobQueue, Change, read, write, commit, transact, operate}
use plaik.Jobs.Consistency.{IsConsistent, sort_items-IsConsistent}
use plaik.Jobs.Invariant.{Writes, enqueue_change-Writes, cancel_change-Writes}
use plaik.Jobs.Writes.{
  claim_change-Writes, finish_change-Writes, leased_change-Writes, purge_change-Writes,
}
use plaik.Jobs.Queue.{
  EnqueueArguments, Environment, enqueue_checks, enqueue, cancel_owner, claim, finish, succeed,
  fail, leased, purge_terminal,
}

module _ {P : Type 0} where
  -- If the registry can be read, its records are consistent.
  pub record Holds (q : DurableJobQueue P) : Type 0 where
    pub at : (m : Records P) → read q.file ≡ ok m → IsConsistent q.maximum_records m

  read-write : (m : Records P) → read (write m) ≡ ok (sort_items m)
  unfolding read write
  read-write m = refl

  written_holds :
      (q : DurableJobQueue P) (m n : Records P)
      → IsConsistent q.maximum_records m
      → read (write m) ≡ ok n
      → IsConsistent q.maximum_records n
  written_holds q m n c e =
      let same : sort_items m ≡ n = ground (arith, read-write m) in
      rw (← same) (sort_items-IsConsistent q.maximum_records m c)

  commit-Holds :
      {A : Type 0} (c : Change P A) (q : DurableJobQueue P)
      → Writes q.maximum_records c
      → Holds q
      → Holds (commit c q).1
  commit-Holds (err e) q w h = h
  commit-Holds (ok (a, none)) q w h = h
  commit-Holds (ok (a, some m)) q w h = record {
    at = λ n e. written_holds q m n (w.consistent a m refl) e;
  }

  transact-Holds :
      {A : Type 0} (body : DurableJobQueue P → Records P → Change P A) (q : DurableJobQueue P)
      → ((m : Records P) → IsConsistent q.maximum_records m → Writes q.maximum_records (body q m))
      → Holds q
      → Holds (transact body q).1
  unfolding transact
  transact-Holds body q step h = commit-Holds (read q.file >>= body q) q (go (read q.file) refl) h
    where
      go :
          (r : Result JobError (Records P))
          → read q.file ≡ r
          → Writes q.maximum_records (r >>= body q)
      go (err x) e = record { consistent = λ a m p. cc }
      go (ok m) e = step m (h.at m e)

  operate-Holds :
      {A B : Type 0} (r : Result JobError A) (body : A → DurableJobQueue P → Records P → Change P B)
      (q : DurableJobQueue P)
      → ((a : A) (m : Records P)
          → r ≡ ok a
          → IsConsistent q.maximum_records m
          → Writes q.maximum_records (body a q m))
      → Holds q
      → Holds (operate r body q).1
  unfolding operate
  operate-Holds (ok a) body q step h = transact-Holds (body a) q (λ m. step a m refl) h
  operate-Holds (err x) body q step h = h

  module _ (q : DurableJobQueue P) (h : Holds q) where
    pub cancel_owner-Holds :
        (owner : String) (now : Option DateTime) (env : Environment)
        → Holds (cancel_owner owner now env q).1
    unfolding cancel_owner
    cancel_owner-Holds owner now env = operate-Holds _ _ q (λ t m e. cancel_change-Writes _ t q m) h

    pub claim-Holds :
        (worker : String) (lease : ℕ) (now : Option DateTime) (env : Environment)
        → Holds (claim worker lease now env q).1
    unfolding claim
    claim-Holds worker lease now env =
        operate-Holds _ _ q (λ t m e. claim_change-Writes worker lease t q m) h

    finish-Holds :
        (job_id worker : String) (token : ℕ) (success : Bool) (code : Option String)
        (now : Option DateTime) (env : Environment)
        → Holds (finish job_id worker token success code now env q).1
    unfolding finish
    finish-Holds job_id worker token success code now env =
        operate-Holds _ _ q (λ t m e. finish_change-Writes job_id worker token success code t q m) h

    checked_fail-Holds :
        (r : Result JobError (Unit {0})) (job_id worker : String) (token : ℕ) (code : String)
        (now : Option DateTime) (env : Environment)
        → Holds (checked r (λ _. finish job_id worker token false (some code) now env) q).1
    checked_fail-Holds (ok _) job_id worker token code now env =
        finish-Holds job_id worker token false (some code) now env
    checked_fail-Holds (err x) job_id worker token code now env = h

    fail-Holds :
        (job_id worker : String) (token : ℕ) (code : String) (now : Option DateTime)
        (env : Environment)
        → Holds (fail job_id worker token code now env q).1
    unfolding fail
    fail-Holds job_id worker token code now env =
        checked_fail-Holds _ job_id worker token code now env

    leased-Holds :
        (job_id worker : String) (token : ℕ) (now : Option DateTime) (env : Environment)
        → Holds (leased job_id worker token now env q).1
    unfolding leased
    leased-Holds job_id worker token now env =
        operate-Holds _ _ q (λ t m e c. leased_change-Writes job_id worker token t q m) h

    purge_terminal-Holds : (before : DateTime) (limit : ℕ) → Holds (purge_terminal before limit q).1
    unfolding purge_terminal
    purge_terminal-Holds before limit =
        operate-Holds _ _ q (λ t m e. purge_change-Writes t limit q m) h

module _ {P Raw : Type 0} (safe_payload : Raw → Result JobError P) (same : P → P → Bool) where
  attempts_checked :
      (a : EnqueueArguments Raw) (env : Environment) (c : P × ℕ × ℕ)
      → enqueue_checks safe_payload a env ≡ ok c
      → (1 ≤ a.maximum_attempts) × (a.maximum_attempts ≤ 32)
  unfolding enqueue_checks
  attempts_checked a env c h = ground arith

  pub enqueue-Holds :
      (a : EnqueueArguments Raw) (env : Environment) (q : DurableJobQueue P)
      → Holds q
      → Holds (enqueue safe_payload same a env q).1
  unfolding enqueue
  enqueue-Holds a env q h =
      operate-Holds _ _ q
        (λ c m e.
          enqueue_change-Writes same _ _ _ _ _ _ _ q m (attempts_checked a env c e).0
            (attempts_checked a env c e).1)
        h

-- A call of the queue's interface.
pub data Operation (Raw : Type 0) : Type 0 where
  enqueue_op : EnqueueArguments Raw → Environment → Operation Raw
  cancel_op : String → Option DateTime → Environment → Operation Raw
  claim_op : String → ℕ → Option DateTime → Environment → Operation Raw
  succeed_op : String → String → ℕ → Option DateTime → Environment → Operation Raw
  fail_op : String → String → ℕ → String → Option DateTime → Environment → Operation Raw
  leased_op : String → String → ℕ → Option DateTime → Environment → Operation Raw
  purge_op : DateTime → ℕ → Operation Raw

module _ {P Raw : Type 0} (safe_payload : Raw → Result JobError P) (same : P → P → Bool) where
  -- The queue after a call, whether it returned or raised.
  unfoldable pub after : Operation Raw → DurableJobQueue P → DurableJobQueue P
  after (enqueue_op a env) q = (enqueue safe_payload same a env q).1
  after (cancel_op owner now env) q = (cancel_owner owner now env q).1
  after (claim_op worker lease now env) q = (claim worker lease now env q).1
  after (succeed_op job_id worker token now env) q = (succeed job_id worker token now env q).1
  after (fail_op job_id worker token code now env) q = (fail job_id worker token code now env q).1
  after (leased_op job_id worker token now env) q = (leased job_id worker token now env q).1
  after (purge_op before limit) q = (purge_terminal before limit q).1

  unfoldable pub after_all : List (Operation Raw) → DurableJobQueue P → DurableJobQueue P
  unfolding after
  after_all [] q = q
  after_all (op ∷ ops) q = after_all ops (after op q)

  after-Holds : (op : Operation Raw) (q : DurableJobQueue P) → Holds q → Holds (after op q)
  unfolding after succeed
  after-Holds (enqueue_op a env) q h = enqueue-Holds safe_payload same a env q h
  after-Holds (cancel_op owner now env) q h = cancel_owner-Holds q h owner now env
  after-Holds (claim_op worker lease now env) q h = claim-Holds q h worker lease now env
  after-Holds (succeed_op job_id worker token now env) q h =
      finish-Holds q h job_id worker token true none now env
  after-Holds (fail_op job_id worker token code now env) q h =
      fail-Holds q h job_id worker token code now env
  after-Holds (leased_op job_id worker token now env) q h =
      leased-Holds q h job_id worker token now env
  after-Holds (purge_op before limit) q h = purge_terminal-Holds q h before limit

  -- From a queue whose registry is consistent, any calls, raising or not, leave it consistent:
  -- every record stands under its own id and is valid, no two ids share an idempotency key, and
  -- there are at most `maximum_records`.
  pub after_all-Holds :
      (ops : List (Operation Raw)) (q : DurableJobQueue P) → Holds q → Holds (after_all ops q)
  unfolding after_all
  after_all-Holds [] q h = h
  after_all-Holds (op ∷ ops) q h = after_all-Holds ops (after op q) (after-Holds op q h)
