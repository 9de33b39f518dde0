-- ===== src/Jobs/Registry.antt =====
-- src/plaik_core/jobs.py, `DurableJobQueue`: its settings and registry file, and a transaction
-- under the file's lock.
use plaik.Prelude.{ℕ, String, Option, none, some, [], nat_beq, if◌then◌else◌}
use plaik.Prelude.Dict.{Dict}
use plaik.Prelude.Items.{sort_items}
use plaik.Prelude.Results.{Result, ok, err, ◌>>=◌, Method, checked}
use plaik.Jobs.Record.{JobError, malformed_registry, unsupported_registry, JobRecord}

abbrev pub Records : Type 0 → Type 0
Records P = Dict String (JobRecord P)

-- The registry document: absent, or a version and the jobs, unless they are no JSON object.
pub data RegistryFile (P : Type 0) : Type 0 where
  absent : RegistryFile P
  document : ℕ → Option (Records P) → RegistryFile P

pub record DurableJobQueue (P : Type 0) : Type 0 where
  pub base_retry_delay : ℕ
  pub maximum_retry_delay : ℕ
  pub maximum_records : ℕ
  pub file : RegistryFile P

abbrev pub registry_version : ℕ
registry_version = 1

-- What the code does under the lock: the result, and the records that it writes, if it writes.
abbrev pub Change : Type 0 → Type 0 → Type 0
Change P A = Result JobError (A × Option (Records P))

module _ {P : Type 0} where
  -- `_read`
  unfoldable pub read : RegistryFile P → Result JobError (Records P)
  read absent = ok []
  read (document version jobs) =
      if nat_beq version registry_version
      then elim jobs [ none ↦ err malformed_registry | some records ↦ ok records ]
      else err unsupported_registry

  -- `_write`
  unfoldable pub write : Records P → RegistryFile P
  write records = document registry_version (some (sort_items records))

  abbrev pub commit : {A : Type 0} → Change P A → Method JobError (DurableJobQueue P) A
  commit (err e) q = (err e, q)
  commit (ok (a, none)) q = (ok a, q)
  commit (ok (a, some records)) q = (ok a, record q { file = write records })

  -- `with exclusive_file_lock(self.path): records = self._read(); ...`
  unfoldable pub transact :
      {A : Type 0}
      → (DurableJobQueue P → Records P → Change P A)
      → Method JobError (DurableJobQueue P) A
  transact body q = commit (read q.file >>= body q) q

  -- An operation: checks of the arguments, and then a transaction.
  unfoldable pub operate :
      {A B : Type 0}
      → Result JobError A
      → (A → DurableJobQueue P → Records P → Change P B)
      → Method JobError (DurableJobQueue P) B
  unfolding transact
  operate checks body = checked checks (λ a. transact (body a))
