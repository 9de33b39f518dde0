-- ===== src/Lib.antt =====
-- The durable kernel of PLAIK Core: how jobs, privileged operations and cached values keep their
-- promises when calls race, workers stop and files are tampered with. The paths below are from the
-- repository's root.
--
-- The parts and their files:
--   Prelude     tests on numbers and text, equality as an interface, lists, dictionaries in their
--               insertion order, stable sorting, results, date-times.
--   Jobs        src/plaik_core/jobs.py, `DurableJobQueue`. Record has the job record, its checks
--               and each update of one; Registry the settings, the registry file (`_read`,
--               `_write`) and a transaction under its lock; Changes what each operation does
--               between the read and the write; Queue the public operations `enqueue`,
--               `cancel_owner`, `claim`, `succeed`, `fail`, `leased`, `purge_terminal` and
--               `records`, with `_finish`. The other files prove: Validity and Consistency the
--               invariant of a registry, Invariant and Preservation that it is kept, Selection and
--               Claiming the choice of a job, Leases the jobs left alone, Outcomes, Returned and
--               Writes what a call that returned did, Fencing, Idempotency and Retention the rest.
--   Journal     src/plaik_core/operation_journal.py, `OperationJournal`. Event has events and the
--               state machine `_apply_event`; File the verification of the file, `_new_event` and
--               `_append_line`; Operations `begin`, `retry`, `succeed`, `fail` and the queries.
--               Chain, Sanity, Durability and Recording prove; Calls follows any calls.
--   Cache       src/plaik_core/cache.py, `NamespacedTTLCache`. Cache has the state and the locked
--               helpers, Operations the public operations, each as its critical sections,
--               Interleaving the sections that threads run in any order. Generations,
--               Singleflight and Bounds prove.
--   Packages    src/plaik_core/dependencies.py and packages.py. Manifest has what the code reads of a
--               manifest; Dependencies the checks of a graph and the search `visit` of
--               `resolve_install_order`, and `resolve_capabilities`; Registry the file and the
--               operations of `PackageRegistry`. Below Dependencies, Search, Precedence, Order and
--               Resolution prove the order, Bound, Acyclic and Termination that the search ends,
--               Graph and Compatibility what a resolution accepts, Capabilities what the table of
--               providers decides. Below Registry, Lookups, Together, Steps, Preservation,
--               Protection and Enabling follow the records through any calls.
--   RemoteControl src/plaik_core/remote_control.py. Hostname has `validate_dns_hostname`, Record the
--               intent, the record, their validators and the surfaces, Store the file and the
--               methods of `RemoteControlStore`, Plan `GatewayPlan` and `plan_for`. Hostname/Normal
--               and Validity prove that what was accepted is accepted again; Transition has the
--               steps of the record, Steps, Runs and Observation follow any calls.
--   Pairing     src/plaik_core/pairing.py. Code has the pairing code, Request the checks of a request,
--               Store the record and its updates, Sections and Consume the sections of `consume`,
--               each under the lock, and the enrollment session, Issue `issue`, Guesses the
--               sections that processes run in any order. Held, Attempts, Consumption, with
--               Reservation and Pairs, and Readback prove.
--   PackageSql  src/plaik_core/package_sql_recovery.py and package_prepared_transactions.py. Evidence
--               has the evidence of a participant, its record and the recovery decision, and proves.
--   Installer   src/plaik_core/installer.py, `InstallStateStore`; Forward proves.
--   HealthIssues src/plaik_core/health_issues.py, `HealthIssueRegistry`: `report` with
--               `_evict_one_locked`, `issues` and `clear`; Eviction proves.
-- The package registry calls the resolver, and its invariant is what the resolver establishes. The
-- methods of the remote control ask for the installer's last state, and pairing asks for that state
-- and reads the store of the remote control. The other parts do not call each
-- other: each owns its state, and they share Prelude only.
--
-- How the code is read:
--   * A method takes the object's state and returns its result with the new state, also when it
--     raises. An exception is an error of the part's own type.
--   * An instant is a number of microseconds of UTC and a date-time is aware or naive. The reading
--     of the clock and the draw of `uuid4` are arguments of a call, so that they are any values.
--   * A dictionary is a list of its items in insertion order. The registry file is written with its
--     ids sorted.
--   * A regular expression is written out as tests of character classes and bounds of lengths.
--   * `isinstance` checks of arguments hold by the types of the model.
--   * A file that is held under its lock changes by the call alone; a line of the journal is
--     the bytes that it has, which are decoded when it is read, or is torn: it has no newline. Lines
--     are kept oldest first, events newest first.
--   * The writing of a journal's line may fail before a byte is written, after some are, or after
--     all are (`Writing`), and how it goes is an argument of a call, any value.
--   * A hostname is the list of its code points. `casefold` is written out where its result is ASCII:
--     a hostname with any other character is refused. Where pydantic collects the errors of several
--     fields, the model has the first.
--   * `str.upper` of a pairing code is written out for the characters whose capitals have a character
--     of a code, which are all that the check keeps. The instants of the pairing record are aware.
--   * Between the sections of one `consume` other processes run: the store that they leave, and the
--     remote control that is read the second time, are any. The password that is hashed is given as
--     code points.
--   * In the cache the clock and the time to live are whole numbers.
--
-- Parameters: `satisfies` is the `packaging` library's test of a version against a specifier, which
-- is taken not to raise; `safe_payload` is the validation and copy of a payload and `same` the
-- comparison of two payloads; the signature of an event, the bytes written for it, the event that
-- bytes are decoded to and their number are a `Codec`, by which what was written for an event is
-- decoded to it; scrypt, SHA-256 and the hex digits of bytes are a `Hashing`; the role of a package
-- in the database and the digest of a participant are a `Naming`. That payloads equal themselves,
-- and that two signatures do not collide, are hypotheses where a theorem wants them.
--
-- The loop of `report` has as many rounds as there are issues, each of which deletes one, so that
-- they are enough. The search of an install order has one round more than there are packages: each
-- level adds a package to those being visited. No other function has fuel: each recursion is on a
-- list, and the retry delay is the doubling written as a power, with the bound taken after it. An
-- attempt whose delay is too large for a `timedelta`, or whose next time is after the last date,
-- raises (`overflow`): an instant counts from the first year. The dates of the other operations do
-- not overflow in the model.
--
-- Not modelled: locking, descriptors, permissions and directory syncs, JSON, HMAC, the validation of
-- records by pydantic where a file was edited by hand (that of the remote control is modelled), the waiting for another thread's producer,
-- `DelegatingJobQueue`, `JobRunner` and `JobDrainPump`, and the other components of the kernel.
pub mod Prelude
pub mod Jobs
pub mod Journal
pub mod Cache
pub mod Packages
pub mod Installer
pub mod RemoteControl
pub mod Pairing
pub mod PackageSql
pub mod HealthIssues
