-- ===== src/Pairing/Sections.antt =====
-- src/plaik_core/pairing.py: the sections of `consume` that need no hash function.
use plaik.Prelude.{
  ℕ, ◌+◌, String, Bool, true, false, ◌&&◌, not, Option, none, some, ltb, nat_beq, ◌==◌, string_eq,
  option_beq, if◌then◌else◌,
}
use plaik.Prelude.Text.{codes_eq}
use plaik.Prelude.Results.{Result, ok, err, Method}
use plaik.Prelude.Methods.{◌>>=◌, ◌>>◌, return, raise, lift, reading, changing, assert}
use plaik.RemoteControl.Hostname.{Hostname}
use plaik.RemoteControl.Store.{RemoteControlStore}
use plaik.Pairing.Code.{
  PairingError, denied, rejected, issue_unavailable, store_unavailable, value_error,
}
use plaik.Pairing.Request.{PairingRequest, request_checks}
use plaik.Pairing.Store.{
  enrollment_session_ttl, in_flight_lease, max_failed_attempts, StoredPairing, absent, PairingStore,
  validate_pairing, read, put, replace, locked_section, effective_in_flight, Verifier,
  release_inflight, after_failure, live, same_live, live_record,
}

-- A reservation that outlived its lease is dropped.
unfoldable pub expire_inflight :
    ℕ → Option StoredPairing → Method PairingError PairingStore (Option StoredPairing)
unfolding validate_pairing effective_in_flight put
expire_inflight moment none = return none
expire_inflight moment (some r) =
    if nat_beq (effective_in_flight r moment) 0 && not (nat_beq r.in_flight 0)
    then (do
      v ← lift (validate_pairing value_error (record r { in_flight = 0; in_flight_until = none }))
      changing (put v)
      return (some v))
    else return (some r)

abbrev pub verifier_of : Option String → Option String → String → Result PairingError Verifier
verifier_of none hash installation_id = err rejected
verifier_of (some salt) none installation_id = err rejected
verifier_of (some salt) (some hash) installation_id =
    ok (record { salt_hex = salt; hash_hex = hash; installation_id = installation_id })

-- One attempt is reserved, and its verifier returned.
unfoldable pub reserve_attempt :
    ℕ → Option StoredPairing → Method PairingError PairingStore Verifier
unfolding effective_in_flight replace
reserve_attempt moment none = raise rejected
reserve_attempt moment (some r) = do
  assert (ltb (r.failed_attempts + effective_in_flight r moment) max_failed_attempts) rejected
  v ← lift (verifier_of r.code_salt_hex r.code_hash_hex r.installation_id)
  replace
      (record r { in_flight = r.in_flight + 1; in_flight_until = some (moment + in_flight_lease) })
  return v

-- The reservation, of a record that was read: the verifier, and the hostname that was expected.
unfoldable pub reserve_current :
    PairingRequest
    → Hostname
    → ℕ
    → Option StoredPairing
    → Method PairingError PairingStore (Verifier × Hostname)
unfolding expire_inflight reserve_attempt live_record
reserve_current request control moment stored = do
  current ← expire_inflight moment stored
  v ← reserve_attempt moment (live request.installation_id control moment current)
  return (v, control)

-- The first section of `consume`.
unfoldable pub reserve :
    RemoteControlStore
    → Hostname
    → PairingRequest
    → ℕ
    → Method PairingError PairingStore (Verifier × Hostname)
unfolding request_checks read reserve_current
reserve remote presented request moment = locked_section (do
  control ← lift (request_checks remote presented request)
  stored ← reading read
  reserve_current request control moment stored)

unfoldable pub fail_current :
    Verifier
    → Option StoredPairing
    → Option StoredPairing
    → Method PairingError PairingStore (Unit {0})
unfolding replace after_failure release_inflight
fail_current v current none = release_inflight v current
fail_current v current (some r) = replace (after_failure r)

-- `_fail_if_same_verifier`
unfoldable pub fail_if_same : Verifier → Hostname → ℕ → Method PairingError PairingStore (Unit {0})
unfolding read fail_current live_record
fail_if_same v control now =
    locked_section
      (do current ← reading read; fail_current v current (same_live v control now current))

-- `PairingDenied` and `PairingRejected`: what a request is answered, and not a failure of the store.
abbrev pub is_refusal : PairingError → Bool
is_refusal denied = true
is_refusal rejected = true
is_refusal issue_unavailable = false
is_refusal store_unavailable = false
is_refusal value_error = false

-- A refusal gives the reservation back before it is raised.
unfoldable pub or_release :
    {A : Type 0}
    → Verifier
    → Option StoredPairing
    → Result PairingError A
    → Method PairingError PairingStore A
unfolding release_inflight
or_release v current (ok a) = return a
or_release v current (err e) =
    if is_refusal e then (do release_inflight v current; raise e) else raise e

unfoldable pub same_or_rejected :
    Verifier → Hostname → ℕ → Option StoredPairing → Result PairingError StoredPairing
unfolding live_record
same_or_rejected v control now current = elim (same_live v control now current) [
  | none ↦ err rejected
  | some r ↦ ok r
]

unfoldable pub release_section : Verifier → Method PairingError PairingStore (Unit {0})
unfolding read release_inflight
release_section v = locked_section (do current ← reading read; release_inflight v current)

-- The record of a consumed code.
abbrev pub consumed_pairing : StoredPairing → String → ℕ → StoredPairing
consumed_pairing r session now = record {
  installation_id = r.installation_id;
  control_hostname = r.control_hostname;
  code_salt_hex = none;
  code_hash_hex = none;
  issued_at = r.issued_at;
  expires_at = r.expires_at;
  consumed_at = some now;
  failed_attempts = r.failed_attempts;
  in_flight = 0;
  in_flight_until = none;
  locked = false;
  enrollment_session_hash_hex = some session;
  enrollment_expires_at = some (now + enrollment_session_ttl);
}

abbrev pub is_session : String → Hostname → String → Option StoredPairing → Bool
is_session installation_id control session none = false
is_session installation_id control session (some r) =
    r.installation_id == installation_id
    && r.control_hostname == control
    && option_beq r.enrollment_session_hash_hex (some session)

unfoldable pub unlink_if : Bool → Method PairingError PairingStore (Unit {0})
unlink_if true = changing (λ q. record q { file = absent })
unlink_if false = return tt

-- `finally`: an attempt that was not settled gives its reservation back.
unfoldable pub after_attempt :
    {A : Type 0} → Verifier → Result PairingError A → Method PairingError PairingStore A
unfolding release_section
after_attempt v (ok a) = return a
after_attempt v (err e) = if is_refusal e then raise e else (do release_section v; raise e)

unfoldable pub released :
    {A : Type 0}
    → Verifier
    → Method PairingError PairingStore A
    → Method PairingError PairingStore A
unfolding after_attempt
released v body q = after_attempt v (body q).0 (body q).1

-- Errors of the store are one error.
unfoldable pub as_unavailable : {A : Type 0} → Result PairingError A → Result PairingError A
as_unavailable (ok a) = ok a
as_unavailable (err denied) = err denied
as_unavailable (err rejected) = err rejected
as_unavailable (err issue_unavailable) = err issue_unavailable
as_unavailable (err store_unavailable) = err store_unavailable
as_unavailable (err value_error) = err store_unavailable
