-- ===== src/Pairing/Consume.antt =====
-- src/plaik_core/pairing.py: the section that settles an attempt, `consume`, and the enrollment
-- session.
use plaik.Prelude.{
  ℕ, ◌+◌, String, Bool, false, ◌&&◌, ◌||◌, not, Option, none, some, List, ◌∷◌, ◌++◌, ltb, ◌==◌,
  string_eq, option_beq, if◌then◌else◌,
}
use plaik.Prelude.Text.{codes, codes_eq}
use plaik.Prelude.Results.{Result, ok, err, Method}
use plaik.Prelude.Methods.{◌>>=◌, ◌>>◌, return, raise, lift, reading, changing}
use plaik.RemoteControl.Hostname.{Hostname}
use plaik.RemoteControl.Record.{
  RemoteControlIntent, RemoteControlRecord, enrollment_pending, status_beq,
}
use plaik.RemoteControl.Store.{RemoteControlStore}
use plaik.Pairing.Code.{PairingError, rejected, value_error, normalize_pairing_code}
use plaik.Pairing.Request.{PairingRequest, host_from_header, require_completed, expected_control}
use plaik.Pairing.Store.{
  Hashing, enrollment_session_ttl, StoredPairing, PairingStore, ConsumedPairing, validate_pairing,
  read, put, replace, locked_section, is_some, Verifier, after_failure,
}
use plaik.Pairing.Sections.{
  reserve, fail_if_same, or_release, same_or_rejected, consumed_pairing, is_session, unlink_if,
  released, as_unavailable,
}

module _ (hashing : Hashing) where
  -- `_hash_session`
  unfoldable pub hash_session : String → Result PairingError String
  hash_session token = elim (hashing.sha256 token) [ none ↦ err value_error | some h ↦ ok h ]

  unfoldable pub digest_of : String → Hostname → List ℕ → List ℕ → String
  digest_of installation_id control code salt =
      hashing.scrypt (codes installation_id ++ (0 ∷ (control ++ (0 ∷ code)))) salt

  -- The verifier is consumed: a session stands in its place.
  unfoldable pub consume_verifier :
      StoredPairing → ℕ → String → Method PairingError PairingStore (String × ℕ)
  unfolding hash_session validate_pairing put
  consume_verifier r now token = do
    session ← lift (hash_session token)
    v ← lift (validate_pairing value_error (consumed_pairing r session now))
    changing (put v)
    return (token, now + enrollment_session_ttl)

  -- The digest is compared with that of the verifier.
  unfoldable pub compare :
      Verifier
      → StoredPairing
      → Hostname
      → String
      → ℕ
      → String
      → Method PairingError PairingStore ConsumedPairing
  unfolding consume_verifier replace after_failure
  compare v r control digest now token =
      if digest == v.hash_hex
      then (do
        (session, expiry) ← consume_verifier r now token
        return (record {
          enrollment_session_token = session;
          enrollment_expires_at = expiry;
          control_hostname = control;
        }))
      else (do replace (after_failure r); raise rejected)

  -- An attempt is settled, by the record that was read.
  unfoldable pub commit_current :
      RemoteControlStore
      → Hostname
      → Verifier
      → String
      → ℕ
      → String
      → Option StoredPairing
      → Method PairingError PairingStore ConsumedPairing
  unfolding expected_control or_release same_or_rejected compare
  commit_current remote presented v digest now token current = do
    control ← or_release v current (expected_control remote presented)
    r ← or_release v current (same_or_rejected v control now current)
    compare v r control digest now token

  -- The section of `consume` that settles an attempt.
  unfoldable pub commit :
      RemoteControlStore
      → Hostname
      → Verifier
      → String
      → ℕ
      → String
      → Method PairingError PairingStore ConsumedPairing
  unfolding read commit_current
  commit remote presented v digest now token =
      locked_section
        (do current ← reading read; commit_current remote presented v digest now token current)

  -- `bytes.fromhex`
  unfoldable pub salt_bytes : String → Result PairingError (List ℕ)
  salt_bytes salt = elim (hashing.from_hex salt) [ none ↦ err value_error | some b ↦ ok b ]

  -- From the reservation to the result, by the code that was read.
  unfoldable pub settle_code :
      RemoteControlStore
      → Hostname
      → String
      → Verifier × Hostname
      → ℕ
      → ℕ
      → String
      → Result PairingError (List ℕ)
      → Method PairingError PairingStore ConsumedPairing
  unfolding fail_if_same salt_bytes digest_of commit
  settle_code remote presented installation_id (v, control) moment now token (err e) = do
    fail_if_same v control moment
    raise e
  settle_code remote presented installation_id (v, control) moment now token (ok code) = do
    salt ← lift (salt_bytes v.salt_hex)
    commit remote presented v (digest_of installation_id control code salt) now token

  unfoldable pub settle_attempt :
      RemoteControlStore
      → Hostname
      → PairingRequest
      → Verifier × Hostname
      → ℕ
      → ℕ
      → String
      → Method PairingError PairingStore ConsumedPairing
  unfolding normalize_pairing_code settle_code
  settle_attempt remote presented request reserved moment now token =
      settle_code remote presented request.installation_id reserved moment now token
        (normalize_pairing_code request.code)

  -- `consume`. Between its sections other processes run: they leave the store that `others` gives,
  -- and the remote control may have changed.
  unfoldable pub consume :
      RemoteControlStore
      → RemoteControlStore
      → (PairingStore → PairingStore)
      → PairingRequest
      → ℕ
      → ℕ
      → String
      → Method PairingError PairingStore ConsumedPairing
  unfolding require_completed host_from_header reserve settle_attempt released as_unavailable
  consume before remote others request moment now token q =
      let body = (do
        lift (require_completed request.install_state)
        presented ← lift (host_from_header (some request.host))
        reserved ← reserve before presented request moment
        changing others
        released reserved.0 (settle_attempt remote presented request reserved moment now token)) in
      (as_unavailable (body q).0, (body q).1)

  abbrev session_intent : Option RemoteControlIntent → Option Hostname
  session_intent none = none
  session_intent (some intent) = some intent.control_hostname

  abbrev before_expiry : ℕ → Option ℕ → Bool
  before_expiry now none = false
  before_expiry now (some expiry) = ltb now expiry

  -- The record has a session of the installation and the hostname that has not expired.
  unfoldable session_open : String → Hostname → ℕ → StoredPairing → Bool
  session_open installation_id control now r =
      is_some r.consumed_at
      && is_some r.enrollment_session_hash_hex
      && before_expiry now r.enrollment_expires_at
      && r.installation_id == installation_id
      && r.control_hostname == control

  unfoldable session_matches :
      String → Option StoredPairing → String → Hostname → ℕ → Result PairingError Bool
  unfolding session_open hash_session
  session_matches token none installation_id control now = ok false
  session_matches token (some r) installation_id control now =
      if session_open installation_id control now r
      then elim (hash_session token) [
        | err e ↦ err e
        | ok h ↦ ok (option_beq (some h) r.enrollment_session_hash_hex)
      ]
      else ok false

  unfoldable enrollment_session_valid :
      String → RemoteControlRecord → String → ℕ → PairingStore → Result PairingError Bool
  unfolding read session_matches
  enrollment_session_valid token remote installation_id now q =
      if not (status_beq remote.status enrollment_pending) || token == ""
      then ok false
      else elim (session_intent remote.intent) [
        | none ↦ ok false
        | some control ↦ elim (read q) [
          | err e ↦ err e
          | ok current ↦ session_matches token current installation_id control now
        ]
      ]

  unfoldable pub destroy_after_passkey :
      String → Hostname → String → Method PairingError PairingStore (Unit {0})
  unfolding hash_session read unlink_if
  destroy_after_passkey installation_id control token = do
    session ← lift (hash_session token)
    locked_section
        (do current ← reading read; unlink_if (is_session installation_id control session current))
