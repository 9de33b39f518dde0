-- ===== src/Pairing/Issue.antt =====
-- src/plaik_core/pairing.py, `issue`.
use plaik.Prelude.{
  ℕ, ◌+◌, ◌≤◌, ◌≡◌, ap, subst, inl, inr, sym, String, true, false, not, none, some, List, arith,
  ◌==◌, string_eq, All,
}
use plaik.Prelude.Results.{Result, ok, err, guard, ◌>>=◌, ◌>>◌, chain_ok, Method, Result-cases}
use plaik.Installer.{InstallState, completed, state_beq, value}
use plaik.RemoteControl.Hostname.{Hostname}
use plaik.RemoteControl.Record.{RemoteControlRecord}
use plaik.Pairing.Code.{
  PairingError, issue_unavailable, value_error, format_pairing_code, normalize_pairing_code,
}
use plaik.Pairing.Request.{hostname_or, enrollment_control_hostname}
use plaik.Pairing.Store.{
  Hashing, pairing_ttl, StoredPairing, PairingStore, IssuedPairing, validate_pairing, put,
}
use plaik.Pairing.Consume.{digest_of}
use plaik.Pairing.Held.{left_of, has_room, guesses_left, is_roomy, validate_pairing-IsFixed}
use plaik.Pairing.Guesses.{Section, guesses, has_digest, guesses-le, consumptions, consumptions-le}

module _ (hashing : Hashing) where
  -- The record of a new code.
  abbrev fresh_pairing : String → Hostname → ℕ → List ℕ → List ℕ → StoredPairing
  fresh_pairing installation_id control now normalized salt = record {
    installation_id = installation_id;
    control_hostname = control;
    code_salt_hex = some (hashing.to_hex salt);
    code_hash_hex = some (digest_of hashing installation_id control normalized salt);
    issued_at = now;
    expires_at = now + pairing_ttl;
    consumed_at = none;
    failed_attempts = 0;
    in_flight = 0;
    in_flight_until = none;
    locked = false;
    enrollment_session_hash_hex = none;
    enrollment_expires_at = none;
  }

  -- Up to the lock: the code, the control hostname and the record to write. `drawn` are the
  -- characters that were drawn, `salt` the bytes.
  unfoldable pub issue_record :
      RemoteControlRecord
      → String
      → InstallState
      → ℕ
      → List ℕ
      → List ℕ
      → Result PairingError (List ℕ × Hostname × StoredPairing)
  unfolding value enrollment_control_hostname format_pairing_code normalize_pairing_code digest_of
      validate_pairing
  issue_record remote installation_id install_state now drawn salt = do
    guard (state_beq install_state completed) issue_unavailable
    control ← enrollment_control_hostname remote issue_unavailable
    guard (not (installation_id == "")) issue_unavailable
    code ← format_pairing_code drawn
    normalized ← normalize_pairing_code code
    v ← validate_pairing value_error (fresh_pairing installation_id control now normalized salt)
    ok (code, control, v)

  -- Under the lock the record is written; then the code is returned.
  abbrev written :
      Result PairingError (List ℕ × Hostname × StoredPairing)
      → Method PairingError PairingStore IssuedPairing
  unfolding put hostname_or
  written (err e) q = (err e, q)
  written (ok (code, control, v)) q = (
    (hostname_or value_error control >>= λ host. ok (record {
      code = code;
      activate_host = host;
      control_hostname = control;
      expires_at = v.expires_at;
    })),
    put v (record q { home = true }),
  )

  unfoldable pub issue :
      RemoteControlRecord
      → String
      → InstallState
      → ℕ
      → List ℕ
      → List ℕ
      → Method PairingError PairingStore IssuedPairing
  unfolding issue_record written put hostname_or
  issue remote installation_id install_state now drawn salt =
      written (issue_record remote installation_id install_state now drawn salt)

  fresh-left :
      (installation_id : String) (control : Hostname) (now : ℕ) (normalized salt : List ℕ)
      (v : StoredPairing)
      → validate_pairing value_error (fresh_pairing installation_id control now normalized salt)
        ≡ ok v
      → (left_of v ≡ 8) × (has_room v ≡ true)
  fresh-left installation_id control now normalized salt v e =
      let x = fresh_pairing installation_id control now normalized salt in
      let (named, fixed) = validate_pairing-IsFixed value_error x v e in
      (sym (ap left_of named), sym (ap has_room named))

  issue_record-left :
      (remote : RemoteControlRecord) (installation_id : String) (install_state : InstallState)
      (now : ℕ) (drawn salt code : List ℕ) (control : Hostname) (v : StoredPairing)
      → issue_record remote installation_id install_state now drawn salt ≡ ok (code, control, v)
      → (left_of v ≡ 8) × (has_room v ≡ true)
  unfolding issue_record
  issue_record-left remote installation_id install_state now drawn salt code control v e =
      let (a, b, e1) =
        chain_ok (guard (state_beq install_state completed) issue_unavailable) _ _ e in
      let (k, d, e2) = chain_ok (enrollment_control_hostname remote issue_unavailable) _ _ e1 in
      let (f, g, e3) = chain_ok (guard (not (installation_id == "")) issue_unavailable) _ _ e2 in
      let (shown, l, e4) = chain_ok (format_pairing_code drawn) _ _ e3 in
      let (n, m, e5) = chain_ok (normalize_pairing_code shown) _ _ e4 in
      let (w, o, e6) =
        chain_ok (validate_pairing value_error (fresh_pairing installation_id k now n salt)) _ _
          e5 in
      let same : w ≡ v = ground (arith, e6) in
      subst (λ (r : StoredPairing). (left_of r ≡ 8) × (has_room r ≡ true)) same
        (fresh-left installation_id k now n salt w o)

  -- What an `issue` that returns leaves: a code with eight guesses.
  issue-left :
      (remote : RemoteControlRecord) (installation_id : String) (install_state : InstallState)
      (now : ℕ) (drawn salt : List ℕ) (q : PairingStore) (i : IssuedPairing)
      → (issue remote installation_id install_state now drawn salt q).0 ≡ ok i
      → let p = (issue remote installation_id install_state now drawn salt q).1 in
        (guesses_left p.file ≡ 8) × (is_roomy p.file ≡ true)
  unfolding issue put
  issue-left remote installation_id install_state now drawn salt q i e =
      elim (Result-cases (issue_record remote installation_id install_state now drawn salt)) [
        | inr (x, f) ↦ absurd (ground (arith, e, f))
        | inl ((code, control, v), f) ↦
            rw f (
              issue_record-left remote installation_id install_state now drawn salt code control v
                f)
      ]

  -- Once `issue` has returned a code, and until a code is issued again, at most eight guesses at it
  -- are compared and at most one consumer consumes it, however the sections of the consumers are
  -- interleaved, where each token that is drawn has a digest.
  pub issue-guesses :
      (remote : RemoteControlRecord) (installation_id : String) (install_state : InstallState)
      (now : ℕ) (drawn salt : List ℕ) (q : PairingStore) (i : IssuedPairing)
      (sections : List Section)
      → (issue remote installation_id install_state now drawn salt q).0 ≡ ok i
      → All (λ s. has_digest hashing s ≡ true) sections
      → let p = (issue remote installation_id install_state now drawn salt q).1 in
        (guesses hashing sections p ≤ 8) × (consumptions hashing sections p ≤ 1)
  issue-guesses remote installation_id install_state now drawn salt q i sections e t =
      let p = (issue remote installation_id install_state now drawn salt q).1 in
      let (l, r) = issue-left remote installation_id install_state now drawn salt q i e in
      (
        subst (λ n. guesses hashing sections p ≤ n) l (guesses-le hashing sections p t r),
        consumptions-le hashing sections p t,
      )
