-- ===== src/Pairing/Consumption/Pairs.antt =====
-- src/plaik_core/pairing.py: what a `consume` that returns has seen and done.
use plaik.Prelude.{ℕ, ◌+◌, ◌≡◌, String, false, none, some, List, ◌∷◌, ◌++◌, string_eq}
use plaik.Prelude.Text.{codes}
use plaik.Prelude.Methods
use plaik.Prelude.Results.{ok}
use plaik.RemoteControl.Hostname.{Hostname}
use plaik.RemoteControl.Store.{RemoteControlStore}
use plaik.Installer.{completed}
use plaik.Pairing.Code.{normalize_pairing_code}
use plaik.Pairing.Request.{expected_control, PairingRequest, host_from_header}
use plaik.Pairing.Store.{
  Hashing, StoredPairing, PairingStore, ConsumedPairing, Verifier, document, read,
}
use plaik.Pairing.Consumption.Reservation.{IsLive, Reserves}
use plaik.Pairing.Sections.{reserve}

-- The code of the verifier `v` was exchanged, at `now`, for a session of the token.
pub record Exchanges (hashing : Hashing) (remote : RemoteControlStore) (presented : Hostname)
    (v : Verifier) (digest : String) (now : ℕ) (token : String) (q : PairingStore)
    (a : ConsumedPairing) (p : PairingStore) : Type 0 where
  pub current : StoredPairing
  pub was_read : read q ≡ ok (some current)
  pub is_live : IsLive v.installation_id a.control_hostname now current
  pub salt : current.code_salt_hex ≡ some v.salt_hex
  pub hash : current.code_hash_hex ≡ some v.hash_hex
  pub expected : expected_control remote presented ≡ ok a.control_hostname
  pub matches : digest ≡ v.hash_hex
  pub session : String
  pub hashed : hashing.sha256 token ≡ some session
  pub given : a.enrollment_session_token ≡ token
  pub expires : a.enrollment_expires_at ≡ now + 900000000
  pub left : p ≡ record q {
    file = document (record current {
      code_salt_hex = none;
      code_hash_hex = none;
      consumed_at = some now;
      in_flight = 0;
      in_flight_until = none;
      locked = false;
      enrollment_session_hash_hex = some session;
      enrollment_expires_at = some (now + 900000000);
    });
  }

-- A `consume` that returns `a` and leaves `p`.
pub record Pairs (hashing : Hashing) (before remote : RemoteControlStore)
    (others : PairingStore → PairingStore) (request : PairingRequest) (moment now : ℕ)
    (token : String) (q : PairingStore) (a : ConsumedPairing) (p : PairingStore) : Type 0 where
  pub installed : request.install_state ≡ completed
  pub presented : Hostname
  pub host : host_from_header (some request.host) ≡ ok presented
  pub verifier : Verifier
  pub control : Hostname
  pub reserved : Reserves before presented request moment q verifier control
  pub code : List ℕ
  pub read_code : normalize_pairing_code request.code ≡ ok code
  pub salt : List ℕ
  pub salted : hashing.from_hex verifier.salt_hex ≡ some salt
  pub exchanged :
      Exchanges hashing remote presented verifier
        (hashing.scrypt (codes request.installation_id ++ (0 ∷ (control ++ (0 ∷ code)))) salt)
        now
        token
        (others (reserve before presented request moment q).1)
        a
        p
