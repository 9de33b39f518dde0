-- ===== src/Pairing/Request.antt =====
-- src/plaik_core/pairing.py: what a request presents, and what the remote control expects.
use plaik.Prelude.{
  ℕ, String, string_eq, Bool, true, false, ◌||◌, not, Option, none, some, List, [], ◌∷◌, ◌++◌,
  nat_beq, ◌==◌, if◌then◌else◌,
}
use plaik.Prelude.Text.{codes, ends, lstrip, rstrip, one_of, starts, codes_eq}
use plaik.Prelude.Results.{Result, ok, err, guard, ◌>>=◌, ◌>>◌}
use plaik.Installer.{InstallState, completed, state_beq, value}
use plaik.RemoteControl.Hostname.{Hostname, whitespace, dot, casefold, validate_dns_hostname}
use plaik.RemoteControl.Record.{
  RemoteControlIntent, RemoteControlRecord, enrollment_pending, status_beq,
}
use plaik.RemoteControl.Store.{RemoteControlStore}
use plaik.RemoteControl.Store
use plaik.Pairing.Code.{PairingError, denied, rejected, value_error}

-- `candidate.partition(":")`: what stands before, and what stands after if there is a colon.
unfoldable pub partition : List ℕ → List ℕ × Option (List ℕ)
partition [] = ([], none)
partition (c ∷ s) =
    let rest = partition s in if nat_beq c b':' then ([], some s) else (c ∷ rest.0, rest.1)

-- `separator and port != "443"`
abbrev is_other_port : Option (List ℕ) → Bool
is_other_port none = false
is_other_port (some port) = not (port == codes "443")

-- `validate_dns_hostname`, with `ValueError` for its exception.
unfoldable pub hostname_or : PairingError → List ℕ → Result PairingError Hostname
unfolding validate_dns_hostname
hostname_or error value = elim (validate_dns_hostname value) [ ok h ↦ ok h | err e ↦ err error ]

abbrev candidate_of : List ℕ → List ℕ
unfolding casefold lstrip rstrip
candidate_of value = casefold (rstrip whitespace (lstrip whitespace value))

unfoldable pub check_candidate : List ℕ → Result PairingError Hostname
unfolding one_of starts ends partition hostname_or
check_candidate candidate = do
  guard (not (candidate == [])) denied
  guard (not (one_of b'/' candidate || one_of b'@' candidate || one_of b' ' candidate)) denied
  guard (not (starts (b'[' ∷ []) candidate || ends dot candidate)) denied
  guard (not (is_other_port (partition candidate).1)) denied
  canonical ← hostname_or denied (partition candidate).0
  guard (canonical == (partition candidate).0) denied
  ok canonical

unfoldable pub host_from_header : Option (List ℕ) → Result PairingError Hostname
unfolding check_candidate casefold lstrip rstrip
host_from_header none = err denied
host_from_header (some value) = check_candidate (candidate_of value)

abbrev expected_origin : Hostname → List ℕ
expected_origin control = codes "https://" ++ control

unfoldable pub origin_from_header :
    Option (List ℕ) → Hostname → Bool → Result PairingError (Unit {0})
unfolding casefold
origin_from_header none control required = guard (not required) denied
origin_from_header (some value) control required =
    if value == []
    then guard (not required) denied
    else guard (value == expected_origin control || casefold value == expected_origin control)
        denied

-- `_require_completed`
unfoldable pub require_completed : InstallState → Result PairingError (Unit {0})
unfolding value
require_completed s = guard (state_beq s completed) denied

abbrev requested_control : Option RemoteControlIntent → PairingError → Result PairingError Hostname
requested_control none unavailable = err unavailable
requested_control (some intent) unavailable = do
  guard intent.remote_access_requested unavailable
  ok intent.control_hostname

-- `_enrollment_control_hostname`
unfoldable pub enrollment_control_hostname :
    RemoteControlRecord → PairingError → Result PairingError Hostname
enrollment_control_hostname r unavailable = do
  guard (status_beq r.status enrollment_pending) unavailable
  requested_control r.intent unavailable

-- `remote_store.read()`, whose errors are `ValueError`s.
unfoldable pub remote_read : RemoteControlStore → Result PairingError RemoteControlRecord
unfolding Store.read
remote_read remote = elim (Store.read remote) [ ok r ↦ ok r | err e ↦ err value_error ]

-- The control hostname that the remote control expects now, if the request presents it.
unfoldable pub expected_control : RemoteControlStore → Hostname → Result PairingError Hostname
unfolding remote_read enrollment_control_hostname
expected_control remote presented = do
  r ← remote_read remote
  control ← enrollment_control_hostname r denied
  guard (presented == control) denied
  ok control

-- The arguments of `consume` that the request gives.
pub record PairingRequest : Type 0 where
  pub code : List ℕ
  pub installation_id : String
  pub install_state : InstallState
  pub host : List ℕ
  pub origin : Option (List ℕ)

-- What `consume` asks of a request before it reads the credential.
unfoldable pub request_checks :
    RemoteControlStore → Hostname → PairingRequest → Result PairingError Hostname
unfolding expected_control origin_from_header
request_checks remote presented request = do
  control ← expected_control remote presented
  origin_from_header request.origin control true
  guard (not (request.installation_id == "")) rejected
  ok control
