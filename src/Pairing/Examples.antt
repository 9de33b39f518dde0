-- ===== src/Pairing/Examples.antt =====
-- src/plaik_core/pairing.py: a code from its issue to its consumption, and the theorems there.
use plaik.Prelude.{
  ℕ, ◌≤◌, ◌≡◌, refl, String, true, false, none, some, List, [], ◌∷◌, ◌++◌, leb, if◌then◌else◌, keep,
  string_eq,
}
use plaik.Prelude.Text.{codes, codes_beq, all_codes, ends, lstrip, rstrip, one_of, starts, codes_eq}
use plaik.Prelude.Results.{ok}
use plaik.Installer.{completed, value}
use plaik.RemoteControl.Hostname.{
  Hostname, casefold, normalized, labels, is_label, is_top_level, are_labels, is_dns_name, octet,
  is_ip_address, ends_with, check_hostname, validate_dns_hostname,
}
use plaik.RemoteControl.Record.{
  RemoteControlRecord, check_intent, check_observed, hostname, validate_error_code, validate_intent,
  validate_record, wan_surface, acme, nginx, enrollment_pending,
}
use plaik.RemoteControl.Store.{RemoteControlStore, document}
use plaik.RemoteControl.Store
use plaik.Pairing.Code.{
  uppercase, compact, in_alphabet, normalize_pairing_code, format_pairing_code,
}
use plaik.Pairing.Request.{
  PairingRequest, partition, hostname_or, check_candidate, host_from_header, origin_from_header,
  require_completed, enrollment_control_hostname, remote_read, expected_control, request_checks,
}
use plaik.Pairing.Store.{
  Hashing, PairingStore, IssuedPairing, ConsumedPairing, Verifier, absent, validate_pairing, parse,
  read, put, replace, effective_in_flight, live_record, release_inflight, after_failure,
}
use plaik.Pairing.Sections.{
  expire_inflight, reserve_attempt, reserve_current, reserve, or_release, same_or_rejected,
  release_section, after_attempt, released, as_unavailable,
}
use plaik.Pairing.Consume.{
  hash_session, digest_of, consume_verifier, compare, commit_current, commit, salt_bytes,
  settle_code, settle_attempt, consume,
}
use plaik.Pairing.Guesses.{
  Section, reserve_step, release_step, commit_step, after, guess, guesses, consumption,
  consumptions,
}
use plaik.Pairing.Attempts.Commit.{to_compare, compared_with}
use plaik.Pairing.Consumption.Pairs.{Pairs}
use plaik.Pairing.Issue.{issue, issue_record, issue-guesses}
use plaik.Pairing.Readback.{normalize-format}

-- Functions in place of the hash functions, which are enough to tell the codes here apart.
abbrev digits : List ℕ → String
digits [] = ""
digits (b ∷ s) = if leb b'N' b then String.◌∷◌ "f" (digits s) else String.◌∷◌ "0" (digits s)

abbrev toy : Hashing
toy = record {
  to_hex = digits;
  from_hex = λ s. some (codes s);
  scrypt = λ password salt. digits (password ++ salt);
  sha256 = λ s. some s;
}

abbrev control_name : Hostname
control_name = codes "control.example.org"

abbrev enrolling : RemoteControlRecord
enrolling = record {
  intent = some (record {
    public_hostname = codes "example.org";
    control_hostname = control_name;
    tls_mode = acme;
    gateway_provider = nginx;
    remote_access_requested = true;
  });
  status = enrollment_pending;
  enrolled_admin_passkey_rp_id = none;
  error_code = none;
}

abbrev remote : RemoteControlStore
remote = record { file = document enrolling }

abbrev blank : PairingStore
blank = record { home = false; file = absent }

abbrev drawn : List ℕ
drawn = codes "23ABWXYZ"

abbrev salt : List ℕ
salt = 1 ∷ 2 ∷ []

abbrev issued : PairingStore
unfolding issue issue_record put digest_of value enrollment_control_hostname format_pairing_code
    normalize_pairing_code compact uppercase in_alphabet keep all_codes one_of lstrip rstrip
    validate_pairing hostname_or validate_dns_hostname normalized casefold check_hostname labels
    is_label is_top_level are_labels is_dns_name octet is_ip_address ends_with codes_beq ends
issued = (issue toy enrolling "i1" completed 1000 drawn salt blank).1

abbrev shown : List ℕ
shown = codes "23AB-WXYZ"

abbrev receipt : IssuedPairing
receipt = record {
  code = shown;
  activate_host = control_name;
  control_hostname = control_name;
  expires_at = 600001000;
}

issue-receipt : (issue toy enrolling "i1" completed 1000 drawn salt blank).0 ≡ ok receipt
unfolding issue issue_record put digest_of value enrollment_control_hostname format_pairing_code
    normalize_pairing_code compact uppercase in_alphabet keep all_codes one_of lstrip rstrip
    validate_pairing hostname_or validate_dns_hostname normalized casefold check_hostname labels
    is_label is_top_level are_labels is_dns_name octet is_ip_address ends_with codes_beq ends
issue-receipt = refl

abbrev presented : PairingRequest
presented = record {
  code = codes " 23ab wxyz";
  installation_id = "i1";
  install_state = completed;
  host = codes "Control.Example.ORG:443";
  origin = some (codes "https://control.example.org");
}

abbrev paired : PairingStore
unfolding consume require_completed value host_from_header check_candidate partition starts reserve
    request_checks expected_control remote_read Store.read validate_record validate_intent hostname
    check_intent check_observed validate_error_code wan_surface origin_from_header read parse
    reserve_current expire_inflight effective_in_flight reserve_attempt live_record replace released
    after_attempt settle_attempt settle_code salt_bytes commit commit_current or_release
    same_or_rejected compare consume_verifier hash_session as_unavailable put digest_of
    enrollment_control_hostname normalize_pairing_code compact uppercase in_alphabet keep all_codes
    one_of lstrip rstrip validate_pairing hostname_or validate_dns_hostname normalized casefold
    check_hostname labels is_label is_top_level are_labels is_dns_name octet is_ip_address ends_with
    codes_beq ends
paired = (consume toy remote remote (λ q. q) presented 2000 3000 "t" issued).1

abbrev session : ConsumedPairing
session = record {
  enrollment_session_token = "t";
  enrollment_expires_at = 900003000;
  control_hostname = control_name;
}

-- A wrong code, then the right one, then the right one again.
abbrev verifier : Verifier
unfolding digest_of
verifier = record {
  salt_hex = digits salt;
  hash_hex = digest_of toy "i1" control_name drawn salt;
  installation_id = "i1";
}

abbrev sections : List Section
sections =
    reserve_step remote control_name presented 2000
    ∷ commit_step remote control_name verifier "0" 2500 "s"
    ∷ reserve_step remote control_name presented 2600
    ∷ commit_step remote control_name verifier verifier.hash_hex 3000 "t"
    ∷ commit_step remote control_name verifier verifier.hash_hex 3500 "u"
    ∷ release_step verifier
    ∷ []

issue-guesses_example : (guesses toy sections issued ≤ 8) × (consumptions toy sections issued ≤ 1)
unfolding issued issue
issue-guesses_example =
    issue-guesses toy enrolling "i1" completed 1000 drawn salt blank receipt sections issue-receipt
      (refl, (refl, (refl, (refl, (refl, (refl, tt))))))

run : (guesses toy sections issued ≡ 2) × (consumptions toy sections issued ≡ 1)
unfolding issued guesses guess consumptions consumption after to_compare compared_with reserve
    release_section release_inflight request_checks expected_control remote_read Store.read
    validate_record validate_intent hostname check_intent check_observed validate_error_code
    wan_surface origin_from_header read parse reserve_current expire_inflight effective_in_flight
    reserve_attempt live_record replace after_failure commit commit_current or_release
    same_or_rejected compare consume_verifier hash_session put digest_of enrollment_control_hostname
    one_of validate_pairing hostname_or validate_dns_hostname normalized casefold check_hostname
    labels is_label is_top_level are_labels is_dns_name octet is_ip_address ends_with codes_beq ends
    all_codes lstrip rstrip
run = (refl, refl)

shows : format_pairing_code (codes " 23ab wxyz") ≡ ok shown
unfolding format_pairing_code normalize_pairing_code compact uppercase in_alphabet keep all_codes
    one_of lstrip rstrip
shows = refl

normalize-format_example :
    normalize_pairing_code shown ≡ normalize_pairing_code (codes " 23ab wxyz")
normalize-format_example = normalize-format (codes " 23ab wxyz") shown shows
