-- ===== src/RemoteControl/Examples.antt =====
-- src/plaik_core/remote_control.py: a publication from the request to the observation, and the
-- theorems there.
use plaik.Prelude.{◌≡◌, refl, true, false, none, some, List, [], ◌∷◌}
use plaik.Prelude.Text.{codes, codes_beq, all_codes, ends, lstrip, rstrip}
use plaik.Prelude.Results.{ok}
use plaik.Installer.{InstallState, completed, value}
use plaik.RemoteControl.Hostname.{
  Hostname, casefold, normalized, labels, is_label, is_top_level, are_labels, is_dns_name, octet,
  is_ip_address, ends_with, check_hostname, validate_dns_hostname,
}
use plaik.RemoteControl.Hostname.Normal.{validate_dns_hostname_idem}
use plaik.RemoteControl.Record.{
  RemoteControlIntent, RemoteControlRecord, check_intent, check_observed, hostname, intents_match,
  publication_surface, records_match, validate_error_code, validate_intent, validate_record,
  wan_surface, acme, nginx, publication_pending, enabled, disabled, closed, control_center,
}
use plaik.RemoteControl.Store.{
  GatewayInspection, Operation, RemoteControlStore, blank, call, call_all, change_of, enroll_change,
  enroll_current, observe_change, observe_current, passkey_rp_id_for_intent,
  preflight_succeeded_change, read, request_change, require_completed, write, absent, document,
  request_remote, preflight_succeeded, record_admin_passkey_enrolled, observe_control_center,
  disable,
}
use plaik.RemoteControl.Runs.{read-Valid, Outcome, call-Outcome}
use plaik.RemoteControl.Observation.{
  any_observation, enabled-observation, Guarded, control_center-Guarded, disable-closes,
}
use plaik.RemoteControl.Plan.{plan_for, default_plan, plan_for-Valid}

abbrev control_name : Hostname
control_name = codes "control.example.org"

is_normalized : validate_dns_hostname (codes " Control.Example.ORG. ") ≡ ok control_name
unfolding validate_dns_hostname normalized casefold check_hostname labels is_label is_top_level
    are_labels is_dns_name octet is_ip_address ends_with codes_beq all_codes ends lstrip rstrip
is_normalized = refl

validate_dns_hostname_idem_example : validate_dns_hostname control_name ≡ ok control_name
validate_dns_hostname_idem_example =
    validate_dns_hostname_idem (codes " Control.Example.ORG. ") control_name is_normalized

abbrev site : RemoteControlIntent
site = record {
  public_hostname = codes "example.org";
  control_hostname = control_name;
  tls_mode = acme;
  gateway_provider = nginx;
  remote_access_requested = true;
}

abbrev pending : RemoteControlRecord
pending = record {
  intent = some site;
  status = publication_pending;
  enrolled_admin_passkey_rp_id = some control_name;
  error_code = none;
}

abbrev published : RemoteControlRecord
published = record pending { status = enabled }

abbrev seen : GatewayInspection
seen = record {
  provider = nginx;
  surface = control_center;
  control_port_public = false;
  installer_open = false;
}

abbrev calls : List (InstallState × Operation)
calls =
    (completed, request_remote site)
    ∷ (completed, preflight_succeeded)
    ∷ (completed, record_admin_passkey_enrolled (codes "CONTROL.example.org"))
    ∷ (completed, observe_control_center pending seen)
    ∷ []

abbrev fresh_store : RemoteControlStore
fresh_store = record { file = absent }

abbrev published_store : RemoteControlStore
published_store = record { file = document published }

fresh_store-reads : read fresh_store ≡ ok blank
unfolding read
fresh_store-reads = refl

published_store-reads : read published_store ≡ ok published
unfolding read validate_record validate_intent hostname check_intent check_observed
    validate_error_code validate_dns_hostname normalized casefold check_hostname labels is_label
    is_top_level are_labels is_dns_name octet is_ip_address ends_with codes_beq all_codes ends
    lstrip rstrip
published_store-reads = refl

publishes : read (call_all calls fresh_store) ≡ ok published
unfolding call_all call require_completed change_of request_change preflight_succeeded_change
    enroll_change enroll_current observe_change observe_current passkey_rp_id_for_intent write
    wan_surface records_match intents_match value read validate_record validate_intent hostname
    check_intent check_observed validate_error_code validate_dns_hostname normalized casefold
    check_hostname labels is_label is_top_level are_labels is_dns_name octet is_ip_address ends_with
    codes_beq all_codes ends lstrip rstrip
publishes = refl

call-Outcome_example :
    Outcome completed
      (request_remote site)
      fresh_store
      blank
      (call completed (request_remote site) fresh_store).0
      (call completed (request_remote site) fresh_store).1
call-Outcome_example =
    call-Outcome completed (request_remote site) fresh_store blank fresh_store-reads

enabled-observation_example : any_observation calls ≡ true
enabled-observation_example =
    enabled-observation calls fresh_store blank published fresh_store-reads refl publishes refl

control_center-Guarded_example : Guarded published
unfolding wan_surface codes_beq
control_center-Guarded_example =
    control_center-Guarded published_store published published_store-reads refl

disable-closes_example :
    ((call completed disable published_store).0 ≡ ok (record published { status = disabled }))
    × (read (call completed disable published_store).1
        ≡ ok (record published { status = disabled }))
    × (wan_surface (record published { status = disabled }) ≡ closed)
    × (publication_surface (record published { status = disabled }) ≡ closed)
disable-closes_example = disable-closes published_store published published_store-reads

plan_for-Valid_example : plan_for published ≡ ok (default_plan published)
plan_for-Valid_example =
    plan_for-Valid published site (read-Valid published_store published published_store-reads) refl
