-- ===== src/RemoteControl/Transition.antt =====
-- src/plaik_core/remote_control.py: the transitions of the record, one for each way that a method
-- returns.
use plaik.Prelude.{◌≡◌, ◌≢◌, String, Bool, true, false, ◌||◌, not, none, some, if◌then◌else◌}
use plaik.Prelude.Text.{codes_eq}
use plaik.Prelude.Results.{ok}
use plaik.RemoteControl.Hostname.{Hostname}
use plaik.RemoteControl.Record.{
  disabled, preflight, enrollment_pending, publication_pending, enabled, error, control_center,
  RemoteControlIntent, RemoteControlRecord, hostname, validate_intent, enrolled_admin_passkey,
  is_active, is_requested, records_match, status_beq,
}
use plaik.RemoteControl.Store.{
  GatewayInspection, passkey_rp_id_for_intent, Operation, request_remote, preflight_failed,
  preflight_succeeded, record_admin_passkey_enrolled, observe_control_center, fail, fail_if_current,
  retry_preflight, disable,
}
use plaik.RemoteControl.Validity.{Valid}

-- What an operation that returns may do to a record.
pub data Transition (r : RemoteControlRecord) : Operation → RemoteControlRecord → Type 0 where
  observe_again :
      (expected : RemoteControlRecord) (i : GatewayInspection)
      → r.status ≡ enabled
      → records_match r expected ≡ true
      → i.surface ≡ control_center
      → Transition r (observe_control_center expected i) r
  fail_other :
      (expected : RemoteControlRecord) (code : String)
      → (not (records_match r expected) || status_beq r.status disabled) ≡ true
      → Transition r (fail_if_current expected code) r
  request :
      (asked intent : RemoteControlIntent)
      → validate_intent asked ≡ ok intent
      → intent.remote_access_requested ≡ true
      → Transition r (request_remote asked) (record {
        intent = some intent;
        status = preflight;
        enrolled_admin_passkey_rp_id = passkey_rp_id_for_intent r intent;
        error_code = none;
      })
  succeed_enrolled :
      r.status ≡ preflight
      → enrolled_admin_passkey r ≡ true
      → Transition r preflight_succeeded
          (record r { status = publication_pending; error_code = none })
  succeed :
      r.status ≡ preflight
      → enrolled_admin_passkey r ≡ false
      → Transition r preflight_succeeded
          (record r { status = enrollment_pending; error_code = none })
  enroll :
      (name : Hostname) (intent : RemoteControlIntent)
      → r.status ≡ enrollment_pending
      → r.intent ≡ some intent
      → hostname name ≡ ok intent.control_hostname
      → Transition r (record_admin_passkey_enrolled name) (record r {
        enrolled_admin_passkey_rp_id = some intent.control_hostname;
        status = publication_pending;
        error_code = none;
      })
  observe :
      (expected : RemoteControlRecord) (i : GatewayInspection) (intent : RemoteControlIntent)
      → r.status ≡ publication_pending
      → enrolled_admin_passkey r ≡ true
      → records_match r expected ≡ true
      → r.intent ≡ some intent
      → i.provider ≡ intent.gateway_provider
      → i.surface ≡ control_center
      → i.control_port_public ≡ false
      → i.installer_open ≡ false
      → Transition r
          (observe_control_center expected i)
          (record r { status = enabled; error_code = none })
  fail_preflight :
      (code : String)
      → is_active r.status ≡ true
      → Transition r (preflight_failed code) (record r { status = error; error_code = some code })
  fail_any :
      (code : String)
      → r.status ≢ disabled
      → Transition r (fail code) (record r { status = error; error_code = some code })
  fail_expected :
      (expected : RemoteControlRecord) (code : String)
      → r.status ≢ disabled
      → records_match r expected ≡ true
      → Transition r
          (fail_if_current expected code)
          (record r { status = error; error_code = some code })
  retry :
      r.status ≡ error
      → is_requested r.intent ≡ true
      → Transition r retry_preflight (record r { status = preflight; error_code = none })
  close : Transition r disable (record r { status = disabled; error_code = none })

-- A change that returns `a` makes the transition, and it keeps the record if it does not write.
pub record Makes (op : Operation) (r a : RemoteControlRecord) (w : Bool) : Type 0 where
  pub transition : Transition r op a
  pub settled : if w then Valid a else (a ≡ r)
