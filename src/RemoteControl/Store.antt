-- ===== src/RemoteControl/Store.antt =====
-- src/plaik_core/remote_control.py, `RemoteControlStore`: the file and the operations on it.
use plaik.Prelude.{
  String, Bool, true, false, ◌&&◌, ◌||◌, not, Option, none, some, List, [], ◌∷◌, option_beq,
  if◌then◌else◌,
}
use plaik.Prelude.Text.{codes_eq}
use plaik.Prelude.Results.{Result, ok, err, guard, ◌>>=◌, ◌>>◌, Method}
use plaik.Installer.{InstallState, completed, state_beq, value}
use plaik.RemoteControl.Hostname.{Hostname}
use plaik.RemoteControl.Record.{
  GatewayProviderName, disabled, preflight, enrollment_pending, publication_pending, enabled, error,
  WanSurface, activate_only, control_center, RemoteControlError, unreadable_file, not_completed,
  not_requested, wrong_status, wrong_surface, wrong_rp_id, not_fail_closed, drifted, wrong_provider,
  no_passkey, provider_beq, status_beq, surface_beq, RemoteControlIntent, RemoteControlRecord,
  hostname, validate_intent, is_requested, is_enrolled, enrolled_admin_passkey, is_active, is_error,
  validate_record, wan_surface, records_match,
}

pub data RemoteControlFile : Type 0 where
  absent malformed : RemoteControlFile
  document : RemoteControlRecord → RemoteControlFile

pub record RemoteControlStore : Type 0 where
  pub file : RemoteControlFile

-- `RemoteControlRecord()`
abbrev pub blank : RemoteControlRecord
blank = record {
  intent = none;
  status = disabled;
  enrolled_admin_passkey_rp_id = none;
  error_code = none;
}

unfoldable pub read : RemoteControlStore → Result RemoteControlError RemoteControlRecord
unfolding validate_record
read q = elim q.file [
  | absent ↦ ok blank
  | malformed ↦ err unreadable_file
  | document r ↦ validate_record r
]

-- What is observed of the gateway; the model's validator refuses a public port or an open installer.
pub record GatewayInspection : Type 0 where
  pub provider : GatewayProviderName
  pub surface : WanSurface
  pub control_port_public : Bool
  pub installer_open : Bool

-- What an operation does under the lock: the record that it returns, and whether it is written.
abbrev pub Change : Type 0
Change = Result RemoteControlError (RemoteControlRecord × Bool)

-- `_write_unlocked`, up to the file.
unfoldable pub write : RemoteControlRecord → Change
unfolding validate_record
write r = do parsed ← validate_record r; ok (parsed, true)

abbrev pub commit : Change → Method RemoteControlError RemoteControlStore RemoteControlRecord
commit (err e) q = (err e, q)
commit (ok (r, false)) q = (ok r, q)
commit (ok (r, true)) q = (ok r, record q { file = document r })

-- `_require_completed`
unfoldable pub require_completed : InstallState → Result RemoteControlError (Unit {0})
unfolding value
require_completed s = guard (state_beq s completed) not_completed

-- `_passkey_rp_id_for_intent`
unfoldable pub passkey_rp_id_for_intent :
    RemoteControlRecord → RemoteControlIntent → Option Hostname
passkey_rp_id_for_intent current intent =
    if option_beq current.enrolled_admin_passkey_rp_id (some intent.control_hostname)
    then current.enrolled_admin_passkey_rp_id
    else none

-- `_fail_unlocked`
unfoldable pub fail_unlocked : RemoteControlRecord → String → Change
unfolding write
fail_unlocked current code = write (record current { status = error; error_code = some code })

unfoldable pub request_change : RemoteControlIntent → RemoteControlStore → Change
unfolding read write validate_intent validate_record passkey_rp_id_for_intent
request_change asked q = do
  intent ← validate_intent asked
  guard intent.remote_access_requested not_requested
  current ← read q
  r ← validate_record (record {
    intent = some intent;
    status = preflight;
    enrolled_admin_passkey_rp_id = passkey_rp_id_for_intent current intent;
    error_code = none;
  })
  write r

unfoldable pub preflight_failed_change : String → RemoteControlStore → Change
unfolding read fail_unlocked
preflight_failed_change code q = do
  current ← read q
  guard (is_active current.status) wrong_status
  fail_unlocked current code

unfoldable pub preflight_succeeded_change : RemoteControlStore → Change
unfolding read write
preflight_succeeded_change q = do
  current ← read q
  guard (status_beq current.status preflight) wrong_status
  if enrolled_admin_passkey current
      then write (record current { status = publication_pending; error_code = none })
      else write (record current { status = enrollment_pending; error_code = none })

-- Enrollment, of a record that was read.
unfoldable pub enroll_current : Hostname → RemoteControlRecord → Change
unfolding wan_surface write
enroll_current rp_id current = do
  guard (status_beq current.status enrollment_pending) wrong_status
  guard (surface_beq (wan_surface current) activate_only) wrong_surface
  guard (is_enrolled current.intent (some rp_id)) wrong_rp_id
  write (record current {
    enrolled_admin_passkey_rp_id = some rp_id;
    status = publication_pending;
    error_code = none;
  })

unfoldable pub enroll_change : Hostname → RemoteControlStore → Change
unfolding hostname read enroll_current
enroll_change name q = do rp_id ← hostname name; current ← read q; enroll_current rp_id current

-- The intent's provider is the one that was inspected.
abbrev pub is_provider : GatewayProviderName → Option RemoteControlIntent → Bool
is_provider p none = false
is_provider p (some intent) = provider_beq p intent.gateway_provider

-- An observation, of a record that was read.
unfoldable pub observe_current :
    RemoteControlRecord → GatewayInspection → RemoteControlRecord → Change
unfolding records_match write
observe_current expected inspection current = do
  guard (records_match current expected) drifted
  guard (is_provider inspection.provider current.intent) wrong_provider
  if status_beq current.status enabled && enrolled_admin_passkey current
      then ok (current, false)
      else (do
        guard (status_beq current.status publication_pending) wrong_status
        guard (enrolled_admin_passkey current) no_passkey
        write (record current { status = enabled; error_code = none }))

unfoldable pub observe_change :
    RemoteControlRecord → GatewayInspection → RemoteControlStore → Change
unfolding read observe_current
observe_change expected inspection q = do
  guard (surface_beq inspection.surface control_center) wrong_surface
  guard (not (inspection.control_port_public || inspection.installer_open)) not_fail_closed
  current ← read q
  observe_current expected inspection current

unfoldable pub fail_change : String → RemoteControlStore → Change
unfolding read fail_unlocked
fail_change code q = do
  current ← read q
  guard (not (status_beq current.status disabled)) wrong_status
  fail_unlocked current code

unfoldable pub fail_if_current_change : RemoteControlRecord → String → RemoteControlStore → Change
unfolding read records_match fail_unlocked
fail_if_current_change expected code q = do
  current ← read q
  if not (records_match current expected) || status_beq current.status disabled
      then ok (current, false)
      else fail_unlocked current code

unfoldable pub retry_change : RemoteControlStore → Change
unfolding read write
retry_change q = do
  current ← read q
  guard (is_error current.status) wrong_status
  guard (is_requested current.intent) not_requested
  write (record current { status = preflight; error_code = none })

unfoldable pub disable_change : RemoteControlStore → Change
unfolding read write validate_record
disable_change q = do
  current ← read q
  r ← validate_record (record current { status = disabled; error_code = none })
  write r

-- The methods, by their arguments.
pub data Operation : Type 0 where
  request_remote : RemoteControlIntent → Operation
  preflight_failed : String → Operation
  preflight_succeeded : Operation
  record_admin_passkey_enrolled : Hostname → Operation
  observe_control_center : RemoteControlRecord → GatewayInspection → Operation
  fail : String → Operation
  fail_if_current : RemoteControlRecord → String → Operation
  retry_preflight disable : Operation

unfoldable pub change_of : Operation → RemoteControlStore → Change
unfolding request_change preflight_failed_change preflight_succeeded_change enroll_change
    observe_change fail_change fail_if_current_change retry_change disable_change
change_of (request_remote intent) = request_change intent
change_of (preflight_failed code) = preflight_failed_change code
change_of preflight_succeeded = preflight_succeeded_change
change_of (record_admin_passkey_enrolled name) = enroll_change name
change_of (observe_control_center expected inspection) = observe_change expected inspection
change_of (fail code) = fail_change code
change_of (fail_if_current expected code) = fail_if_current_change expected code
change_of retry_preflight = retry_change
change_of disable = disable_change

-- Each method asks for a completed installation first.
unfoldable pub call :
    InstallState → Operation → Method RemoteControlError RemoteControlStore RemoteControlRecord
unfolding require_completed change_of
call install_state op q = commit (require_completed install_state >> change_of op q) q

unfoldable pub call_all : List (InstallState × Operation) → RemoteControlStore → RemoteControlStore
unfolding call
call_all [] q = q
call_all ((s, op) ∷ calls) q = call_all calls (call s op q).1
