-- ===== src/RemoteControl/Record.antt =====
-- src/plaik_core/remote_control.py: the intent, the record, their validators, and the surface that a
-- record derives.
use plaik.Prelude.{
  String, string_eq, Bool, true, false, ◌&&◌, ◌||◌, not, Option, none, some, nat_beq, ◌==◌,
  option_beq, if◌then◌else◌,
}
use plaik.Prelude.Text.{codes, lower, digit, head_tail, codes_eq}
use plaik.Prelude.Results.{Result, ok, err, guard, ◌>>=◌, ◌>>◌}
use plaik.RemoteControl.Hostname.{Hostname, InvalidRemoteHostname, validate_dns_hostname}

pub data TlsMode : Type 0 where
  acme existing_certificate no_tls : TlsMode

pub data GatewayProviderName : Type 0 where
  no_gateway nginx caddy traefik external : GatewayProviderName

pub data RemoteControlStatus : Type 0 where
  disabled preflight enrollment_pending publication_pending enabled error : RemoteControlStatus

pub data WanSurface : Type 0 where
  closed activate_only control_center : WanSurface

-- The contract's exceptions, and the validators' errors.
pub data RemoteControlError : Type 0 where
  invalid_hostname : InvalidRemoteHostname → RemoteControlError
  same_hostnames without_tls without_gateway : RemoteControlError
  unrequested_intent unenrolled_passkey : RemoteControlError
  invalid_error_code unexpected_error_code missing_error_code : RemoteControlError
  unreadable_file not_completed not_requested wrong_status wrong_surface : RemoteControlError
  wrong_rp_id not_fail_closed drifted wrong_provider no_passkey no_intent : RemoteControlError
  wrong_plan wan_bind : RemoteControlError

abbrev pub is_no_tls : TlsMode → Bool
is_no_tls no_tls = true
is_no_tls _ = false

abbrev pub provider_beq : GatewayProviderName → GatewayProviderName → Bool
provider_beq no_gateway no_gateway = true
provider_beq nginx nginx = true
provider_beq caddy caddy = true
provider_beq traefik traefik = true
provider_beq external external = true
provider_beq _ _ = false

abbrev pub status_beq : RemoteControlStatus → RemoteControlStatus → Bool
status_beq disabled disabled = true
status_beq preflight preflight = true
status_beq enrollment_pending enrollment_pending = true
status_beq publication_pending publication_pending = true
status_beq enabled enabled = true
status_beq error error = true
status_beq _ _ = false

abbrev pub surface_beq : WanSurface → WanSurface → Bool
surface_beq closed closed = true
surface_beq activate_only activate_only = true
surface_beq control_center control_center = true
surface_beq _ _ = false

pub record RemoteControlIntent : Type 0 where
  pub public_hostname : Hostname
  pub control_hostname : Hostname
  pub tls_mode : TlsMode
  pub gateway_provider : GatewayProviderName
  pub remote_access_requested : Bool

pub record RemoteControlRecord : Type 0 where
  pub intent : Option RemoteControlIntent
  pub status : RemoteControlStatus
  pub enrolled_admin_passkey_rp_id : Option Hostname
  pub error_code : Option String

-- `validate_dns_hostname`, with its exception as a validation error.
unfoldable pub hostname : Hostname → Result RemoteControlError Hostname
unfolding validate_dns_hostname
hostname value = elim (validate_dns_hostname value) [
  | ok h ↦ ok h
  | err e ↦ err (invalid_hostname e)
]

-- `validate_intent_contract`
unfoldable pub check_intent : RemoteControlIntent → Result RemoteControlError (Unit {0})
check_intent intent = do
  guard (not (intent.public_hostname == intent.control_hostname)) same_hostnames
  guard (not (intent.remote_access_requested && is_no_tls intent.tls_mode)) without_tls
  guard (not (intent.remote_access_requested && provider_beq intent.gateway_provider no_gateway))
      without_gateway

-- `RemoteControlIntent.model_validate`
unfoldable pub validate_intent : RemoteControlIntent → Result RemoteControlError RemoteControlIntent
unfolding hostname check_intent
validate_intent intent = do
  public_name ← hostname intent.public_hostname
  control_name ← hostname intent.control_hostname
  let named = record intent { public_hostname = public_name; control_hostname = control_name }
  check_intent named
  ok named

abbrev pub optional :
    {A : Type 0}
    → (A → Result RemoteControlError A)
    → Option A
    → Result RemoteControlError (Option A)
optional f none = ok none
optional f (some a) = do b ← f a; ok (some b)

-- `_ERROR_CODE`
unfoldable pub validate_error_code : String → Result RemoteControlError String
unfolding head_tail
validate_error_code code = do
  guard
      (head_tail lower
        (λ c. lower c || digit c || nat_beq c b'.' || nat_beq c b'_' || nat_beq c b'-') 0 127
        (codes code))
      invalid_error_code
  ok code

abbrev pub is_requested : Option RemoteControlIntent → Bool
is_requested none = false
is_requested (some intent) = intent.remote_access_requested

-- The passkey's RP ID is the intent's control hostname.
abbrev pub is_enrolled : Option RemoteControlIntent → Option Hostname → Bool
is_enrolled none rp_id = false
is_enrolled (some intent) rp_id = option_beq rp_id (some intent.control_hostname)

-- `enrolled_admin_passkey`
abbrev pub enrolled_admin_passkey : RemoteControlRecord → Bool
enrolled_admin_passkey r = is_enrolled r.intent r.enrolled_admin_passkey_rp_id

abbrev pub is_active : RemoteControlStatus → Bool
is_active disabled = false
is_active preflight = true
is_active enrollment_pending = true
is_active publication_pending = true
is_active enabled = true
is_active error = false

-- The statuses that need the passkey.
abbrev pub is_published : RemoteControlStatus → Bool
is_published publication_pending = true
is_published enabled = true
is_published _ = false

abbrev pub is_error : RemoteControlStatus → Bool
is_error error = true
is_error _ = false

abbrev pub is_none : {A : Type 0} → Option A → Bool
is_none none = true
is_none (some a) = false

-- `validate_observed_invariants`
unfoldable pub check_observed : RemoteControlRecord → Result RemoteControlError (Unit {0})
check_observed r = do
  guard (not (is_active r.status && not (is_requested r.intent))) unrequested_intent
  guard (not (is_published r.status && not (enrolled_admin_passkey r))) unenrolled_passkey
  guard (is_error r.status || is_none r.error_code) unexpected_error_code
  guard (not (is_error r.status && is_none r.error_code)) missing_error_code

-- `RemoteControlRecord.model_validate`
unfoldable pub validate_record : RemoteControlRecord → Result RemoteControlError RemoteControlRecord
unfolding validate_intent hostname validate_error_code check_observed
validate_record r = do
  intent ← optional validate_intent r.intent
  rp_id ← optional hostname r.enrolled_admin_passkey_rp_id
  code ← optional validate_error_code r.error_code
  let parsed = record r { intent = intent; enrolled_admin_passkey_rp_id = rp_id; error_code = code }
  check_observed parsed
  ok parsed

unfoldable pub wan_surface : RemoteControlRecord → WanSurface
wan_surface r =
    if status_beq r.status enabled && enrolled_admin_passkey r
    then control_center
    else if status_beq r.status enrollment_pending || status_beq r.status publication_pending
    then activate_only
    else closed

unfoldable pub publication_surface : RemoteControlRecord → WanSurface
unfolding wan_surface
publication_surface r =
    if status_beq r.status publication_pending && enrolled_admin_passkey r
    then control_center
    else wan_surface r

abbrev tls_beq : TlsMode → TlsMode → Bool
tls_beq acme acme = true
tls_beq existing_certificate existing_certificate = true
tls_beq no_tls no_tls = true
tls_beq _ _ = false

abbrev bool_beq : Bool → Bool → Bool
bool_beq true b = b
bool_beq false b = not b

unfoldable pub intents_match : Option RemoteControlIntent → Option RemoteControlIntent → Bool
intents_match none none = true
intents_match none (some j) = false
intents_match (some i) none = false
intents_match (some i) (some j) =
    i.public_hostname == j.public_hostname
    && i.control_hostname == j.control_hostname
    && tls_beq i.tls_mode j.tls_mode
    && provider_beq i.gateway_provider j.gateway_provider
    && bool_beq i.remote_access_requested j.remote_access_requested

-- The canonical records are equal.
unfoldable pub records_match : RemoteControlRecord → RemoteControlRecord → Bool
unfolding intents_match
records_match l r =
    intents_match l.intent r.intent
    && status_beq l.status r.status
    && option_beq l.enrolled_admin_passkey_rp_id r.enrolled_admin_passkey_rp_id
    && option_beq l.error_code r.error_code
