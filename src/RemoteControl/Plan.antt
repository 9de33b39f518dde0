-- ===== src/RemoteControl/Plan.antt =====
-- src/plaik_core/remote_control.py, `GatewayPlan` and `plan_for`.
use plaik.Prelude.{
  ℕ, ◌≡◌, String, Bool, true, false, ◌&&◌, ◌||◌, not, some, arith, nat_beq, ◌==◌, string_eq,
}
use plaik.Prelude.Text.{codes, lstrip, rstrip, codes_beq, codes_eq}
use plaik.RemoteControl.Hostname.{whitespace, casefold}
use plaik.Prelude.Results.{Result, ok, guard, ◌>>=◌, ◌>>◌}
use plaik.RemoteControl.Record.{
  WanSurface, activate_only, control_center, enrollment_pending, RemoteControlError, no_intent,
  wrong_plan, wan_bind, status_beq, surface_beq, RemoteControlIntent, RemoteControlRecord,
  is_published, is_none, enrolled_admin_passkey, check_observed, validate_record, wan_surface,
  publication_surface,
}
use plaik.RemoteControl.Validity.{Valid, Valid-accepted}

pub record GatewayPlan : Type 0 where
  pub record_bound : RemoteControlRecord
  pub surface : WanSurface
  pub web_bind_host : String
  pub web_bind_port : ℕ
  pub control_bind_host : String
  pub control_bind_port : ℕ

-- `WEB_LOOPBACK` and `CONTROL_LOOPBACK`
abbrev pub web_loopback : String × ℕ
web_loopback = ("127.0.0.1", 8080)

abbrev pub control_loopback : String × ℕ
control_loopback = ("127.0.0.1", 8081)

unfoldable pub is_forbidden_wan_bind : String → Bool
unfolding casefold lstrip rstrip codes_beq
is_forbidden_wan_bind host =
    let name = casefold (rstrip whitespace (lstrip whitespace (codes host))) in
    name == codes "0.0.0.0" || name == codes "::" || name == codes "[::]"

unfoldable pub check_bind : String × ℕ → String → ℕ → Result RemoteControlError (Unit {0})
unfolding is_forbidden_wan_bind
check_bind expected host port = do
  guard (not (is_forbidden_wan_bind host)) wan_bind
  guard (host == expected.0 && nat_beq port expected.1) wan_bind

-- `validate_plan_matches_record`
unfoldable pub validate_plan : GatewayPlan → Result RemoteControlError GatewayPlan
unfolding validate_record publication_surface check_bind
validate_plan plan = do
  r ← validate_record plan.record_bound
  guard (surface_beq plan.surface (publication_surface r)) wrong_plan
  guard
      (not (surface_beq plan.surface activate_only && not (status_beq r.status enrollment_pending)))
      wrong_plan
  guard (not (surface_beq plan.surface control_center && not (is_published r.status))) wrong_plan
  guard (not (surface_beq plan.surface control_center && not (enrolled_admin_passkey r))) wrong_plan
  check_bind web_loopback plan.web_bind_host plan.web_bind_port
  check_bind control_loopback plan.control_bind_host plan.control_bind_port
  ok (record plan { record_bound = r })

-- A plan with the default endpoints.
abbrev pub default_plan : RemoteControlRecord → GatewayPlan
unfolding publication_surface
default_plan r = record {
  record_bound = r;
  surface = publication_surface r;
  web_bind_host = "127.0.0.1";
  web_bind_port = 8080;
  control_bind_host = "127.0.0.1";
  control_bind_port = 8081;
}

-- `GatewayPlan.from_record`, which is `plan_for`.
unfoldable pub plan_for : RemoteControlRecord → Result RemoteControlError GatewayPlan
unfolding validate_record validate_plan publication_surface
plan_for given = do
  r ← validate_record given
  guard (not (is_none r.intent)) no_intent
  validate_plan (default_plan r)

-- The checks of the surface pass for the surface that the record derives.
surface_checks :
    (r : RemoteControlRecord)
    → check_observed r ≡ ok tt
    → (surface_beq (publication_surface r) (publication_surface r) ≡ true)
      × ((surface_beq (publication_surface r) activate_only
            && not (status_beq r.status enrollment_pending))
          ≡ false)
      × ((surface_beq (publication_surface r) control_center && not (is_published r.status))
          ≡ false)
      × ((surface_beq (publication_surface r) control_center && not (enrolled_admin_passkey r))
          ≡ false)
unfolding publication_surface wan_surface check_observed
surface_checks r o = (ground (arith, o), ground (arith, o), ground (arith, o), ground (arith, o))

-- A plan for a valid record with an intent is never refused: it has the record's publication surface
-- and the loopback endpoints.
pub plan_for-Valid :
    (r : RemoteControlRecord) (intent : RemoteControlIntent)
    → Valid r
    → r.intent ≡ some intent
    → plan_for r ≡ ok (default_plan r)
unfolding plan_for validate_plan check_bind is_forbidden_wan_bind casefold lstrip rstrip codes_beq
plan_for-Valid r intent v n =
    let c = surface_checks r v.observed in
    let given : is_none r.intent ≡ false = rw n in
    rw (Valid-accepted r v, given, Valid-accepted r v, c.0, c.1, c.2, c.3)
