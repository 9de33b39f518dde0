-- ===== src/RemoteControl/Observation.antt =====
-- src/plaik_core/remote_control.py: what `ENABLED` and the surface `CONTROL_CENTER` say.
use plaik.Prelude.{
  ◌≡◌, ◌≢◌, refl, ap, subst, option_beq, Bool-cases, Bool, true, false, ◌&&◌, ◌||◌, not, Option,
  none, some, List, [], ◌∷◌, arith, ◌==◌, inl, inr, Option-cases,
}
use plaik.Prelude.Text.{codes_eq, codes_beq, codes_beq_iff}
use plaik.Prelude.Results.{ok, chain_ok}
use plaik.Installer.{InstallState, completed, value}
use plaik.RemoteControl.Hostname.{Hostname}
use plaik.RemoteControl.Record.{
  disabled, closed, publication_surface, validate_record, enabled, control_center, no_tls,
  enrolled_admin_passkey, check_observed, is_requested, optional, hostname, no_gateway, status_beq,
  surface_beq, RemoteControlIntent, RemoteControlRecord, check_intent, validate_intent, wan_surface,
}
use plaik.RemoteControl.Store.{
  change_of, disable_change, write, require_completed, call, disable, RemoteControlStore, read,
  Operation, observe_control_center, call_all,
}
use plaik.RemoteControl.Validity.{Valid, Valid-accepted}
use plaik.RemoteControl.Transition.{
  Transition, observe_again, fail_other, request, succeed_enrolled, succeed, enroll, observe,
  fail_preflight, fail_any, fail_expected, retry, close,
}
use plaik.RemoteControl.Runs.{read-Valid, Run, start, refuse, step, call_all-HoldsAfter}

-- The call reports a fail-closed inspection of the Control Center.
abbrev pub is_observation : Operation → Bool
is_observation (observe_control_center expected i) =
    surface_beq i.surface control_center && not i.control_port_public && not i.installer_open
is_observation _ = false

unfoldable pub any_observation : List (InstallState × Operation) → Bool
any_observation [] = false
any_observation ((s, op) ∷ calls) = is_observation op || any_observation calls

Transition-observation :
    (r m : RemoteControlRecord) (op : Operation)
    → Transition r op m
    → status_beq r.status enabled ≡ false
    → status_beq m.status enabled ≡ true
    → is_observation op ≡ true
Transition-observation r _ _ (observe_again expected i s f c) off on =
    absurd (ground (arith, off, on))
Transition-observation r _ _ (fail_other expected code n) off on = absurd (ground (arith, off, on))
Transition-observation r _ _ (request asked intent v n) off on = absurd (ground (arith, on))
Transition-observation r _ _ (succeed_enrolled s p) off on = absurd (ground (arith, on))
Transition-observation r _ _ (succeed s p) off on = absurd (ground (arith, on))
Transition-observation r _ _ (enroll name intent s n h) off on = absurd (ground (arith, on))
Transition-observation r _ _ (observe expected i intent s p f n g c port open_installer) off on =
    rw (c, port, open_installer)
Transition-observation r _ _ (fail_preflight code n) off on = absurd (ground (arith, on))
Transition-observation r _ _ (fail_any code n) off on = absurd (ground (arith, on))
Transition-observation r _ _ (fail_expected expected code n f) off on = absurd (ground (arith, on))
Transition-observation r _ _ (retry s n) off on = absurd (ground (arith, on))
Transition-observation r _ _ close off on = absurd (ground (arith, on))

Run-observation :
    (r a : RemoteControlRecord) (calls : List (InstallState × Operation))
    → Run r calls a
    → status_beq r.status enabled ≡ false
    → status_beq a.status enabled ≡ true
    → any_observation calls ≡ true
unfolding any_observation
Run-observation r a _ (start _) off on = absurd (ground (arith, off, on))
Run-observation r a _ (refuse _ _ s op calls rest) off on =
    ground (arith, Run-observation r a calls rest off on)
Run-observation r a _ (step _ m _ s op calls done t rest) off on =
    elim (Bool-cases (status_beq m.status enabled)) [
      | inl p ↦ ground (arith, Transition-observation r m op t off p)
      | inr p ↦ ground (arith, Run-observation m a calls rest p on)
    ]

-- Calls that lead from a record that is not `ENABLED` to one that is `ENABLED` have an observation
-- of the Control Center with no public port and no open installer.
pub enabled-observation :
    (calls : List (InstallState × Operation)) (q : RemoteControlStore) (r a : RemoteControlRecord)
    → read q ≡ ok r
    → status_beq r.status enabled ≡ false
    → read (call_all calls q) ≡ ok a
    → status_beq a.status enabled ≡ true
    → any_observation calls ≡ true
enabled-observation calls q r a e off f on =
    let i = call_all-HoldsAfter calls q r e in
    let same : i.held ≡ a = ground (arith, f, i.reads) in
    Run-observation r i.held calls i.run off (rw same on)

-- What the surface `CONTROL_CENTER` of a record says of it.
pub record Guarded (r : RemoteControlRecord) : Type 0 where
  pub is_enabled : r.status ≡ enabled
  pub intent : RemoteControlIntent
  pub accepted : r.intent ≡ some intent
  pub requested : intent.remote_access_requested ≡ true
  pub enrolled : r.enrolled_admin_passkey_rp_id ≡ some intent.control_hostname
  pub separate : intent.public_hostname ≢ intent.control_hostname
  pub has_tls : intent.tls_mode ≢ no_tls
  pub has_gateway : intent.gateway_provider ≢ no_gateway

Valid-check_intent :
    (intent : RemoteControlIntent)
    → validate_intent intent ≡ ok intent
    → check_intent intent ≡ ok tt
unfolding validate_intent
Valid-check_intent intent e =
    let (p, e1, f1) = chain_ok (hostname intent.public_hostname) _ _ e in
    let (c, e2, f2) = chain_ok (hostname intent.control_hostname) _ _ f1 in
    let named : RemoteControlIntent = record intent { public_hostname = p; control_hostname = c } in
    let (u, e3, f3) = chain_ok (check_intent named) _ _ f2 in
    let same : named ≡ intent = ground (arith, f3) in subst (λ i. check_intent i ≡ ok tt) same e3

check_intent-separate :
    (intent : RemoteControlIntent)
    → check_intent intent ≡ ok tt
    → intent.public_hostname ≢ intent.control_hostname
unfolding check_intent codes_beq
check_intent-separate intent e same =
    let equal : (intent.public_hostname == intent.control_hostname) ≡ true =
      (codes_beq_iff intent.public_hostname intent.control_hostname).1 same in
    absurd (ground (arith, e, equal))

accepted_some :
    (intent : RemoteControlIntent)
    → optional validate_intent (some intent) ≡ ok (some intent)
    → validate_intent intent ≡ ok intent
accepted_some intent e =
    let (b, g, f) = chain_ok (validate_intent intent) _ _ e in
    let same : b ≡ intent = ground (arith, f) in subst (λ i. validate_intent intent ≡ ok i) same g

some_of_beq : (o : Option Hostname) (h : Hostname) → option_beq o (some h) ≡ true → o ≡ some h
unfolding codes_beq
some_of_beq none h e = absurd (ground (arith, e))
some_of_beq (some k) h e = ap some ((codes_beq_iff k h).0 e)

Guarded-intent :
    (r : RemoteControlRecord) (intent : RemoteControlIntent)
    → Valid r
    → r.intent ≡ some intent
    → status_beq r.status enabled ≡ true
    → enrolled_admin_passkey r ≡ true
    → Guarded r
unfolding check_observed check_intent codes_beq
Guarded-intent r intent v n on p =
    let whole : optional validate_intent (some intent) ≡ ok (some intent) =
      rw n at v.intent_valid in
    let valid : validate_intent intent ≡ ok intent = accepted_some intent whole in
    let checks = Valid-check_intent intent valid in
    let known : is_requested r.intent ≡ true = ground (arith, v.observed, on) in
    let asked : intent.remote_access_requested ≡ true = rw n at known in
    record {
      is_enabled = ground (arith, on);
      intent = intent;
      accepted = n;
      requested = asked;
      enrolled = some_of_beq r.enrolled_admin_passkey_rp_id intent.control_hostname (rw n at p);
      separate = check_intent-separate intent checks;
      has_tls = λ t. absurd (ground (arith, checks, asked, t));
      has_gateway = λ t. absurd (ground (arith, checks, asked, t));
    }

-- A record that a store holds derives the surface `CONTROL_CENTER` only when its status is `ENABLED`,
-- its intent is requested with TLS, a gateway and two different hostnames, and the passkey was
-- enrolled for the control hostname.
pub control_center-Guarded :
    (q : RemoteControlStore) (r : RemoteControlRecord)
    → read q ≡ ok r
    → wan_surface r ≡ control_center
    → Guarded r
unfolding wan_surface
control_center-Guarded q r e s =
    let p : enrolled_admin_passkey r ≡ true = ground (arith, s) in
    elim (Option-cases r.intent) [
      | inl n ↦ absurd (ground (arith, n, p))
      | inr (intent, n) ↦ Guarded-intent r intent (read-Valid q r e) n (ground (arith, s)) p
    ]

closed_observed :
    (r : RemoteControlRecord)
    → check_observed (record r { status = disabled; error_code = none }) ≡ ok tt
unfolding check_observed
closed_observed r = refl

-- On a store that holds a record, with the installation complete, `disable` returns that record as
-- `DISABLED`, which is then what the store holds, and both its surfaces are closed.
pub disable-closes :
    (q : RemoteControlStore) (r : RemoteControlRecord)
    → read q ≡ ok r
    → let closing : RemoteControlRecord = record r { status = disabled; error_code = none } in
      ((call completed disable q).0 ≡ ok closing)
      × (read (call completed disable q).1 ≡ ok closing)
      × (wan_surface closing ≡ closed)
      × (publication_surface closing ≡ closed)
unfolding call require_completed change_of disable_change write wan_surface publication_surface
    value
disable-closes q r e =
    let v = read-Valid q r e in
    let closing : RemoteControlRecord = record r { status = disabled; error_code = none } in
    let good : validate_record closing ≡ ok closing = Valid-accepted closing (record {
      intent_valid = v.intent_valid;
      rp_id_valid = v.rp_id_valid;
      code_valid = refl;
      observed = closed_observed r;
    }) in
    (rw (e, good, good), rw (e, good, good) good, refl, refl)
