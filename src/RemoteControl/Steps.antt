-- ===== src/RemoteControl/Steps.antt =====
-- src/plaik_core/remote_control.py: each method that returns makes its transition.
use plaik.Prelude.{
  ◌≡◌, ◌≢◌, ◌↔◌, refl, sym, subst, String, Bool, true, false, ◌||◌, ◌&&◌, not, ◌==◌, inl, inr, none,
  some, arith, Bool-cases, Option-cases, option_beq, if◌then◌else◌,
}
use plaik.Prelude.Text.{codes_eq, codes_beq, codes_beq_iff}
use plaik.Prelude.Results.{ok, ◌>>=◌, chain_ok}
use plaik.RemoteControl.Store.{enroll_current, observe_current, is_provider}
use plaik.RemoteControl.Hostname.{Hostname}
use plaik.RemoteControl.Record.{
  is_enrolled, disabled, preflight, enrollment_pending, publication_pending, enabled, error,
  control_center, GatewayProviderName, provider_beq, RemoteControlIntent, RemoteControlRecord,
  hostname, validate_intent, enrolled_admin_passkey, optional, validate_record, records_match,
  status_beq,
}
use plaik.RemoteControl.Store.{
  RemoteControlStore, GatewayInspection, read, Change, write, passkey_rp_id_for_intent,
  fail_unlocked, request_change, preflight_failed_change, preflight_succeeded_change, enroll_change,
  observe_change, fail_change, fail_if_current_change, retry_change, disable_change, Operation,
  request_remote, preflight_failed, preflight_succeeded, record_admin_passkey_enrolled,
  observe_control_center, fail, fail_if_current, retry_preflight, disable, change_of,
}
use plaik.RemoteControl.Validity.{
  Valid, hostname_idem, validate_intent_idem, validate_record-Valid, validate_record-same,
}
use plaik.RemoteControl.Transition.{
  Transition, observe_again, fail_other, request, succeed_enrolled, succeed, enroll, observe,
  fail_preflight, fail_any, fail_expected, retry, close, Makes,
}

provider_beq_iff : (p k : GatewayProviderName) → (provider_beq p k ≡ true) ↔ (p ≡ k)
provider_beq_iff p k = ground arith

module _ (q : RemoteControlStore) (r : RemoteControlRecord) (e : read q ≡ ok r) (v : Valid r) where
  -- A write of a record with the intent and the RP ID of an accepted one.
  write-Makes :
      (op : Operation) (x a : RemoteControlRecord) (w : Bool)
      → optional validate_intent x.intent ≡ ok x.intent
      → optional hostname x.enrolled_admin_passkey_rp_id ≡ ok x.enrolled_admin_passkey_rp_id
      → Transition r op x
      → write x ≡ ok (a, w)
      → Makes op r a w
  unfolding write
  write-Makes op x a w i p t h =
      let (b, g, f) = chain_ok (validate_record x) _ _ h in
      let same : b ≡ a = ground (arith, f) in
      let written : true ≡ w = ground (arith, f) in
      let good : validate_record x ≡ ok a = rw (← same) g in
      record {
        transition = subst (λ y. Transition r op y) (sym (validate_record-same x a i p good)) t;
        settled =
            subst (λ c. if c then Valid a else (a ≡ r)) written (validate_record-Valid x a good);
      }

  stay-Makes :
      (op : Operation) (a : RemoteControlRecord) (w : Bool)
      → Transition r op r
      → ◌≡◌ {A = Change} (ok (r, false)) (ok (a, w))
      → Makes op r a w
  stay-Makes op a w t h =
      let same : r ≡ a = ground (arith, h) in
      let kept : false ≡ w = ground (arith, h) in
      record {
        transition = subst (λ y. Transition r op y) same t;
        settled = subst (λ c. if c then Valid a else (a ≡ r)) kept (sym same);
      }

  succeed-Makes :
      (a : RemoteControlRecord) (w : Bool)
      → preflight_succeeded_change q ≡ ok (a, w)
      → Makes preflight_succeeded r a w
  unfolding preflight_succeeded_change
  succeed-Makes a w h = elim (Bool-cases (enrolled_admin_passkey r)) [
    | inl p ↦
        write-Makes preflight_succeeded
          (record r { status = publication_pending; error_code = none }) a w v.intent_valid
          v.rp_id_valid (succeed_enrolled (ground (arith, e, h)) p) (ground (arith, e, h, p))
    | inr p ↦
        write-Makes preflight_succeeded
          (record r { status = enrollment_pending; error_code = none }) a w v.intent_valid
          v.rp_id_valid (succeed (ground (arith, e, h)) p) (ground (arith, e, h, p))
  ]

  preflight_failed-Makes :
      (code : String) (a : RemoteControlRecord) (w : Bool)
      → preflight_failed_change code q ≡ ok (a, w)
      → Makes (preflight_failed code) r a w
  unfolding preflight_failed_change fail_unlocked
  preflight_failed-Makes code a w h =
      write-Makes (preflight_failed code) (record r { status = error; error_code = some code }) a w
        v.intent_valid v.rp_id_valid (fail_preflight code (ground (arith, e, h)))
        (ground (arith, e, h))

  fail-Makes :
      (code : String) (a : RemoteControlRecord) (w : Bool)
      → fail_change code q ≡ ok (a, w)
      → Makes (fail code) r a w
  unfolding fail_change fail_unlocked
  fail-Makes code a w h =
      write-Makes (fail code) (record r { status = error; error_code = some code }) a w
        v.intent_valid v.rp_id_valid (fail_any code (λ d. absurd (ground (arith, e, h, d))))
        (ground (arith, e, h))

  fail_if_current-Makes :
      (expected : RemoteControlRecord) (code : String) (a : RemoteControlRecord) (w : Bool)
      → fail_if_current_change expected code q ≡ ok (a, w)
      → Makes (fail_if_current expected code) r a w
  unfolding fail_if_current_change fail_unlocked
  fail_if_current-Makes expected code a w h =
      elim (Bool-cases (not (records_match r expected) || status_beq r.status disabled)) [
        | inl p ↦
            stay-Makes (fail_if_current expected code) a w (fail_other expected code p)
              (ground (arith, e, h, p))
        | inr p ↦
            write-Makes (fail_if_current expected code)
              (record r { status = error; error_code = some code }) a w v.intent_valid v.rp_id_valid
              (fail_expected expected code (λ d. absurd (ground (arith, p, d))) (ground (arith, p)))
              (ground (arith, e, h, p))
      ]

  retry-Makes :
      (a : RemoteControlRecord) (w : Bool)
      → retry_change q ≡ ok (a, w)
      → Makes retry_preflight r a w
  unfolding retry_change
  retry-Makes a w h =
      write-Makes retry_preflight (record r { status = preflight; error_code = none }) a w
        v.intent_valid v.rp_id_valid (retry (ground (arith, e, h)) (ground (arith, e, h)))
        (ground (arith, e, h))

  disable-Makes :
      (a : RemoteControlRecord) (w : Bool) → disable_change q ≡ ok (a, w) → Makes disable r a w
  unfolding disable_change
  disable-Makes a w h =
      let x : RemoteControlRecord = record r { status = disabled; error_code = none } in
      let g : (validate_record x >>= write) ≡ ok (a, w) = ground (arith, e, h) in
      let (y, g1, g2) = chain_ok (validate_record x) write _ g in
      let same : y ≡ x = validate_record-same x y v.intent_valid v.rp_id_valid g1 in
      write-Makes disable x a w v.intent_valid v.rp_id_valid close
        (subst (λ z. write z ≡ ok (a, w)) same g2)

  enroll_current-intent :
      (rp_id : Hostname) (a : RemoteControlRecord) (w : Bool)
      → r.intent ≡ none
      → enroll_current rp_id r ≢ ok (a, w)
  unfolding enroll_current
  enroll_current-intent rp_id a w n f = ground (arith, f, n)

  observe_current-intent :
      (expected : RemoteControlRecord) (i : GatewayInspection) (a : RemoteControlRecord) (w : Bool)
      → r.intent ≡ none
      → observe_current expected i r ≢ ok (a, w)
  unfolding observe_current
  observe_current-intent expected i a w n f = ground (arith, f, n)

  enroll_current-Makes :
      (name rp_id : Hostname) (intent : RemoteControlIntent) (a : RemoteControlRecord) (w : Bool)
      → r.intent ≡ some intent
      → hostname name ≡ ok rp_id
      → enroll_current rp_id r ≡ ok (a, w)
      → Makes (record_admin_passkey_enrolled name) r a w
  unfolding enroll_current codes_beq
  enroll_current-Makes name rp_id intent a w n g f =
      let matched : is_enrolled r.intent (some rp_id) ≡ true = ground (arith, f) in
      let equal : (rp_id == intent.control_hostname) ≡ true = rw n at matched in
      let same : rp_id ≡ intent.control_hostname =
        (codes_beq_iff rp_id intent.control_hostname).0 equal in
      let named : hostname name ≡ ok intent.control_hostname = rw (← same) g in
      write-Makes (record_admin_passkey_enrolled name)
        (record r {
          enrolled_admin_passkey_rp_id = some intent.control_hostname;
          status = publication_pending;
          error_code = none;
        })
        a w v.intent_valid (rw (hostname_idem name intent.control_hostname named))
        (enroll name intent (ground (arith, f)) n named) (ground (arith, f, n, same))

  enroll-Makes :
      (name : Hostname) (a : RemoteControlRecord) (w : Bool)
      → enroll_change name q ≡ ok (a, w)
      → Makes (record_admin_passkey_enrolled name) r a w
  unfolding enroll_change
  enroll-Makes name a w h =
      let (rp_id, g, f) = chain_ok (hostname name) _ _ h in
      let f2 : enroll_current rp_id r ≡ ok (a, w) = rw e at f in
      elim (Option-cases r.intent) [
        | inl n ↦ absurd (enroll_current-intent rp_id a w n f2)
        | inr (intent, n) ↦ enroll_current-Makes name rp_id intent a w n g f2
      ]

  observe_current-Makes :
      (expected : RemoteControlRecord) (i : GatewayInspection) (intent : RemoteControlIntent)
      (a : RemoteControlRecord) (w : Bool)
      → i.surface ≡ control_center
      → i.control_port_public ≡ false
      → i.installer_open ≡ false
      → r.intent ≡ some intent
      → observe_current expected i r ≡ ok (a, w)
      → Makes (observe_control_center expected i) r a w
  unfolding observe_current
  observe_current-Makes expected i intent a w s c o n h =
      let matched : is_provider i.provider r.intent ≡ true = ground (arith, h) in
      let equal : provider_beq i.provider intent.gateway_provider ≡ true = rw n at matched in
      elim (Bool-cases (status_beq r.status enabled && enrolled_admin_passkey r)) [
        | inl p ↦
            stay-Makes (observe_control_center expected i) a w
              (observe_again expected i (ground (arith, p)) (ground (arith, h)) s)
              (ground (arith, h, p))
        | inr p ↦
            write-Makes (observe_control_center expected i)
              (record r { status = enabled; error_code = none }) a w v.intent_valid v.rp_id_valid
              (observe expected i intent (ground (arith, h, p)) (ground (arith, h, p))
                (ground (arith, h)) n
                ((provider_beq_iff i.provider intent.gateway_provider).0 equal) s c o)
              (ground (arith, h, p))
      ]

  observe-Makes :
      (expected : RemoteControlRecord) (i : GatewayInspection) (a : RemoteControlRecord) (w : Bool)
      → observe_change expected i q ≡ ok (a, w)
      → Makes (observe_control_center expected i) r a w
  unfolding observe_change
  observe-Makes expected i a w h =
      let f : observe_current expected i r ≡ ok (a, w) = ground (arith, e, h) in
      elim (Option-cases r.intent) [
        | inl n ↦ absurd (observe_current-intent expected i a w n f)
        | inr (intent, n) ↦
            observe_current-Makes expected i intent a w (ground (arith, h)) (ground (arith, h))
              (ground (arith, h)) n f
      ]

  passkey_rp_id-valid :
      (intent : RemoteControlIntent)
      → optional hostname (passkey_rp_id_for_intent r intent)
        ≡ ok (passkey_rp_id_for_intent r intent)
  unfolding passkey_rp_id_for_intent
  passkey_rp_id-valid intent =
      elim (Bool-cases (option_beq r.enrolled_admin_passkey_rp_id (some intent.control_hostname))) [
        | inl p ↦ rw p v.rp_id_valid
        | inr p ↦ rw p refl
      ]

  request-Makes :
      (asked : RemoteControlIntent) (a : RemoteControlRecord) (w : Bool)
      → request_change asked q ≡ ok (a, w)
      → Makes (request_remote asked) r a w
  unfolding request_change
  request-Makes asked a w h =
      let (intent, g, f) = chain_ok (validate_intent asked) _ _ h in
      let x : RemoteControlRecord = record {
        intent = some intent;
        status = preflight;
        enrolled_admin_passkey_rp_id = passkey_rp_id_for_intent r intent;
        error_code = none;
      } in
      let k : (validate_record x >>= write) ≡ ok (a, w) = ground (arith, e, f) in
      let (y, g1, g2) = chain_ok (validate_record x) write _ k in
      let valid : optional validate_intent x.intent ≡ ok x.intent =
        rw (validate_intent_idem asked intent g) in
      let named = passkey_rp_id-valid intent in
      let same : y ≡ x = validate_record-same x y valid named g1 in
      write-Makes (request_remote asked) x a w valid named
        (request asked intent g (ground (arith, f))) (subst (λ z. write z ≡ ok (a, w)) same g2)

  pub change_of-Makes :
      (op : Operation) (a : RemoteControlRecord) (w : Bool)
      → change_of op q ≡ ok (a, w)
      → Makes op r a w
  unfolding change_of
  change_of-Makes (request_remote asked) a w h = request-Makes asked a w h
  change_of-Makes (preflight_failed code) a w h = preflight_failed-Makes code a w h
  change_of-Makes preflight_succeeded a w h = succeed-Makes a w h
  change_of-Makes (record_admin_passkey_enrolled name) a w h = enroll-Makes name a w h
  change_of-Makes (observe_control_center expected i) a w h = observe-Makes expected i a w h
  change_of-Makes (fail code) a w h = fail-Makes code a w h
  change_of-Makes (fail_if_current expected code) a w h = fail_if_current-Makes expected code a w h
  change_of-Makes retry_preflight a w h = retry-Makes a w h
  change_of-Makes disable a w h = disable-Makes a w h
