-- ===== src/RemoteControl/Validity.antt =====
-- src/plaik_core/remote_control.py: a record that its validators accepted is accepted again, as it is.
use plaik.Prelude.{◌≡◌, sym, ap, subst, ◌∙◌, inl, inr, String, Option, none, some, arith}
use plaik.Prelude.Results.{Result, ok, ◌>>=◌, chain_ok, Result-cases}
use plaik.RemoteControl.Hostname.{Hostname, validate_dns_hostname}
use plaik.RemoteControl.Hostname.Normal.{validate_dns_hostname_idem}
use plaik.RemoteControl.Record.{
  RemoteControlError, RemoteControlIntent, RemoteControlRecord, hostname, check_intent,
  validate_intent, optional, validate_error_code, check_observed, validate_record,
}

ok_inj : {A : Type 0} {a b : A} → ◌≡◌ {A = Result RemoteControlError A} (ok a) (ok b) → a ≡ b
ok_inj h = ground (arith, h)

pub hostname_idem : (v h : Hostname) → hostname v ≡ ok h → hostname h ≡ ok h
unfolding hostname
hostname_idem v h e = elim (Result-cases (validate_dns_hostname v)) [
  | inl (i, f) ↦
      let same : i ≡ h = ground (arith, e, f) in
      let again : validate_dns_hostname h ≡ ok h =
        validate_dns_hostname_idem v h (subst (λ k. validate_dns_hostname v ≡ ok k) same f) in
      rw (hostname, again)
  | inr (x, f) ↦ absurd (ground (arith, e, f))
]

pub validate_intent_idem :
    (i j : RemoteControlIntent) → validate_intent i ≡ ok j → validate_intent j ≡ ok j
unfolding validate_intent
validate_intent_idem i j e =
    let (p, e1, f1) = chain_ok (hostname i.public_hostname) _ _ e in
    let (q, e2, f2) = chain_ok (hostname i.control_hostname) _ _ f1 in
    let named : RemoteControlIntent = record i { public_hostname = p; control_hostname = q } in
    let (u, e3, f3) = chain_ok (check_intent named) _ _ f2 in
    let same : named ≡ j = ok_inj f3 in
    subst (λ k. validate_intent k ≡ ok k) same
      (rw (hostname_idem i.public_hostname p e1, hostname_idem i.control_hostname q e2, e3))

validate_error_code_idem :
    (c d : String) → validate_error_code c ≡ ok d → validate_error_code d ≡ ok d
unfolding validate_error_code
validate_error_code_idem c d e = ground (arith, e)

optional_idem :
    {A : Type 0} (f : A → Result RemoteControlError A)
    → ((a b : A) → f a ≡ ok b → f b ≡ ok b)
    → (o p : Option A) → optional f o ≡ ok p
    → optional f p ≡ ok p
optional_idem f idem none p e = ground (arith, e)
optional_idem f idem (some a) p e = elim (Result-cases (f a)) [
  | inl (b, g) ↦
      let same : some b ≡ p = ground (arith, e, g) in
      subst (λ k. optional f k ≡ ok k) same (rw (idem a b g))
  | inr (x, g) ↦ absurd (ground (arith, e, g))
]

-- What the validators check of a record that they return.
pub record Valid (r : RemoteControlRecord) : Type 0 where
  pub intent_valid : optional validate_intent r.intent ≡ ok r.intent
  pub rp_id_valid :
      optional hostname r.enrolled_admin_passkey_rp_id ≡ ok r.enrolled_admin_passkey_rp_id
  pub code_valid : optional validate_error_code r.error_code ≡ ok r.error_code
  pub observed : check_observed r ≡ ok tt

pub Valid-accepted : (r : RemoteControlRecord) → Valid r → validate_record r ≡ ok r
unfolding validate_record
Valid-accepted r v = rw (v.intent_valid, v.rp_id_valid, v.code_valid, v.observed)

pub validate_record-Valid : (v r : RemoteControlRecord) → validate_record v ≡ ok r → Valid r
unfolding validate_record
validate_record-Valid v r e =
    let (i, e1, f1) = chain_ok (optional validate_intent v.intent) _ _ e in
    let (k, e2, f2) = chain_ok (optional hostname v.enrolled_admin_passkey_rp_id) _ _ f1 in
    let (c, e3, f3) = chain_ok (optional validate_error_code v.error_code) _ _ f2 in
    let parsed : RemoteControlRecord = record v {
      intent = i;
      enrolled_admin_passkey_rp_id = k;
      error_code = c;
    } in
    let (u, e4, f4) = chain_ok (check_observed parsed) _ _ f3 in
    subst Valid (ok_inj f4) (record {
      intent_valid = optional_idem validate_intent validate_intent_idem v.intent i e1;
      rp_id_valid = optional_idem hostname hostname_idem v.enrolled_admin_passkey_rp_id k e2;
      code_valid = optional_idem validate_error_code validate_error_code_idem v.error_code c e3;
      observed = e4;
    })

same_code : (o p : Option String) → optional validate_error_code o ≡ ok p → p ≡ o
unfolding validate_error_code
same_code none p e = ground (arith, e)
same_code (some c) p e = ground (arith, e)

-- A record of an accepted intent and RP ID is returned as it is, when it is accepted.
pub validate_record-same :
    (v r : RemoteControlRecord)
    → optional validate_intent v.intent ≡ ok v.intent
    → optional hostname v.enrolled_admin_passkey_rp_id ≡ ok v.enrolled_admin_passkey_rp_id
    → validate_record v ≡ ok r
    → r ≡ v
unfolding validate_record
validate_record-same v r e1 e2 e =
    let f : (optional validate_error_code v.error_code >>= λ c.
    check_observed (record v { error_code = c }) >>= λ u. ok (record v { error_code = c }))
        ≡ ok r =
      rw (e1, e2) at e in
    let (c, e3, f3) = chain_ok (optional validate_error_code v.error_code) _ _ f in
    let parsed : RemoteControlRecord = record v { error_code = c } in
    let (u, e4, f4) = chain_ok (check_observed parsed) _ _ f3 in
    sym (ok_inj f4) ∙ ap (λ d. record v { error_code = d }) (same_code v.error_code c e3)
