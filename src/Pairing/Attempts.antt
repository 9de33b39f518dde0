-- ===== src/Pairing/Attempts.antt =====
-- src/plaik_core/pairing.py: what each section spends of the guesses of a code. This file has the
-- sections that compare nothing, Failure the wrong guess, Commit the section that compares.
use plaik.Prelude.{
  ℕ, ◌+◌, ◌-◌, ◌≤◌, ◌≡◌, ◌≢◌, refl, sym, ap, subst, ◌∙◌, inl, inr, String, Bool, true, false, ◌&&◌,
  ◌||◌, not, Option, none, some, arith, ltb, leb, nat_beq, ◌==◌, string_eq, if◌then◌else◌,
  Bool-cases, Option-cases,
}
use plaik.Prelude.Methods
use plaik.Prelude.Results.{◌>>=◌, Result, ok, err, Result-cases, Method}
use plaik.RemoteControl.Hostname.{Hostname}
use plaik.RemoteControl.Store.{RemoteControlStore}
use plaik.Pairing.Code.{PairingError, value_error}
use plaik.Pairing.Request.{PairingRequest, expected_control, request_checks}
use plaik.Pairing.Store.{
  Hashing, StoredPairing, PairingStore, Verifier, read, put, replace, is_some, after_failure,
  release_inflight, effective_in_flight, same_live, live, live_record, has_verifier,
}
use plaik.Pairing.Sections.{
  unlink_if, is_session, fail_current, consumed_pairing, expire_inflight, verifier_of,
  reserve_attempt, reserve_current, reserve, fail_if_same, is_refusal, or_release, same_or_rejected,
  release_section,
}
use plaik.Pairing.Consume.{
  commit_current, consume_verifier, compare, commit, destroy_after_passkey, hash_session,
}
use plaik.Pairing.Held.{
  has_code, left_of, has_room, Spends, Spends-refl, Spends-trans, IsFixed, Holds, put-Holds,
  validate_pairing-same, replace-put, read-Holds,
}
pub mod Failure
pub mod Commit

-- The store holds the record that was read, if one was.
abbrev pub Agrees : Option StoredPairing → PairingStore → Type 0
Agrees none q = Unit
Agrees (some r) q = Holds r q

pub read-Agrees : (q : PairingStore) (c : Option StoredPairing) → read q ≡ ok c → Agrees c q
read-Agrees q none e = tt
read-Agrees q (some r) e = read-Holds q r e

pub replace-Spends :
    (n : ℕ) (r x : StoredPairing) (q : PairingStore)
    → Holds r q
    → x.control_hostname ≡ r.control_hostname
    → (has_room r ≡ true → left_of x + n ≤ left_of r)
    → (has_room r ≡ true → has_room x ≡ true)
    → (replace x q ≡ (ok tt, put x q)) × Spends n q (put x q) × Holds x (put x q)
unfolding put
replace-Spends n r x q h same less room =
    let fixed : IsFixed x = rw same h.fixed in
    (
      replace-put x q fixed,
      record {
        spent = λ o. let o' : has_room r ≡ true = sym h.room_same ∙ o in rw h.left_same (less o');
        roomy = λ o. room (sym h.room_same ∙ o);
      },
      put-Holds x q fixed,
    )

pub release_inflight-Spends :
    (v : Verifier) (c : Option StoredPairing) (q : PairingStore)
    → Agrees c q
    → ((release_inflight v c q).0 ≡ ok tt) × Spends 0 q (release_inflight v c q).1
unfolding release_inflight
release_inflight-Spends v none q h = (refl, Spends-refl q)
release_inflight-Spends v (some r) q h =
    elim (Bool-cases (not (has_verifier v r) || nat_beq r.in_flight 0)) [
      | inl p ↦ rw p (refl, Spends-refl q)
      | inr p ↦
          let x : StoredPairing = record r {
            in_flight = r.in_flight - 1;
            in_flight_until = if leb r.in_flight 1 then none else r.in_flight_until;
          } in
          let (e, s, k) = replace-Spends 0 r x q h refl (λ o. omega arith) (λ o. o) in
          rw (p, e) (refl, s)
    ]

pub or_release-Spends :
    {A : Type 0} (v : Verifier) (c : Option StoredPairing) (e : PairingError) (q : PairingStore)
    → Agrees c q
    → ((or_release {A = A} v c (err e) q).0 ≡ err e)
      × Spends 0 q (or_release {A = A} v c (err e) q).1
unfolding or_release
or_release-Spends v c e q h = elim (Bool-cases (is_refusal e)) [
  | inl p ↦ let (o, s) = release_inflight-Spends v c q h in rw (p, o) (refl, s)
  | inr p ↦ rw p (refl, Spends-refl q)
]

-- A section that raises, or that leaves what the record that it returns says.
record Expires (q : PairingStore) (m : Result PairingError (Option StoredPairing) × PairingStore)
    : Type 0 where
  spends : Spends 0 q m.1
  agrees : (c : Option StoredPairing) → m.0 ≡ ok c → Agrees c m.1

expire_inflight-Expires :
    (moment : ℕ) (c : Option StoredPairing) (q : PairingStore)
    → Agrees c q
    → Expires q (expire_inflight moment c q)
unfolding expire_inflight
expire_inflight-Expires moment none q h = record {
  spends = Spends-refl q;
  agrees = λ c e. let same : none ≡ c = ground (arith, e) in subst (λ d. Agrees d q) same tt;
}
expire_inflight-Expires moment (some r) q h =
    elim (Bool-cases (nat_beq (effective_in_flight r moment) 0 && not (nat_beq r.in_flight 0))) [
      | inl p ↦
          let x : StoredPairing = record r { in_flight = 0; in_flight_until = none } in
          let (e, s, k) = replace-Spends 0 r x q h refl (λ o. omega arith) (λ o. o) in
          rw (p, validate_pairing-same value_error x h.fixed)
            (record {
              spends = s;
              agrees = λ c g.
                  let same : some x ≡ c = ground (arith, g) in
                  subst (λ d. Agrees d (put x q)) same k;
            })
      | inr p ↦ rw p (record {
        spends = Spends-refl q;
        agrees = λ c g. let same : some r ≡ c = ground (arith, g) in subst (λ d. Agrees d q) same h;
      })
    ]

live-Agrees :
    (installation_id : String) (control : Hostname) (now : ℕ) (c : Option StoredPairing)
    (q : PairingStore)
    → Agrees c q
    → Agrees (live installation_id control now c) q
live-Agrees installation_id control now none q h = tt
live-Agrees installation_id control now (some r) q h =
    elim (Bool-cases (live_record installation_id control now r)) [
      | inl p ↦ rw p h
      | inr p ↦ rw p tt
    ]

reserve_attempt-Spends :
    (moment : ℕ) (c : Option StoredPairing) (q : PairingStore)
    → Agrees c q
    → Spends 0 q (reserve_attempt moment c q).1
unfolding reserve_attempt
reserve_attempt-Spends moment none q h = Spends-refl q
reserve_attempt-Spends moment (some r) q h =
    elim (Bool-cases (ltb (r.failed_attempts + effective_in_flight r moment) 8)) [
      | inr p ↦ rw p (Spends-refl q)
      | inl p ↦
          elim (Result-cases (verifier_of r.code_salt_hex r.code_hash_hex r.installation_id)) [
            | inr (y, n) ↦ rw (p, n) (Spends-refl q)
            | inl (v, n) ↦
                let x : StoredPairing = record r {
                  in_flight = r.in_flight + 1;
                  in_flight_until = some (moment + 30000000);
                } in
                let (e, s, g) = replace-Spends 0 r x q h refl (λ o. omega arith) (λ o. o) in
                rw (p, n, e) s
          ]
    ]

-- A section under the lock.
pub if-Spends :
    {A : Type 0} (n : ℕ) (q : PairingStore) (b : Bool) (x y : Result PairingError A × PairingStore)
    → Spends n q x.1
    → Spends n q y.1
    → Spends n q (if b then x else y).1
if-Spends n q true x y s t = s
if-Spends n q false x y s t = t

pub release_section-Spends : (v : Verifier) (q : PairingStore) → Spends 0 q (release_section v q).1
unfolding release_section
release_section-Spends v q =
    if-Spends 0 q q.home _ _
      (elim (Result-cases (read q)) [
        | inr (x, e) ↦ rw e (Spends-refl q)
        | inl (c, e) ↦ rw e (release_inflight-Spends v c q (read-Agrees q c e)).1
      ])
      (Spends-refl q)

reserved-Spends :
    (request : PairingRequest) (control : Hostname) (moment : ℕ) (c : Option StoredPairing)
    (q : PairingStore)
    → Agrees c q
    → Spends 0 q (reserve_current request control moment c q).1
unfolding reserve_current
reserved-Spends request control moment c q h =
    let i = expire_inflight-Expires moment c q h in
    elim (Result-cases (expire_inflight moment c q).0) [
      | inr (x, e) ↦ rw e i.spends
      | inl (d, e) ↦
          let p : PairingStore = (expire_inflight moment c q).1 in
          let o = live request.installation_id control moment d in
          let s : Spends 0 p (reserve_attempt moment o p).1 =
            reserve_attempt-Spends moment o p
              (live-Agrees request.installation_id control moment d p (i.agrees d e)) in
          elim (Result-cases (reserve_attempt moment o p).0) [
            | inr (x, f) ↦ rw (e, f) (Spends-trans 0 0 q p _ i.spends s)
            | inl (v, f) ↦ rw (e, f) (Spends-trans 0 0 q p _ i.spends s)
          ]
    ]

unlink_if-Spends : (b : Bool) (q : PairingStore) → Spends 0 q (unlink_if b q).1
unfolding unlink_if
unlink_if-Spends true q = record { spent = λ h. omega arith; roomy = λ h. refl }
unlink_if-Spends false q = Spends-refl q

pub destroy-Spends :
    (hashing : Hashing) (installation_id : String) (control : Hostname) (token : String)
    (q : PairingStore)
    → Spends 0 q (destroy_after_passkey hashing installation_id control token q).1
unfolding destroy_after_passkey
destroy-Spends hashing installation_id control token q =
    elim (Result-cases (hash_session hashing token)) [
      | inr (x, a) ↦ rw a (Spends-refl q)
      | inl (session, a) ↦ rw a (
          if-Spends 0 q q.home _ _
            (elim (Result-cases (read q)) [
              | inr (x, b) ↦ rw b (Spends-refl q)
              | inl (c, b) ↦
                  rw b (unlink_if-Spends (is_session installation_id control session c) q)
            ])
            (Spends-refl q))
    ]

pub reserve-Spends :
    (remote : RemoteControlStore) (presented : Hostname) (request : PairingRequest) (moment : ℕ)
    (q : PairingStore)
    → Spends 0 q (reserve remote presented request moment q).1
unfolding reserve
reserve-Spends remote presented request moment q =
    if-Spends 0 q q.home _ _
      (elim (Result-cases (request_checks remote presented request)) [
        | inr (x, a) ↦ rw a (Spends-refl q)
        | inl (control, a) ↦ elim (Result-cases (read q)) [
          | inr (x, b) ↦ rw (a, b) (Spends-refl q)
          | inl (c, b) ↦ rw (a, b) (reserved-Spends request control moment c q (read-Agrees q c b))
        ]
      ])
      (Spends-refl q)
