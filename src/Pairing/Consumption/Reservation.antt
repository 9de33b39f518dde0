-- ===== src/Pairing/Consumption/Reservation.antt =====
-- src/plaik_core/pairing.py: what a reservation of `consume` that returns has seen.
use plaik.Prelude.{
  ℕ, ◌+◌, ◌<◌, ◌≡◌, refl, sym, ap, subst, ◌∙◌, String, Bool, true, false, ◌&&◌, not, Option, none,
  some, arith, nat_beq, ltb, string_eq, eq_iff, if◌then◌else◌, Bool-cases, inl, inr,
}
use plaik.Prelude.Text.{codes_eq}
use plaik.Prelude.Methods
use plaik.Prelude.Results.{Result, ok, err}
use plaik.RemoteControl.Hostname.{Hostname}
use plaik.RemoteControl.Store.{RemoteControlStore}
use plaik.Pairing.Code.{PairingError, value_error, rejected, store_unavailable}
use plaik.Pairing.Request.{PairingRequest, request_checks}
use plaik.Pairing.Store.{
  StoredPairing, PairingStore, Verifier, read, live, live_record, is_some, replace,
  effective_in_flight, in_flight_lease, max_failed_attempts,
}
use plaik.Pairing.Sections.{reserve, reserve_current, reserve_attempt, expire_inflight, verifier_of}
use plaik.Pairing.Held.{IsFixed, read-Holds, validate_pairing-same}

-- A record of a code that could be guessed at `now`, for an installation and a hostname.
pub record IsLive (installation_id : String) (control : Hostname) (now : ℕ) (r : StoredPairing)
    : Type 0 where
  pub installation : r.installation_id ≡ installation_id
  pub hostname : r.control_hostname ≡ control
  pub unconsumed : r.consumed_at ≡ none
  pub unlocked : r.locked ≡ false
  pub in_time : now < r.expires_at

not_some : {A : Type 0} (o : Option A) → not (is_some o) ≡ true → o ≡ none
not_some none h = refl
not_some (some a) h = absurd (ground (arith, h))

pub live_record-IsLive :
    (installation_id : String) (control : Hostname) (now : ℕ) (r : StoredPairing)
    → live_record installation_id control now r ≡ true
    → IsLive installation_id control now r
unfolding live_record
live_record-IsLive installation_id control now r h = record {
  installation = (eq_iff r.installation_id installation_id).0 (ground (arith, h));
  hostname = (codes_eq.beq_iff r.control_hostname control).0 (ground (arith, h));
  unconsumed = not_some r.consumed_at (ground (arith, h));
  unlocked = ground (arith, h);
  in_time = ground (arith, h);
}

-- The record that a reservation read, and that the verifier is of.
pub record Reserves (before : RemoteControlStore) (presented : Hostname) (request : PairingRequest)
    (moment : ℕ) (q : PairingStore) (v : Verifier) (control : Hostname) : Type 0 where
  pub admitted : request_checks before presented request ≡ ok control
  pub stored : StoredPairing
  pub was_read : read q ≡ ok (some stored)
  pub is_live : IsLive request.installation_id control moment stored
  pub attempts_left : stored.failed_attempts < 8
  pub salt : stored.code_salt_hex ≡ some v.salt_hex
  pub hash : stored.code_hash_hex ≡ some v.hash_hex
  pub installation : v.installation_id ≡ request.installation_id

verifier_of_ok :
    (salt hash : Option String) (installation_id : String) (v : Verifier)
    → verifier_of salt hash installation_id ≡ ok v
    → (salt ≡ some v.salt_hex) × (hash ≡ some v.hash_hex) × (v.installation_id ≡ installation_id)
verifier_of_ok none hash installation_id v e = absurd (ground (arith, e))
verifier_of_ok (some salt) none installation_id v e = absurd (ground (arith, e))
verifier_of_ok (some salt) (some hash) installation_id v e =
    let same : (record { salt_hex = salt; hash_hex = hash; installation_id = installation_id })
        ≡ v =
      ground (arith, e) in
    (
      ap (λ (x : Verifier). some x.salt_hex) same,
      ap (λ (x : Verifier). some x.hash_hex) same,
      ap (λ (x : Verifier). x.installation_id) (sym same),
    )

-- The verifier is that of the record, which has attempts left.
abbrev Attempt : Option StoredPairing → Verifier → Type 0
Attempt o v =
    (r : StoredPairing) × (o ≡ some r)
    × (r.failed_attempts < 8)
    × (r.code_salt_hex ≡ some v.salt_hex)
    × (r.code_hash_hex ≡ some v.hash_hex)
    × (v.installation_id ≡ r.installation_id)

Attempt-ok :
    (moment : ℕ) (o : Option StoredPairing) (q : PairingStore) (v : Verifier)
    → (reserve_attempt moment o q).0 ≡ ok v
    → Attempt o v
unfolding reserve_attempt
Attempt-ok moment none q v e = absurd (ground (arith, e))
Attempt-ok moment (some r) q v e =
    let return_of = λ (w : Verifier). Methods.return {E = PairingError} {S = PairingStore} w in
    let reserved = λ (w : Verifier).
      Methods.◌>>◌
        (replace (record r {
          in_flight = r.in_flight + 1;
          in_flight_until = some (moment + in_flight_lease);
        }))
        (return_of w) in
    let chosen =
      Methods.◌>>=◌ (Methods.lift (verifier_of r.code_salt_hex r.code_hash_hex r.installation_id))
        reserved in
    let p = (reserve_attempt moment (some r) q).1 in
    let test = ltb (r.failed_attempts + effective_in_flight r moment) max_failed_attempts in
    let (u, a, e1) =
      Methods.chain_ok (λ w. chosen) v p (Methods.assert test rejected) q (λ i. (e i, p)) in
    let (w, b, e2) =
      Methods.chain_ok reserved v p
        (Methods.lift (verifier_of r.code_salt_hex r.code_hash_hex r.installation_id)) q e1 in
    let (u', c, e3) =
      Methods.chain_ok (λ u. return_of w) v p
        (replace (record r {
          in_flight = r.in_flight + 1;
          in_flight_until = some (moment + in_flight_lease);
        }))
        q e2 in
    let same : w ≡ v = ground (arith, e3) in
    let (x, y, z) =
      verifier_of_ok r.code_salt_hex r.code_hash_hex r.installation_id v (b ∙ ap ok same) in
    (r, refl, ground (arith, a), x, y, z)

live_ok :
    (installation_id : String) (control : Hostname) (now : ℕ) (c : Option StoredPairing)
    (r : StoredPairing)
    → live installation_id control now c ≡ some r
    → (c ≡ some r) × (live_record installation_id control now r ≡ true)
live_ok installation_id control now none r e = absurd (ground (arith, e))
live_ok installation_id control now (some s) r e =
    elim (Bool-cases (live_record installation_id control now s)) [
      | inr p ↦ absurd (ground (arith, e, p))
      | inl p ↦ let same : s ≡ r = ground (arith, e, p) in (ap some same, rw (← same) p)
    ]

expire_ok :
    (moment : ℕ) (c : Option StoredPairing) (q : PairingStore) (r : StoredPairing)
    → ((s : StoredPairing) → c ≡ some s → IsFixed s)
    → (expire_inflight moment c q).0 ≡ ok (some r)
    → (s : StoredPairing) × (c ≡ some s)
      × (record s { in_flight = r.in_flight; in_flight_until = r.in_flight_until } ≡ r)
unfolding expire_inflight
expire_ok moment none q r f e = absurd (ground (arith, e))
expire_ok moment (some s) q r f e =
    elim (Bool-cases (nat_beq (effective_in_flight s moment) 0 && not (nat_beq s.in_flight 0))) [
      | inl p ↦
          let x : StoredPairing = record s { in_flight = 0; in_flight_until = none } in
          let g : ◌≡◌ {A = Result PairingError (Option StoredPairing)} (ok (some x)) (ok (some r)) =
            rw (p, validate_pairing-same value_error x (f s refl)) at e in
          let same : x ≡ r = ground (arith, g) in
          (
            s,
            refl,
            ap
                  (λ (y : StoredPairing). record s {
                    in_flight = y.in_flight;
                    in_flight_until = y.in_flight_until;
                  })
                  (sym same)
                ∙ same,
          )
      | inr p ↦
          let same : s ≡ r = ground (arith, e, p) in
          (
            s,
            refl,
            ap
                  (λ (y : StoredPairing). record s {
                    in_flight = y.in_flight;
                    in_flight_until = y.in_flight_until;
                  })
                  (sym same)
                ∙ same,
          )
    ]

kept-IsLive :
    (installation_id : String) (control : Hostname) (now : ℕ) (s r : StoredPairing)
    → record s { in_flight = r.in_flight; in_flight_until = r.in_flight_until } ≡ r
    → IsLive installation_id control now r
    → IsLive installation_id control now s
kept-IsLive installation_id control now s r kept i = record {
  installation = ap (λ (z : StoredPairing). z.installation_id) kept ∙ i.installation;
  hostname = ap (λ (z : StoredPairing). z.control_hostname) kept ∙ i.hostname;
  unconsumed = ap (λ (z : StoredPairing). z.consumed_at) kept ∙ i.unconsumed;
  unlocked = ap (λ (z : StoredPairing). z.locked) kept ∙ i.unlocked;
  in_time = subst (λ (z : StoredPairing). now < z.expires_at) (sym kept) i.in_time;
}

gathered :
    (before : RemoteControlStore) (presented : Hostname) (request : PairingRequest) (moment : ℕ)
    (q : PairingStore) (v : Verifier) (control k : Hostname) (c d : Option StoredPairing)
    → request_checks before presented request ≡ ok control
    → read q ≡ ok c
    → (expire_inflight moment c q).0 ≡ ok d
    → Attempt (live request.installation_id k moment d) v
    → k ≡ control
    → Reserves before presented request moment q v control
gathered before presented request moment q v control k c d a b x (r, l, left, salt, hash, id)
      named =
    let (m, live_r) = live_ok request.installation_id k moment d r l in
    let (s, o, kept) =
      expire_ok moment c q r (λ s z. (read-Holds q s (b ∙ ap ok z)).fixed) (x ∙ ap ok m) in
    let i = live_record-IsLive request.installation_id k moment r live_r in
    let was = kept-IsLive request.installation_id k moment s r kept i in
    record {
      admitted = a;
      stored = s;
      was_read = b ∙ ap ok o;
      is_live = subst (λ (h : Hostname). IsLive request.installation_id h moment s) named was;
      attempts_left = subst (λ (z : StoredPairing). z.failed_attempts < 8) (sym kept) left;
      salt = ap (λ (z : StoredPairing). z.code_salt_hex) kept ∙ salt;
      hash = ap (λ (z : StoredPairing). z.code_hash_hex) kept ∙ hash;
      installation = id ∙ i.installation;
    }

opened :
    (home : Bool) (x y : Result PairingError (Verifier × Hostname) × PairingStore)
    (a : Verifier × Hostname)
    → home ≡ true
    → (if home then x else y).0 ≡ ok a
    → ◌≡◌ {A = Result PairingError (Verifier × Hostname) × PairingStore} x
        (ok a, (if home then x else y).1)
opened true x y a n e = λ i. (e i, x.1)
opened false x y a n e = absurd (ground (arith, n))

-- A reservation that returns admitted the request and read a record of a live code with attempts
-- left.
pub reserve-Reserves :
    (before : RemoteControlStore) (presented : Hostname) (request : PairingRequest) (moment : ℕ)
    (q : PairingStore) (v : Verifier) (control : Hostname)
    → (reserve before presented request moment q).0 ≡ ok (v, control)
    → Reserves before presented request moment q v control
unfolding reserve reserve_current
reserve-Reserves before presented request moment q v control e = elim (Bool-cases q.home) [
  | inr n ↦ absurd (ground (arith, e, n))
  | inl n ↦
      let p = (reserve before presented request moment q).1 in
      let given = λ (k : Hostname).
        λ (w : Verifier). Methods.return {E = PairingError} {S = PairingStore} (w, k) in
      let attempt = λ (k : Hostname). λ (c : Option StoredPairing).
        Methods.◌>>=◌ (reserve_attempt moment (live request.installation_id k moment c))
          (given k) in
      let current = λ (k : Hostname).
        λ (c : Option StoredPairing). Methods.◌>>=◌ (expire_inflight moment c) (attempt k) in
      let found = λ (k : Hostname). Methods.◌>>=◌ (Methods.reading read) (current k) in
      let first = Methods.◌>>=◌ (Methods.lift (request_checks before presented request)) found in
      let g : ◌≡◌ {A = Result PairingError (Verifier × Hostname) × PairingStore} (first q)
          (ok (v, control), p) =
        opened q.home (first q) (err store_unavailable, q) (v, control) n e in
      let (k, a, e1) =
        Methods.chain_ok found (v, control) p
          (Methods.lift (request_checks before presented request)) q g in
      let (c, b, e2) = Methods.chain_ok (current k) (v, control) p (Methods.reading read) q e1 in
      let (d, x, e3) =
        Methods.chain_ok (attempt k) (v, control) p (expire_inflight moment c) q e2 in
      let q2 = (expire_inflight moment c q).1 in
      let (w, y, e4) =
        Methods.chain_ok (given k) (v, control) p
          (reserve_attempt moment (live request.installation_id k moment d)) q2 e3 in
      let out : ◌≡◌ {A = Verifier × Hostname} (w, k) (v, control) = ground (arith, e4) in
      let same : w ≡ v = ap (λ (o : Verifier × Hostname). o.0) out in
      let named : k ≡ control = ap (λ (o : Verifier × Hostname). o.1) out in
      gathered before presented request moment q v control k c d (a ∙ ap ok named) b x
        (Attempt-ok moment (live request.installation_id k moment d) q2 v (y ∙ ap ok same)) named
]
