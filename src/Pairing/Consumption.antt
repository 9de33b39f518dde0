-- ===== src/Pairing/Consumption.antt =====
-- src/plaik_core/pairing.py: what a commit that returns has seen and done; Pairs has it for `consume`.
use plaik.Prelude.{
  ℕ, ◌+◌, ◌≡◌, refl, sym, ap, subst, ◌∙◌, String, Bool, true, false, Option, some, List, arith,
  ◌==◌, string_eq, eq_iff, if◌then◌else◌, Bool-cases, Option-cases, inl, inr,
}
use plaik.Prelude.Methods
use plaik.Prelude.Results.{Method, Result, ok, err, Result-cases}
use plaik.RemoteControl.Hostname.{Hostname}
use plaik.RemoteControl.Store.{RemoteControlStore}
use plaik.Pairing.Code.{
  PairingError, denied, rejected, issue_unavailable, store_unavailable, value_error,
}
use plaik.Installer.{completed}
use plaik.Installer.Forward.{state_beq_same}
use plaik.Pairing.Code.{normalize_pairing_code}
use plaik.Pairing.Request.{expected_control, PairingRequest, host_from_header, require_completed}
use plaik.Pairing.Store.{
  Hashing, StoredPairing, PairingStore, ConsumedPairing, Verifier, release_inflight, replace,
  after_failure, read, put, live_record, has_verifier, same_live, enrollment_session_ttl,
}
use plaik.Pairing.Sections.{
  after_attempt, reserve, fail_if_same, released, as_unavailable, release_section, is_refusal,
  or_release, same_or_rejected, consumed_pairing,
}
use plaik.Pairing.Consume.{
  settle_code, settle_attempt, salt_bytes, digest_of, consume, consume_verifier, compare,
  commit_current, commit, hash_session,
}
use plaik.Pairing.Held.{guesses_left, is_roomy, Holds, read-Holds, validate_pairing-same}
use plaik.Pairing.Attempts.Commit.{is_ok, to_compare, compared_with}
use plaik.Pairing.Attempts.Failure.{same_live-record}
pub mod Reservation
pub mod Pairs

-- A commit that returns `a` and leaves `p`.
pub record Consumes (hashing : Hashing) (remote : RemoteControlStore) (presented : Hostname)
    (v : Verifier) (digest : String) (now : ℕ) (token : String) (q : PairingStore)
    (a : ConsumedPairing) (p : PairingStore) : Type 0 where
  pub open_home : q.home ≡ true
  pub current : StoredPairing
  pub stored : read q ≡ ok (some current)
  pub is_live : live_record v.installation_id a.control_hostname now current ≡ true
  pub same_verifier : has_verifier v current ≡ true
  pub expected : expected_control remote presented ≡ ok a.control_hostname
  pub matches : digest ≡ v.hash_hex
  pub session : String
  pub hashed : hash_session hashing token ≡ ok session
  pub given : a.enrollment_session_token ≡ token
  pub expires : a.enrollment_expires_at ≡ now + enrollment_session_ttl
  pub left : p ≡ put (consumed_pairing current session now) q

or_release_ok :
    {A : Type 0} (v : Verifier) (c : Option StoredPairing) (x : Result PairingError A)
    (q : PairingStore) (a : A)
    → (or_release v c x q).0 ≡ ok a
    → (x ≡ ok a) × ((or_release v c x q).1 ≡ q)
unfolding or_release
or_release_ok v c (ok b) q a h = (h, refl)
or_release_ok {A} v c (err e) q a h = elim (Bool-cases (is_refusal e)) [
  | inr p ↦ absurd (ground (arith, h, p))
  | inl p ↦
      let m : Method PairingError PairingStore A =
        Methods.◌>>◌ (release_inflight v c) (Methods.raise e) in
      let g : (m q).0 ≡ ok a = rw p at h in
      let (u, x, y) =
        Methods.chain_ok (λ w. Methods.raise e) a (m q).1 (release_inflight v c) q
          (λ i. (g i, (m q).1)) in
      absurd (ground (arith, y))
]

abbrev pub Answers :
    Result PairingError ConsumedPairing × PairingStore
    → Result PairingError ConsumedPairing × PairingStore
    → Type 0
Answers x y = ◌≡◌ {A = Result PairingError ConsumedPairing × PairingStore} x y

unlocked :
    (home : Bool) (x y : Result PairingError ConsumedPairing × PairingStore) (a : ConsumedPairing)
    (p : PairingStore)
    → home ≡ true
    → Answers (if home then x else y) (ok a, p)
    → Answers x (ok a, p)
unlocked true x y a p n e = e
unlocked false x y a p n e = absurd (ground (arith, n))

same_or_rejected-record :
    (v : Verifier) (control : Hostname) (now : ℕ) (c : Option StoredPairing) (r : StoredPairing)
    → same_or_rejected v control now c ≡ ok r
    → (c ≡ some r)
      × (live_record v.installation_id control now r ≡ true)
      × (has_verifier v r ≡ true)
unfolding same_or_rejected
same_or_rejected-record v control now c r e = elim (Option-cases (same_live v control now c)) [
  | inl n ↦ absurd (ground (arith, e, n))
  | inr (s, n) ↦
      let same : s ≡ r = ground (arith, e, n) in same_live-record v control now c r (rw (← same) n)
]

compare_ok :
    (hashing : Hashing) (v : Verifier) (r : StoredPairing) (control : Hostname) (digest : String)
    (now : ℕ) (token : String) (q p : PairingStore) (a : ConsumedPairing)
    → Holds r q
    → compare hashing v r control digest now token q ≡ (ok a, p)
    → (digest ≡ v.hash_hex)
      × (session : String) × (hash_session hashing token ≡ ok session)
      × ((record {
        enrollment_session_token = token;
        enrollment_expires_at = now + enrollment_session_ttl;
        control_hostname = control;
      })
          ≡ a)
      × (p ≡ put (consumed_pairing r session now) q)
unfolding compare consume_verifier
compare_ok hashing v r control digest now token q p a h e =
    elim (Bool-cases (digest == v.hash_hex)) [
      | inr n ↦
          let g : Answers (Methods.◌>>◌ (replace (after_failure r)) (Methods.raise rejected) q)
              (ok a, p) =
            rw n at e in
          let (u, x, y) =
            Methods.chain_ok (λ w. Methods.raise rejected) a p (replace (after_failure r)) q g in
          absurd (ground (arith, y))
      | inl n ↦ elim (Result-cases (hash_session hashing token)) [
        | inr (x, k) ↦
            let g : Answers (err x, q) (ok a, p) = rw (n, k) at e in absurd (ground (arith, g))
        | inl (session, k) ↦
            let b : ConsumedPairing = record {
              enrollment_session_token = token;
              enrollment_expires_at = now + enrollment_session_ttl;
              control_hostname = control;
            } in
            let x : StoredPairing = consumed_pairing r session now in
            let g : Answers (ok b, put x q) (ok a, p) =
              rw (n, k, validate_pairing-same value_error x h.fixed) at e in
            let same : b ≡ a = ground (arith, g) in
            (
              (eq_iff digest v.hash_hex).0 n,
              session,
              k,
              same,
              sym (ap (λ (o : Result PairingError ConsumedPairing × PairingStore). o.1) g),
            )
      ]
    ]

commit_current-Consumes :
    (hashing : Hashing) (remote : RemoteControlStore) (presented : Hostname) (v : Verifier)
    (digest : String) (now : ℕ) (token : String) (q p : PairingStore) (a : ConsumedPairing)
    (c : Option StoredPairing)
    → q.home ≡ true
    → read q ≡ ok c
    → commit_current hashing remote presented v digest now token c q ≡ (ok a, p)
    → Consumes hashing remote presented v digest now token q a p
unfolding commit_current same_or_rejected
commit_current-Consumes hashing remote presented v digest now token q p a c n b e =
    let settle =
      λ (control : Hostname). λ (r : StoredPairing). compare hashing v r control digest now token in
    let check = λ (control : Hostname).
      or_release {A = StoredPairing} v c (same_or_rejected v control now c) in
    let first = or_release {A = Hostname} v c (expected_control remote presented) in
    let (control, x, y) =
      Methods.chain_ok (λ k. Methods.◌>>=◌ (check k) (settle k)) a p first q e in
    let (expected, stays) = or_release_ok v c (expected_control remote presented) q control x in
    let y' : Answers (Methods.◌>>=◌ (check control) (settle control) q) (ok a, p) =
      subst
        (λ (o : PairingStore). Answers (Methods.◌>>=◌ (check control) (settle control) o) (ok a, p))
        stays y in
    let (r, z, w) = Methods.chain_ok (settle control) a p (check control) q y' in
    let (found, stays2) = or_release_ok v c (same_or_rejected v control now c) q r z in
    let w' : Answers (settle control r q) (ok a, p) =
      subst (λ (o : PairingStore). Answers (settle control r o) (ok a, p)) stays2 w in
    let (k, l, m) = same_or_rejected-record v control now c r found in
    let stored : read q ≡ ok (some r) = b ∙ ap ok k in
    let (matches, session, hashed, given, left) =
      compare_ok hashing v r control digest now token q p a (read-Holds q r stored) w' in
    let named : control ≡ a.control_hostname =
      ap (λ (o : ConsumedPairing). o.control_hostname) given in
    record {
      open_home = n;
      current = r;
      stored = stored;
      is_live = subst (λ (k : Hostname). live_record v.installation_id k now r ≡ true) named l;
      same_verifier = m;
      expected = expected ∙ ap ok named;
      matches = matches;
      session = session;
      hashed = hashed;
      given = sym (ap (λ (o : ConsumedPairing). o.enrollment_session_token) given);
      expires = sym (ap (λ (o : ConsumedPairing). o.enrollment_expires_at) given);
      left = left;
    }

-- A commit that returns has found the control hostname expected and the verifier live and unchanged,
-- the digest is that of the verifier, and the record that it leaves has a session for the token it
-- returns in place of the code.
pub commit-Consumes :
    (hashing : Hashing) (remote : RemoteControlStore) (presented : Hostname) (v : Verifier)
    (digest : String) (now : ℕ) (token : String) (q p : PairingStore) (a : ConsumedPairing)
    → commit hashing remote presented v digest now token q ≡ (ok a, p)
    → Consumes hashing remote presented v digest now token q a p
unfolding commit commit_current
commit-Consumes hashing remote presented v digest now token q p a e = elim (Bool-cases q.home) [
  | inr n ↦ absurd (ground (arith, e, n))
  | inl n ↦
      let body = commit_current hashing remote presented v digest now token in
      let g : Answers (Methods.◌>>=◌ (Methods.reading read) body q) (ok a, p) =
        unlocked q.home _ _ a p n e in
      let (c, b, e1) = Methods.chain_ok body a p (Methods.reading read) q g in
      commit_current-Consumes hashing remote presented v digest now token q p a c n b e1
]

-- It compared a digest, and no code is left to guess.
pub Consumes-spent :
    (hashing : Hashing) (remote : RemoteControlStore) (presented : Hostname) (v : Verifier)
    (digest : String) (now : ℕ) (token : String) (q p : PairingStore) (a : ConsumedPairing)
    → Consumes hashing remote presented v digest now token q a p
    → (is_ok (to_compare remote presented v now q) ≡ true)
      × (guesses_left p.file ≡ 0)
      × (is_roomy p.file ≡ true)
unfolding to_compare compared_with same_or_rejected put
Consumes-spent hashing remote presented v digest now token q p a i =
    let found : same_or_rejected v a.control_hostname now (some i.current) ≡ ok i.current =
      rw (same_or_rejected, i.is_live, i.same_verifier) in
    (
      rw (i.stored, i.expected, found),
      ap (λ (o : PairingStore). guesses_left o.file) i.left,
      ap (λ (o : PairingStore). is_roomy o.file) i.left,
    )
