-- ===== src/Pairing/Attempts/Failure.antt =====
-- src/plaik_core/pairing.py: a wrong guess spends one.
use plaik.Prelude.{
  ℕ, ◌+◌, ◌≤◌, ◌≡◌, refl, ap, ◌∙◌, inl, inr, String, true, ◌&&◌, Option, none, some, arith,
  string_eq, Bool-cases, Option-cases,
}
use plaik.Prelude.Results.{ok, Result-cases}
use plaik.RemoteControl.Hostname.{Hostname}
use plaik.Pairing.Store.{
  StoredPairing, PairingStore, Verifier, read, put, replace, after_failure, same_live, live_record,
  has_verifier,
}
use plaik.Pairing.Sections.{fail_current, fail_if_same}
use plaik.Pairing.Held.{has_code, left_of, has_room, Spends, Spends-refl, Holds, read-Holds}
use plaik.Pairing.Attempts.{read-Agrees, replace-Spends, release_inflight-Spends, if-Spends}

after_failure-room : (r : StoredPairing) → has_room r ≡ true → has_room (after_failure r) ≡ true
unfolding after_failure
after_failure-room r h = ground (arith, h)

after_failure-left :
    (r : StoredPairing)
    → has_code r ≡ true
    → has_room r ≡ true
    → left_of (after_failure r) + 1 ≤ left_of r
unfolding after_failure
after_failure-left r c h = ground (arith, c, h)

pub live-has_code :
    (installation_id : String) (control : Hostname) (now : ℕ) (r : StoredPairing)
    → live_record installation_id control now r ≡ true
    → has_code r ≡ true
unfolding live_record
live-has_code installation_id control now r h = ground (arith, h)

pub same_live-record :
    (v : Verifier) (control : Hostname) (now : ℕ) (c : Option StoredPairing) (r : StoredPairing)
    → same_live v control now c ≡ some r
    → (c ≡ some r)
      × (live_record v.installation_id control now r ≡ true)
      × (has_verifier v r ≡ true)
same_live-record v control now none r e = absurd (ground (arith, e))
same_live-record v control now (some s) r e =
    elim (Bool-cases (live_record v.installation_id control now s && has_verifier v s)) [
      | inr p ↦ absurd (ground (arith, e, p))
      | inl p ↦
          let same : s ≡ r = ground (arith, e, p) in
          (ap some same, rw (← same) (ground (arith, p)), rw (← same) (ground (arith, p)))
    ]

-- A wrong guess spends one.
pub failure-Spends :
    (r : StoredPairing) (q : PairingStore)
    → Holds r q
    → has_code r ≡ true
    → (replace (after_failure r) q ≡ (ok tt, put (after_failure r) q))
      × Spends 1 q (put (after_failure r) q)
unfolding after_failure
failure-Spends r q h c =
    let (e, s, k) =
      replace-Spends 1 r (after_failure r) q h refl (after_failure-left r c)
        (after_failure-room r) in
    (e, s)

Spends-less : (q p : PairingStore) → Spends 1 q p → Spends 0 q p
Spends-less q p s = record { spent = λ h. omega (arith, s.spent h); roomy = s.roomy }

pub fail_if_same-Spends :
    (v : Verifier) (control : Hostname) (now : ℕ) (q : PairingStore)
    → Spends 0 q (fail_if_same v control now q).1
unfolding fail_if_same fail_current
fail_if_same-Spends v control now q =
    if-Spends 0 q q.home _ _
      (elim (Result-cases (read q)) [
        | inr (x, b) ↦ rw b (Spends-refl q)
        | inl (c, b) ↦ elim (Option-cases (same_live v control now c)) [
          | inl n ↦ rw (b, n) (release_inflight-Spends v c q (read-Agrees q c b)).1
          | inr (r, n) ↦
              let (same, l, k) = same_live-record v control now c r n in
              let h = read-Holds q r (b ∙ ap ok same) in
              let (e, s) = failure-Spends r q h (live-has_code v.installation_id control now r l) in
              rw (b, n, e) (Spends-less q _ s)
        ]
      ])
      (Spends-refl q)
