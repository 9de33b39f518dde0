-- ===== src/Pairing/Attempts/Commit.antt =====
-- src/plaik_core/pairing.py: the section that compares a digest spends a guess.
use plaik.Prelude.{
  ℕ, ◌+◌, ◌≤◌, ◌≡◌, ◌≢◌, refl, ap, ◌∙◌, inl, inr, String, Bool, true, false, ◌&&◌, Option, arith,
  ◌==◌, string_eq, if◌then◌else◌, Bool-cases, Option-cases,
}
use plaik.Prelude.Methods
use plaik.Prelude.Results.{◌>>=◌, Result, ok, err, Result-cases, Method}
use plaik.RemoteControl.Hostname.{Hostname}
use plaik.RemoteControl.Store.{RemoteControlStore}
use plaik.Pairing.Code.{PairingError, value_error}
use plaik.Pairing.Request.{expected_control}
use plaik.Pairing.Store.{Hashing, StoredPairing, PairingStore, Verifier, read, is_some, same_live}
use plaik.Pairing.Sections.{consumed_pairing, or_release, same_or_rejected}
use plaik.Pairing.Consume.{commit_current, consume_verifier, compare, commit, hash_session}
use plaik.Pairing.Held.{
  has_code, left_of, has_room, Spends, Spends-refl, Holds, validate_pairing-same, read-Holds,
}
use plaik.Pairing.Attempts.{Agrees, read-Agrees, replace-Spends, or_release-Spends}
use plaik.Pairing.Attempts.Failure.{live-has_code, same_live-record, failure-Spends}

hash_session-ok :
    (hashing : Hashing) (token : String) (e : PairingError)
    → is_some (hashing.sha256 token) ≡ true
    → hash_session hashing token ≢ err e
unfolding hash_session
hash_session-ok hashing token e t n = ground (arith, t, n)

spend_all : (r : StoredPairing) → has_code r ≡ true → has_room r ≡ true → 0 + 1 ≤ left_of r
spend_all r c o = ground (arith, c, o)

compare-Spends :
    (hashing : Hashing) (v : Verifier) (r : StoredPairing) (control : Hostname) (digest : String)
    (now : ℕ) (token : String) (q : PairingStore)
    → Holds r q
    → has_code r ≡ true
    → is_some (hashing.sha256 token) ≡ true
    → Spends 1 q (compare hashing v r control digest now token q).1
unfolding compare consume_verifier
compare-Spends hashing v r control digest now token q h c t =
    elim (Bool-cases (digest == v.hash_hex)) [
      | inr p ↦ let (e, s) = failure-Spends r q h c in rw (p, e) s
      | inl p ↦ elim (Result-cases (hash_session hashing token)) [
        | inr (y, n) ↦ absurd (hash_session-ok hashing token y t n)
        | inl (session, n) ↦
            let x : StoredPairing = consumed_pairing r session now in
            let (e, s, k) = replace-Spends 1 r x q h refl (λ o. spend_all r c o) (λ o. refl) in
            rw (p, n, validate_pairing-same value_error x h.fixed) s
      ]
    ]

-- The record whose verifier the attempt is compared with, of the record that was read.
unfoldable pub compared_with :
    RemoteControlStore
    → Hostname
    → Verifier
    → ℕ
    → Option StoredPairing
    → Result PairingError StoredPairing
compared_with remote presented v now c = do
  control ← expected_control remote presented
  same_or_rejected v control now c

unfoldable pub to_compare :
    RemoteControlStore → Hostname → Verifier → ℕ → PairingStore → Result PairingError StoredPairing
unfolding compared_with
to_compare remote presented v now q = do c ← read q; compared_with remote presented v now c

abbrev pub is_ok : {A : Type 0} → Result PairingError A → Bool
is_ok (ok a) = true
is_ok (err e) = false

same_or_rejected-Holds :
    (v : Verifier) (control : Hostname) (now : ℕ) (c : Option StoredPairing) (r : StoredPairing)
    (q : PairingStore)
    → read q ≡ ok c
    → same_or_rejected v control now c ≡ ok r
    → Holds r q × (has_code r ≡ true)
unfolding same_or_rejected
same_or_rejected-Holds v control now c r q b n = elim (Option-cases (same_live v control now c)) [
  | inl k ↦ absurd (ground (arith, n, k))
  | inr (s, k) ↦
      let same : s ≡ r = ground (arith, n, k) in
      let (held, l, m) = same_live-record v control now c r (rw (← same) k) in
      (read-Holds q r (b ∙ ap ok held), live-has_code v.installation_id control now r l)
]

counted-Spends :
    {A : Type 0} (q : PairingStore) (b c : Bool) (x y : Result PairingError A × PairingStore)
    → Spends (if c then 1 else 0) q x.1
    → Spends 0 q y.1
    → Spends (if b && c then 1 else 0) q (if b then x else y).1
counted-Spends q true c x y s t = s
counted-Spends q false c x y s t = t

refused-Spends :
    {A B : Type 0} (v : Verifier) (c : Option StoredPairing) (e : PairingError) (q : PairingStore)
    (f : A → Method PairingError PairingStore B)
    → Agrees c q
    → Spends 0 q (Methods.◌>>=◌ (or_release {A = A} v c (err e)) f q).1
refused-Spends {A} v c e q f h = let (o, s) = or_release-Spends {A = A} v c e q h in rw o s

commit_current-Spends :
    (hashing : Hashing) (remote : RemoteControlStore) (presented : Hostname) (v : Verifier)
    (digest : String) (now : ℕ) (token : String) (q : PairingStore) (c : Option StoredPairing)
    → read q ≡ ok c
    → is_some (hashing.sha256 token) ≡ true
    → Spends
        (if is_ok (compared_with remote presented v now c) then 1 else 0)
        q
        (commit_current hashing remote presented v digest now token c q).1
unfolding commit_current compared_with
commit_current-Spends hashing remote presented v digest now token q c b t =
    let h = read-Agrees q c b in
    elim (Result-cases (expected_control remote presented)) [
      | inr (x, a) ↦ rw a (refused-Spends v c x q _ h)
      | inl (control, a) ↦ elim (Result-cases (same_or_rejected v control now c)) [
        | inr (x, n) ↦ rw (a, n) (refused-Spends v c x q _ h)
        | inl (r, n) ↦
            let (held, coded) = same_or_rejected-Holds v control now c r q b n in
            rw (a, n) (compare-Spends hashing v r control digest now token q held coded t)
      ]
    ]

-- An attempt that is compared spends a guess.
pub commit-Spends :
    (hashing : Hashing) (remote : RemoteControlStore) (presented : Hostname) (v : Verifier)
    (digest : String) (now : ℕ) (token : String) (q : PairingStore)
    → is_some (hashing.sha256 token) ≡ true
    → Spends
        (if q.home && is_ok (to_compare remote presented v now q) then 1 else 0)
        q
        (commit hashing remote presented v digest now token q).1
unfolding commit to_compare
commit-Spends hashing remote presented v digest now token q t =
    counted-Spends q q.home (is_ok (to_compare remote presented v now q)) _ _
      (elim (Result-cases (read q)) [
        | inr (x, b) ↦ rw b (Spends-refl q)
        | inl (c, b) ↦
            rw (Methods.◌>>=◌, b)
              (commit_current-Spends hashing remote presented v digest now token q c b t)
      ])
      (Spends-refl q)
