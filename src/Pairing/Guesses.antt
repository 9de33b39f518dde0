-- ===== src/Pairing/Guesses.antt =====
-- src/plaik_core/pairing.py: the sections that processes run on one credential, in any order.
use plaik.Prelude.{
  ℕ, ◌+◌, ◌≤◌, ◌≡◌, refl, String, Bool, true, ◌&&◌, List, [], ◌∷◌, arith, if◌then◌else◌, All, ◌⊎◌,
  inl, inr,
}
use plaik.Prelude.Results.{Result-cases}
use plaik.RemoteControl.Hostname.{Hostname}
use plaik.RemoteControl.Store.{RemoteControlStore}
use plaik.Pairing.Request.{PairingRequest}
use plaik.Pairing.Store.{Hashing, PairingStore, Verifier, is_some}
use plaik.Pairing.Sections.{reserve, fail_if_same, release_section}
use plaik.Pairing.Consume.{commit, destroy_after_passkey}
use plaik.Pairing.Held.{guesses_left, is_roomy, Spends}
use plaik.Pairing.Consumption.{commit-Consumes, Consumes-spent}
use plaik.Pairing.Attempts.Commit.{is_ok, to_compare, commit-Spends}
use plaik.Pairing.Attempts.{release_section-Spends, reserve-Spends, destroy-Spends}
use plaik.Pairing.Attempts.Failure.{fail_if_same-Spends}

-- A section that some process runs, with what it was given.
pub data Section : Type 0 where
  reserve_step : RemoteControlStore → Hostname → PairingRequest → ℕ → Section
  fail_step : Verifier → Hostname → ℕ → Section
  release_step : Verifier → Section
  commit_step : RemoteControlStore → Hostname → Verifier → String → ℕ → String → Section
  destroy_step : String → Hostname → String → Section

module _ (hashing : Hashing) where
  unfoldable pub after : Section → PairingStore → PairingStore
  after (reserve_step remote presented request moment) q =
      (reserve remote presented request moment q).1
  after (fail_step v control now) q = (fail_if_same v control now q).1
  after (release_step v) q = (release_section v q).1
  after (commit_step remote presented v digest now token) q =
      (commit hashing remote presented v digest now token q).1
  after (destroy_step installation_id control token) q =
      (destroy_after_passkey hashing installation_id control token q).1

  -- The section compares a digest with the stored one.
  unfoldable pub guess : Section → PairingStore → ℕ
  unfolding to_compare
  guess (commit_step remote presented v digest now token) q =
      if q.home && is_ok (to_compare remote presented v now q) then 1 else 0
  guess (reserve_step remote presented request moment) q = 0
  guess (fail_step v control now) q = 0
  guess (release_step v) q = 0
  guess (destroy_step installation_id control token) q = 0

  unfoldable pub guesses : List Section → PairingStore → ℕ
  unfolding guess after
  guesses [] q = 0
  guesses (s ∷ sections) q = guess s q + guesses sections (after s q)

  -- A token that is drawn has a digest.
  abbrev pub has_digest : Section → Bool
  has_digest (commit_step remote presented v digest now token) = is_some (hashing.sha256 token)
  has_digest (reserve_step remote presented request moment) = true
  has_digest (fail_step v control now) = true
  has_digest (release_step v) = true
  has_digest (destroy_step installation_id control token) = true

  after-Spends :
      (s : Section) (q : PairingStore) → has_digest s ≡ true → Spends (guess s q) q (after s q)
  unfolding guess after
  after-Spends (reserve_step remote presented request moment) q t =
      reserve-Spends remote presented request moment q
  after-Spends (fail_step v control now) q t = fail_if_same-Spends v control now q
  after-Spends (release_step v) q t = release_section-Spends v q
  after-Spends (commit_step remote presented v digest now token) q t =
      commit-Spends hashing remote presented v digest now token q t
  after-Spends (destroy_step installation_id control token) q t =
      destroy-Spends hashing installation_id control token q

  -- However the sections of any consumers are interleaved, the digests that are compared with a
  -- stored one are at most as many as the guesses that the record had left, where each token that is
  -- drawn has a digest and a code that can be guessed has a guess left.
  pub guesses-le :
      (sections : List Section) (q : PairingStore)
      → All (λ s. has_digest s ≡ true) sections
      → is_roomy q.file ≡ true
      → guesses sections q ≤ guesses_left q.file
  unfolding guesses
  guesses-le [] q t r = omega arith
  guesses-le (s ∷ sections) q t r =
      let i = after-Spends s q t.0 in
      let rest = guesses-le sections (after s q) t.1 (i.roomy r) in omega (arith, i.spent r, rest)

  -- The section consumes the code.
  unfoldable pub consumption : Section → PairingStore → ℕ
  consumption (commit_step remote presented v digest now token) q =
      if is_ok (commit hashing remote presented v digest now token q).0 then 1 else 0
  consumption (reserve_step remote presented request moment) q = 0
  consumption (fail_step v control now) q = 0
  consumption (release_step v) q = 0
  consumption (destroy_step installation_id control token) q = 0

  unfoldable pub consumptions : List Section → PairingStore → ℕ
  unfolding consumption after
  consumptions [] q = 0
  consumptions (s ∷ sections) q = consumption s q + consumptions sections (after s q)

  both : (b c : Bool) → b ≡ true → c ≡ true → (b && c) ≡ true
  both b c h k = ground (arith, h, k)

  -- A section consumes nothing; or it makes a guess, and no code is left to guess.
  consumption-cases :
      (s : Section) (q : PairingStore)
      → (consumption s q ≡ 0)
        ⊎ ((consumption s q ≡ 1)
            × (guess s q ≡ 1)
            × (guesses_left (after s q).file ≡ 0)
            × (is_roomy (after s q).file ≡ true))
  unfolding consumption guess after
  consumption-cases (reserve_step remote presented request moment) q = inl refl
  consumption-cases (fail_step v control now) q = inl refl
  consumption-cases (release_step v) q = inl refl
  consumption-cases (destroy_step installation_id control token) q = inl refl
  consumption-cases (commit_step remote presented v digest now token) q =
      elim (Result-cases (commit hashing remote presented v digest now token q).0) [
        | inr (x, e) ↦ inl (rw e)
        | inl (a, e) ↦
            let p = (commit hashing remote presented v digest now token q).1 in
            let i =
              commit-Consumes hashing remote presented v digest now token q p a (λ j. (e j, p)) in
            let (compared, l, r) =
              Consumes-spent hashing remote presented v digest now token q p a i in
            let counted : (q.home && is_ok (to_compare remote presented v now q)) ≡ true =
              both q.home (is_ok (to_compare remote presented v now q)) i.open_home compared in
            inr (rw e, rw counted, l, r)
      ]

  consumptions-le-guesses :
      (sections : List Section) (q : PairingStore) → consumptions sections q ≤ guesses sections q
  unfolding consumptions guesses
  consumptions-le-guesses [] q = omega arith
  consumptions-le-guesses (s ∷ sections) q =
      let rest = consumptions-le-guesses sections (after s q) in
      elim (consumption-cases s q) [
        | inl n ↦ omega (arith, n, rest)
        | inr (one, g, l, r) ↦ omega (arith, one, g, rest)
      ]

  -- However the sections are interleaved, at most one of them consumes the code.
  pub consumptions-le :
      (sections : List Section) (q : PairingStore)
      → All (λ s. has_digest s ≡ true) sections
      → consumptions sections q ≤ 1
  unfolding consumptions
  consumptions-le [] q t = omega arith
  consumptions-le (s ∷ sections) q t = elim (consumption-cases s q) [
    | inl n ↦ omega (arith, n, consumptions-le sections (after s q) t.1)
    | inr (one, g, l, r) ↦
        let none_left = guesses-le sections (after s q) t.1 r in
        let rest = consumptions-le-guesses sections (after s q) in
        omega (arith, one, l, none_left, rest)
  ]
