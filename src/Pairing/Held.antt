-- ===== src/Pairing/Held.antt =====
-- src/plaik_core/pairing.py: how many attempts a stored verifier has left, and the writes.
use plaik.Prelude.{
  ℕ, ◌+◌, ◌-◌, ◌≤◌, ◌≡◌, refl, ap, subst, inl, inr, Bool, true, ◌&&◌, ◌||◌, not, some, arith, ltb,
  if◌then◌else◌,
}
use plaik.Prelude.Results.{ok, Result-cases}
use plaik.RemoteControl.Hostname.{Hostname, validate_dns_hostname}
use plaik.RemoteControl.Hostname.Normal.{validate_dns_hostname_idem}
use plaik.Pairing.Code.{PairingError, store_unavailable, value_error}
use plaik.Pairing.Request.{hostname_or}
use plaik.Pairing.Store.{
  StoredPairing, PairingFile, absent, unreadable, document, PairingStore, validate_pairing, parse,
  read, put, replace, is_some,
}

-- The record has the salt and the digest of a code.
abbrev pub has_code : StoredPairing → Bool
has_code r = is_some r.code_salt_hex && is_some r.code_hash_hex

-- The wrong guesses that the record still allows.
abbrev pub left_of : StoredPairing → ℕ
left_of r = if has_code r then 8 - r.failed_attempts else 0

-- A code that can be guessed has a guess left.
abbrev pub has_room : StoredPairing → Bool
has_room r = not (has_code r) || ltb r.failed_attempts 8

abbrev pub guesses_left : PairingFile → ℕ
guesses_left absent = 0
guesses_left unreadable = 0
guesses_left (document r) = left_of r

abbrev pub is_roomy : PairingFile → Bool
is_roomy absent = true
is_roomy unreadable = true
is_roomy (document r) = has_room r

-- From `q` to `p` at least `n` guesses are spent.
pub record Spends (n : ℕ) (q p : PairingStore) : Type 0 where
  pub spent : is_roomy q.file ≡ true → guesses_left p.file + n ≤ guesses_left q.file
  pub roomy : is_roomy q.file ≡ true → is_roomy p.file ≡ true

pub Spends-refl : (q : PairingStore) → Spends 0 q q
Spends-refl q = record { spent = λ h. omega arith; roomy = λ h. h }

pub Spends-trans :
    (n m : ℕ) (q p o : PairingStore) → Spends n q p → Spends m p o → Spends (n + m) q o
Spends-trans n m q p o s t = record {
  spent = λ h. omega (arith, s.spent h, t.spent (s.roomy h));
  roomy = λ h. t.roomy (s.roomy h);
}

abbrev pub IsFixed : StoredPairing → Type 0
IsFixed r = hostname_or value_error r.control_hostname ≡ ok r.control_hostname

-- The store holds the record, up to how its hostname was written.
pub record Holds (r : StoredPairing) (q : PairingStore) : Type 0 where
  pub fixed : IsFixed r
  pub left_same : guesses_left q.file ≡ left_of r
  pub room_same : is_roomy q.file ≡ has_room r

pub put-Holds : (r : StoredPairing) (q : PairingStore) → IsFixed r → Holds r (put r q)
unfolding put
put-Holds r q f = record { fixed = f; left_same = refl; room_same = refl }

hostname_or_idem :
    (e d : PairingError) (v h : Hostname) → hostname_or e v ≡ ok h → hostname_or d h ≡ ok h
unfolding hostname_or
hostname_or_idem e d v h p = elim (Result-cases (validate_dns_hostname v)) [
  | inr (x, f) ↦ absurd (ground (arith, p, f))
  | inl (i, f) ↦
      let same : i ≡ h = ground (arith, p, f) in
      let again : validate_dns_hostname h ≡ ok h =
        validate_dns_hostname_idem v h (subst (λ k. validate_dns_hostname v ≡ ok k) same f) in
      rw (hostname_or, again)
]

-- What `validate_pairing` accepts is the record with its hostname written plainly.
pub validate_pairing-IsFixed :
    (e : PairingError) (r v : StoredPairing)
    → validate_pairing e r ≡ ok v
    → (record r { control_hostname = v.control_hostname } ≡ v) × IsFixed v
unfolding validate_pairing
validate_pairing-IsFixed e r v p = elim (Result-cases (hostname_or e r.control_hostname)) [
  | inr (x, f) ↦ absurd (ground (arith, p, f))
  | inl (h, f) ↦
      let named : record r { control_hostname = h } ≡ v = ground (arith, p, f) in
      let same : h ≡ v.control_hostname = ap (λ (x : StoredPairing). x.control_hostname) named in
      (
        subst (λ (k : Hostname). record r { control_hostname = k } ≡ v) same named,
        subst (λ (k : Hostname). hostname_or value_error k ≡ ok k) same
            (hostname_or_idem e value_error r.control_hostname h f),
      )
]

pub validate_pairing-same :
    (e : PairingError) (r : StoredPairing) → IsFixed r → validate_pairing e r ≡ ok r
unfolding validate_pairing
validate_pairing-same e r f =
    let again : hostname_or e r.control_hostname ≡ ok r.control_hostname =
      hostname_or_idem value_error e r.control_hostname r.control_hostname f in
    rw (validate_pairing, again)

-- A write of a record whose hostname is plain succeeds.
pub replace-put :
    (r : StoredPairing) (q : PairingStore) → IsFixed r → replace r q ≡ (ok tt, put r q)
unfolding replace
replace-put r q f = rw (validate_pairing-same value_error r f)

pub read-Holds : (q : PairingStore) (r : StoredPairing) → read q ≡ ok (some r) → Holds r q
unfolding read parse
read-Holds q r e = at q.file e
  where
    at : (f : PairingFile) → parse f ≡ ok (some r) → Holds r (record q { file = f })
    at absent h = absurd (ground (arith, h))
    at unreadable h = absurd (ground (arith, h))
    at (document x) h = elim (Result-cases (validate_pairing store_unavailable x)) [
      | inr (y, g) ↦ absurd (ground (arith, h, g))
      | inl (v, g) ↦
          let same : v ≡ r = ground (arith, h, g) in
          let (named, fixed) = validate_pairing-IsFixed store_unavailable x r (rw (← same) g) in
          record { fixed = fixed; left_same = ap left_of named; room_same = ap has_room named }
    ]
