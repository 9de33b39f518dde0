-- ===== src/Pairing/Store.antt =====
-- src/plaik_core/pairing.py, `PairingStore`: the stored credential, and what runs under its lock.
use plaik.Prelude.{
  ℕ, ◌+◌, ◌-◌, String, Bool, true, false, ◌&&◌, ◌||◌, not, Option, none, some, List, ltb, leb,
  nat_beq, ◌==◌, string_eq, option_beq, if◌then◌else◌,
}
use plaik.Prelude.Text.{codes_eq}
use plaik.Prelude.Results.{Result, ok, err, Method}
use plaik.Prelude.Methods.{◌>>=◌, return, lift, changing}
use plaik.RemoteControl.Hostname.{Hostname}
use plaik.Pairing.Code.{PairingError, store_unavailable, value_error}
use plaik.Pairing.Request.{hostname_or}

-- The hash functions, and the digits of bytes: `scrypt` of a password and a salt, and `sha256`, which
-- has no value for a text that is not ASCII, both written as hex digits.
pub record Hashing : Type 0 where
  pub to_hex : List ℕ → String
  pub from_hex : String → Option (List ℕ)
  pub scrypt : List ℕ → List ℕ → String
  pub sha256 : String → Option String

-- The durations, in microseconds.
abbrev pub pairing_ttl : ℕ
pairing_ttl = 600000000

abbrev pub enrollment_session_ttl : ℕ
enrollment_session_ttl = 900000000

abbrev pub in_flight_lease : ℕ
in_flight_lease = 30000000

abbrev pub max_failed_attempts : ℕ
max_failed_attempts = 8

pub record StoredPairing : Type 0 where
  pub installation_id : String
  pub control_hostname : Hostname
  pub code_salt_hex : Option String
  pub code_hash_hex : Option String
  pub issued_at : ℕ
  pub expires_at : ℕ
  pub consumed_at : Option ℕ
  pub failed_attempts : ℕ
  pub in_flight : ℕ
  pub in_flight_until : Option ℕ
  pub locked : Bool
  pub enrollment_session_hash_hex : Option String
  pub enrollment_expires_at : Option ℕ

pub data PairingFile : Type 0 where
  absent unreadable : PairingFile
  document : StoredPairing → PairingFile

-- The file, and whether its directory is there.
pub record PairingStore : Type 0 where
  pub home : Bool
  pub file : PairingFile

pub record IssuedPairing : Type 0 where
  pub code : List ℕ
  pub activate_host : Hostname
  pub control_hostname : Hostname
  pub expires_at : ℕ

pub record ConsumedPairing : Type 0 where
  pub enrollment_session_token : String
  pub enrollment_expires_at : ℕ
  pub control_hostname : Hostname

-- `StoredPairing.model_validate`, with the error for it.
unfoldable pub validate_pairing : PairingError → StoredPairing → Result PairingError StoredPairing
unfolding hostname_or
validate_pairing error r = elim (hostname_or error r.control_hostname) [
  | ok h ↦ ok (record r { control_hostname = h })
  | err e ↦ err e
]

unfoldable pub parse : PairingFile → Result PairingError (Option StoredPairing)
unfolding validate_pairing
parse absent = ok none
parse unreadable = err store_unavailable
parse (document r) = elim (validate_pairing store_unavailable r) [
  | ok v ↦ ok (some v)
  | err e ↦ err e
]

unfoldable pub read : PairingStore → Result PairingError (Option StoredPairing)
unfolding parse
read q = parse q.file

-- `_write_unlocked`
unfoldable pub put : StoredPairing → PairingStore → PairingStore
put r q = record q { file = document r }

-- `_write_unlocked(_replace_pairing(...))`
unfoldable pub replace : StoredPairing → Method PairingError PairingStore (Unit {0})
unfolding validate_pairing put
replace r = do v ← lift (validate_pairing value_error r); changing (put v)

-- `with pairing_file_lock(self.path, create_home=False)`
abbrev pub locked_section :
    {A : Type 0} → Method PairingError PairingStore A → Method PairingError PairingStore A
locked_section body q = if q.home then body q else (err store_unavailable, q)

-- `_effective_in_flight`
unfoldable pub effective_in_flight : StoredPairing → ℕ → ℕ
effective_in_flight r now = elim r.in_flight_until [
  | none ↦ 0
  | some until ↦ if leb until now then 0 else r.in_flight
]

abbrev pub is_some : {A : Type 0} → Option A → Bool
is_some none = false
is_some (some a) = true

unfoldable pub live_record : String → Hostname → ℕ → StoredPairing → Bool
live_record installation_id control now r =
    r.installation_id == installation_id
    && r.control_hostname == control
    && not (is_some r.consumed_at)
    && not r.locked
    && ltb now r.expires_at
    && is_some r.code_salt_hex
    && is_some r.code_hash_hex

-- The verifier that a consumer read, and whom it was read for.
pub record Verifier : Type 0 where
  pub salt_hex : String
  pub hash_hex : String
  pub installation_id : String

abbrev pub has_verifier : Verifier → StoredPairing → Bool
has_verifier v r =
    option_beq r.code_salt_hex (some v.salt_hex) && option_beq r.code_hash_hex (some v.hash_hex)

-- `_release_inflight_unlocked`
unfoldable pub release_inflight :
    Verifier → Option StoredPairing → Method PairingError PairingStore (Unit {0})
unfolding replace
release_inflight v none = return tt
release_inflight v (some r) =
    if not (has_verifier v r) || nat_beq r.in_flight 0
    then return tt
    else replace (record r {
      in_flight = r.in_flight - 1;
      in_flight_until = if leb r.in_flight 1 then none else r.in_flight_until;
    })

-- `_register_failure_unlocked`
unfoldable pub after_failure : StoredPairing → StoredPairing
after_failure r =
    let attempts = r.failed_attempts + 1 in
    let is_locked = leb max_failed_attempts attempts in
    let flying = if is_locked then 0 else r.in_flight - 1 in
    record r {
      code_salt_hex = if is_locked then none else r.code_salt_hex;
      code_hash_hex = if is_locked then none else r.code_hash_hex;
      failed_attempts = attempts;
      in_flight = flying;
      in_flight_until = if nat_beq flying 0 then none else r.in_flight_until;
      locked = is_locked;
    }

-- `_live_code_verifier`, and `_same_live_code_verifier` of the verifier that was read.
abbrev pub live : String → Hostname → ℕ → Option StoredPairing → Option StoredPairing
live installation_id control now none = none
live installation_id control now (some r) =
    if live_record installation_id control now r then some r else none

abbrev pub same_live : Verifier → Hostname → ℕ → Option StoredPairing → Option StoredPairing
same_live v control now none = none
same_live v control now (some r) =
    if live_record v.installation_id control now r && has_verifier v r then some r else none
