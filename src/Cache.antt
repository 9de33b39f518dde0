-- ===== src/Cache.antt =====
-- src/plaik_core/cache.py, `NamespacedTTLCache`: the state and the operations. The clock is a
-- number that each operation is given, once for each reading. `get_or_set` is three critical sections,
-- `acquire` before the producer runs, `store_produced` and `release` after it; others may come between.
pub mod Operations
pub mod Generations
pub mod Interleaving
pub mod Singleflight
pub mod Bounds
mod Examples
use plaik.Prelude.{
  ℕ, ◌+◌, ◌≡◌, ◌↔◌, String, Bool, true, false, ◌&&◌, ◌||◌, not, Option, none, some, List, [], ◌∷◌,
  ltb, leb, nat_beq, ◌==◌, Eq, string_eq, eq_iff, if◌then◌else◌, length, arith,
}
use plaik.Prelude.Text.{codes, lower, digit, alphanumeric, head_tail, starts_with}
use plaik.Prelude.Dict.{Dict, lookup, insert, delete}
use plaik.Prelude.Results.{Result, ok, err, guard, ◌>>=◌, ◌>>◌, Method, checked}

pub data CacheError : Type 0 where
  invalid_namespace invalid_key invalid_ttl invalid_prefix : CacheError

-- A namespace and a key in it.
abbrev pub CacheKey : Type 0
CacheKey = String × String

abbrev pub key_beq : CacheKey → CacheKey → Bool
key_beq a b = a.0 == b.0 && a.1 == b.1

pub key_beq_iff : (a b : CacheKey) → (key_beq a b ≡ true) ↔ (a ≡ b)
key_beq_iff a b = ground (arith, eq_iff a.0 b.0, eq_iff a.1 b.1)

instance abbrev pub key_eq : Eq CacheKey
key_eq = record { beq = key_beq; beq_iff = key_beq_iff }

pub record CacheEntry (V : Type 0) : Type 0 where
  pub value : V
  pub expires_at : ℕ

-- `inflight` holds for each running producer the generation at which it began.
pub record Cache (V : Type 0) : Type 0 where
  pub maximum_entries : ℕ
  pub entries : Dict CacheKey (CacheEntry V)
  pub inflight : Dict CacheKey ℕ
  pub generations : Dict CacheKey ℕ
  pub hits : ℕ
  pub misses : ℕ
  pub writes : ℕ
  pub evictions : ℕ

namespace_tail : ℕ → Bool
namespace_tail c = lower c || digit c || nat_beq c b'.' || nat_beq c b'-'

key_tail : ℕ → Bool
key_tail c =
    alphanumeric c
    || nat_beq c b'.'
    || nat_beq c b'_'
    || nat_beq c b':'
    || nat_beq c b'/'
    || nat_beq c b'-'

unfoldable pub validate_namespace : String → Result CacheError (Unit {0})
unfolding namespace_tail head_tail
validate_namespace namespace =
    guard (head_tail lower namespace_tail 1 127 (codes namespace)) invalid_namespace

unfoldable pub validated_key : String → String → Result CacheError CacheKey
unfolding validate_namespace key_tail head_tail
validated_key namespace key = do
  validate_namespace namespace
  guard (head_tail alphanumeric key_tail 0 255 (codes key)) invalid_key
  ok (namespace, key)

abbrev pub is_some : {A : Type 0} → Option A → Bool
is_some none = false
is_some (some _) = true

abbrev pub or_zero : Option ℕ → ℕ
or_zero none = 0
or_zero (some n) = n

-- `self._generations.get(key, 0)`
abbrev pub generation : {V : Type 0} → CacheKey → Cache V → ℕ
generation k c = or_zero (lookup k c.generations)

abbrev pub is_inflight : {V : Type 0} → CacheKey → Cache V → Bool
is_inflight k c = is_some (lookup k c.inflight)

-- `0 < ttl <= 31_536_000`
abbrev pub ttl_allowed : ℕ → Bool
ttl_allowed ttl = ltb 0 ttl && leb ttl 31536000

module _ {V : Type 0} where
  -- `_bump_generation_locked`
  unfoldable pub bump_generation : CacheKey → Cache V → Cache V
  bump_generation k c = record c { generations = insert k (generation k c + 1) c.generations }

  -- `self._generations.pop(key, None)`
  unfoldable pub forget_generation : CacheKey → Cache V → Cache V
  forget_generation k c = record c { generations = delete k c.generations }

  -- A running producer of the key is outdated; without one the generation is forgotten.
  unfoldable pub outdate : CacheKey → Cache V → Cache V
  unfolding bump_generation forget_generation
  outdate k c = if is_inflight k c then bump_generation k c else forget_generation k c

  -- An entry whose time is over is dropped, with its generation unless a producer runs.
  unfoldable pub drop_expired : CacheKey → Cache V → Cache V
  unfolding forget_generation
  drop_expired k c =
      let c' = record c { entries = delete k c.entries } in
      if is_inflight k c then c' else forget_generation k c'

  -- `_get_locked`
  unfoldable pub get_locked : CacheKey → ℕ → Cache V → Option V × Cache V
  unfolding drop_expired
  get_locked k now c = elim (lookup k c.entries) [
    | none ↦ (none, c)
    | some entry ↦
        if leb entry.expires_at now
        then (none, record (drop_expired k c) { evictions = c.evictions + 1 })
        else (some entry.value, c)
  ]

  unfoldable pub expired_keys : ℕ → Dict CacheKey (CacheEntry V) → List CacheKey
  expired_keys now [] = []
  expired_keys now ((k, entry) ∷ m) =
      let rest = expired_keys now m in if leb entry.expires_at now then k ∷ rest else rest

  unfoldable pub drop_all : List CacheKey → Cache V → Cache V
  unfolding drop_expired
  drop_all [] c = c
  drop_all (k ∷ ks) c = drop_all ks (drop_expired k c)

  -- `_purge_expired_locked`
  unfoldable pub purge_expired : ℕ → Cache V → Cache V
  unfolding expired_keys drop_all
  purge_expired now c =
      let expired = expired_keys now c.entries in
      record (drop_all expired c) { evictions = c.evictions + length expired }

  unfoldable pub evict : Dict CacheKey (CacheEntry V) → Cache V → Cache V
  unfolding outdate
  evict [] c = c
  evict ((oldest, entry) ∷ m) c =
      record (outdate oldest (record c { entries = delete oldest c.entries })) {
        evictions = c.evictions + 1;
      }

  -- At capacity a new key evicts the oldest entry.
  unfoldable pub make_room : CacheKey → Cache V → Cache V
  unfolding evict
  make_room k c =
      if not (is_some (lookup k c.entries)) && leb c.maximum_entries (length c.entries)
      then evict c.entries c
      else c

  -- `_store_locked`; the clock is read at the purge and again for the expiry.
  unfoldable pub store_locked : CacheKey → V → ℕ → ℕ → ℕ → Cache V → Cache V
  unfolding purge_expired make_room
  store_locked k value ttl now later c =
      let c' = make_room k (purge_expired now c) in
      record c' {
        entries = insert k (record { value = value; expires_at = later + ttl }) c'.entries;
        writes = c'.writes + 1;
      }
