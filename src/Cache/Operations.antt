-- ===== src/Cache/Operations.antt =====
-- src/plaik_core/cache.py, `NamespacedTTLCache`: the public operations.
use plaik.Prelude.{
  ℕ, ◌+◌, String, Bool, true, false, ◌&&◌, ◌||◌, Option, none, some, List, [], ◌∷◌, leb, nat_beq,
  ◌==◌, string_eq, if◌then◌else◌, length,
}
use plaik.Prelude.Text.{codes, starts_with}
use plaik.Prelude.Dict.{Dict, lookup, insert, delete}
use plaik.Prelude.Results.{ok, guard, ◌>>=◌, ◌>>◌, Method, checked}
use plaik.Cache.{
  CacheError, invalid_ttl, invalid_prefix, CacheKey, key_eq, CacheEntry, Cache, validate_namespace,
  validated_key, is_some, is_inflight, generation, ttl_allowed, bump_generation, forget_generation,
  outdate, get_locked, purge_expired, store_locked,
}

-- What `acquire` found: a cached value, a producer to wait for, or the right to produce at a
-- generation.
pub data Acquired (V : Type 0) : Type 0 where
  cached : V → Acquired V
  wait : Acquired V
  owner : ℕ → Acquired V

pub record CacheStats : Type 0 where
  pub hits : ℕ
  pub misses : ℕ
  pub writes : ℕ
  pub evictions : ℕ
  pub entries : ℕ

-- The key is one that an invalidation is about.
unfoldable pub is_target : String → Option String → CacheKey → Bool
is_target namespace prefix k =
    k.0 == namespace && elim prefix [ none ↦ true | some p ↦ starts_with p k.1 ]

unfoldable pub targets : {A : Type 0} → String → Option String → Dict CacheKey A → List CacheKey
unfolding is_target
targets namespace prefix [] = []
targets namespace prefix ((k, a) ∷ m) =
    let rest = targets namespace prefix m in if is_target namespace prefix k then k ∷ rest else rest

unfoldable pub has_key : CacheKey → List CacheKey → Bool
has_key k [] = false
has_key k (j ∷ ks) = j == k || has_key k ks

-- `a | b` of sets.
unfoldable pub union : List CacheKey → List CacheKey → List CacheKey
unfolding has_key
union [] ks = ks
union (k ∷ js) ks = let rest = union js ks in if has_key k rest then rest else k ∷ rest

prefix_allowed : Option String → Bool
prefix_allowed none = true
prefix_allowed (some p) = leb 1 (length (codes p)) && leb (length (codes p)) 256

module _ {V : Type 0} where
  unfoldable pub count_get : V → Option V × Cache V → V × Cache V
  count_get default (none, c) = (default, record c { misses = c.misses + 1 })
  count_get default (some value, c) = (value, record c { hits = c.hits + 1 })

  -- The critical section of `get`.
  unfoldable pub get_section : CacheKey → V → ℕ → Cache V → V × Cache V
  unfolding count_get
  get_section k default now c = count_get default (get_locked k now c)

  unfoldable pub get : String → String → V → ℕ → Method CacheError (Cache V) V
  unfolding get_section
  get namespace key default now =
      checked (validated_key namespace key)
        λ k c. let r = get_section k default now c in (ok r.0, r.1)

  -- The critical section of `set`.
  unfoldable pub set_section : CacheKey → V → ℕ → ℕ → ℕ → Cache V → Cache V
  set_section k value ttl now later c =
      store_locked k value ttl now later (if is_inflight k c then bump_generation k c else c)

  unfoldable pub set : String → String → V → ℕ → ℕ → ℕ → Method CacheError (Cache V) (Unit {0})
  unfolding set_section
  set namespace key value ttl now later =
      checked (do k ← validated_key namespace key; guard (ttl_allowed ttl) invalid_ttl; ok k)
        λ k c. (ok tt, set_section k value ttl now later c)

  unfoldable pub acquire_missing : CacheKey → Cache V → Acquired V × Cache V
  acquire_missing k c = elim (lookup k c.inflight) [
    | some _ ↦ (wait, c)
    | none ↦ (
      owner (generation k c),
      record c { inflight = insert k (generation k c) c.inflight; misses = c.misses + 1 },
    )
  ]

  unfoldable pub acquire_found : CacheKey → Option V × Cache V → Acquired V × Cache V
  unfolding acquire_missing
  acquire_found k (some value, c) = (cached value, record c { hits = c.hits + 1 })
  acquire_found k (none, c) = acquire_missing k c

  -- The first critical section of `get_or_set`.
  unfoldable pub acquire : CacheKey → ℕ → Cache V → Acquired V × Cache V
  unfolding acquire_found
  acquire k now c = acquire_found k (get_locked k now c)

  -- `finally`: the producer is done, and a generation that no entry needs is forgotten.
  unfoldable pub release : CacheKey → Cache V → Cache V
  unfolding forget_generation
  release k c =
      let c' = record c { inflight = delete k c.inflight } in
      if is_some (lookup k c.entries) then c' else forget_generation k c'

  -- The section after a producer that returned: the value is stored unless the key was outdated
  -- meanwhile. `release` follows in a section of its own, also after a producer that raised.
  unfoldable pub store_produced : CacheKey → V → ℕ → ℕ → ℕ → ℕ → Cache V → Cache V
  store_produced k value began ttl now later c =
      if nat_beq (generation k c) began then store_locked k value ttl now later c else c

  -- The critical section of `delete`.
  unfoldable pub delete_section : CacheKey → Cache V → Bool × Cache V
  delete_section k c =
      let removed = is_some (lookup k c.entries) in
      let c' = outdate k (record c { entries = delete k c.entries }) in
      (removed, if removed then record c' { evictions = c'.evictions + 1 } else c')

  unfoldable pub delete_entry : String → String → Method CacheError (Cache V) Bool
  unfolding delete_section
  delete_entry namespace key =
      checked (validated_key namespace key) λ k c. let r = delete_section k c in (ok r.0, r.1)

  unfoldable pub delete_keys :
      List CacheKey → Dict CacheKey (CacheEntry V) → Dict CacheKey (CacheEntry V)
  delete_keys [] m = m
  delete_keys (k ∷ ks) m = delete_keys ks (delete k m)

  unfoldable pub outdate_all : List CacheKey → Cache V → Cache V
  outdate_all [] c = c
  outdate_all (k ∷ ks) c = outdate_all ks (outdate k c)

  -- The critical section of `invalidate_namespace`.
  unfoldable pub invalidate_section : String → Option String → Cache V → ℕ × Cache V
  invalidate_section namespace prefix c =
      let dropped = targets namespace prefix c.entries in
      let c' =
        outdate_all (union dropped (targets namespace prefix c.inflight))
          (record c { entries = delete_keys dropped c.entries }) in
      (length dropped, record c' { evictions = c'.evictions + length dropped })

  unfoldable pub invalidate_namespace : String → Option String → Method CacheError (Cache V) ℕ
  unfolding prefix_allowed invalidate_section
  invalidate_namespace namespace prefix =
      checked (do validate_namespace namespace; guard (prefix_allowed prefix) invalid_prefix)
        λ _ c. let r = invalidate_section namespace prefix c in (ok r.0, r.1)

  unfoldable pub stats : ℕ → Cache V → CacheStats × Cache V
  stats now c =
      let c' = purge_expired now c in
      (
        record {
          hits = c'.hits;
          misses = c'.misses;
          writes = c'.writes;
          evictions = c'.evictions;
          entries = length c'.entries;
        },
        c',
      )
