-- ===== src/Cache/Generations.antt =====
-- src/plaik_core/cache.py, `NamespacedTTLCache`: a producer whose key was set, deleted or
-- invalidated while it ran does not store its value.
use plaik.Prelude.{ℕ, ◌+◌, ◌≤◌, ◌≡◌, ◌≢◌, String, Option, some, List, [], ◌∷◌, arith}
use plaik.Prelude.Dict.{Dict, lookup, delete, lookup-insert, lookup-delete}
use plaik.Cache.{
  CacheKey, key_beq_iff, key_eq, CacheEntry, Cache, generation, bump_generation, outdate,
  drop_expired, get_locked, expired_keys, drop_all, purge_expired, evict, make_room, store_locked,
}
use plaik.Cache.Operations.{
  count_get, acquire_missing, acquire_found, get_section, set_section, acquire, release,
  store_produced, delete_section, outdate_all, invalidate_section, targets, union, delete_keys,
}

module _ {V : Type 0} where
  -- A producer of `k` runs that began at `g`, and the key's generation is `n` at least.
  pub record Since (k : CacheKey) (g n : ℕ) (c : Cache V) : Type 0 where
    pub runs : lookup k c.inflight ≡ some g
    pub reached : n ≤ generation k c

  module _ (k : CacheKey) (g n : ℕ) where
    bump-Since : (j : CacheKey) (c : Cache V) → Since k g n c → Since k g n (bump_generation j c)
    unfolding bump_generation
    bump-Since j c s =
        ground (arith, lookup-insert j k (generation j c + 1) c.generations, key_beq_iff j k)

    pub outdate-Since : (j : CacheKey) (c : Cache V) → Since k g n c → Since k g n (outdate j c)
    unfolding outdate
    outdate-Since j c s =
        ground (arith, bump-Since j c s, key_beq_iff j k, lookup-delete j k c.generations)

    drop_expired-Since :
        (j : CacheKey) (c : Cache V) → Since k g n c → Since k g n (drop_expired j c)
    unfolding drop_expired
    drop_expired-Since j c s = ground (arith, key_beq_iff j k, lookup-delete j k c.generations)

    drop_all-Since :
        (js : List CacheKey) (c : Cache V) → Since k g n c → Since k g n (drop_all js c)
    unfolding drop_all
    drop_all-Since [] c s = s
    drop_all-Since (j ∷ js) c s = drop_all-Since js (drop_expired j c) (drop_expired-Since j c s)

    pub get_locked-Since :
        (j : CacheKey) (now : ℕ) (c : Cache V) → Since k g n c → Since k g n (get_locked j now c).1
    unfolding get_locked
    get_locked-Since j now c s = ground (arith, drop_expired-Since j c s)

    pub purge_expired-Since :
        (now : ℕ) (c : Cache V) → Since k g n c → Since k g n (purge_expired now c)
    unfolding purge_expired
    purge_expired-Since now c s = ground (arith, drop_all-Since (expired_keys now c.entries) c s)

    evict-Since :
        (m : Dict CacheKey (CacheEntry V)) (c : Cache V) → Since k g n c → Since k g n (evict m c)
    unfolding evict
    evict-Since [] c s = s
    evict-Since ((oldest, entry) ∷ m) c s =
        let c' = record c { entries = delete oldest c.entries } in
        ground (arith, outdate-Since oldest c' (record { runs = s.runs; reached = s.reached }))

    make_room-Since : (j : CacheKey) (c : Cache V) → Since k g n c → Since k g n (make_room j c)
    unfolding make_room
    make_room-Since j c s = ground (arith, evict-Since c.entries c s)

    pub store_locked-Since :
        (j : CacheKey) (value : V) (ttl now later : ℕ) (c : Cache V)
        → Since k g n c
        → Since k g n (store_locked j value ttl now later c)
    unfolding store_locked
    store_locked-Since j value ttl now later c s =
        let t = make_room-Since j (purge_expired now c) (purge_expired-Since now c s) in
        record { runs = t.runs; reached = t.reached }

    pub outdate_all-Since :
        (js : List CacheKey) (c : Cache V) → Since k g n c → Since k g n (outdate_all js c)
    unfolding outdate_all
    outdate_all-Since [] c s = s
    outdate_all-Since (j ∷ js) c s = outdate_all-Since js (outdate j c) (outdate-Since j c s)

    pub get_section-Since :
        (j : CacheKey) (default : V) (now : ℕ) (c : Cache V)
        → Since k g n c
        → Since k g n (get_section j default now c).1
    unfolding get_section count_get
    get_section-Since j default now c s = ground (arith, get_locked-Since j now c s)

    pub set_section-Since :
        (j : CacheKey) (value : V) (ttl now later : ℕ) (c : Cache V)
        → Since k g n c
        → Since k g n (set_section j value ttl now later c)
    unfolding set_section
    set_section-Since j value ttl now later c s =
        store_locked-Since j value ttl now later _ (ground (arith, bump-Since j c s))

    acquire_missing-Since :
        (j : CacheKey) (c : Cache V) → Since k g n c → Since k g n (acquire_missing j c).1
    unfolding acquire_missing
    acquire_missing-Since j c s =
        ground (arith, key_beq_iff j k, lookup-insert j k (generation j c) c.inflight)

    pub acquire-Since :
        (j : CacheKey) (now : ℕ) (c : Cache V) → Since k g n c → Since k g n (acquire j now c).1
    unfolding acquire acquire_found
    acquire-Since j now c s =
        ground (arith, get_locked-Since j now c s, acquire_missing-Since j (get_locked j now c).1)

    pub release-Since :
        (j : CacheKey) (c : Cache V) → j ≢ k → Since k g n c → Since k g n (release j c)
    unfolding release
    release-Since j c d s =
        ground
          (arith, d, key_beq_iff j k, lookup-delete j k c.inflight, lookup-delete j k c.generations)

    pub store_produced-Since :
        (j : CacheKey) (value : V) (began ttl now later : ℕ) (c : Cache V)
        → Since k g n c
        → Since k g n (store_produced j value began ttl now later c)
    unfolding store_produced
    store_produced-Since j value began ttl now later c s =
        ground (arith, store_locked-Since j value ttl now later c s)

    pub delete_section-Since :
        (j : CacheKey) (c : Cache V) → Since k g n c → Since k g n (delete_section j c).1
    unfolding delete_section
    delete_section-Since j c s =
        let c' = record c { entries = delete j c.entries } in
        ground (arith, outdate-Since j c' (record { runs = s.runs; reached = s.reached }))

    pub invalidate_section-Since :
        (namespace : String) (prefix : Option String) (c : Cache V)
        → Since k g n c
        → Since k g n (invalidate_section namespace prefix c).1
    unfolding invalidate_section
    invalidate_section-Since namespace prefix c s =
        let dropped = targets namespace prefix c.entries in
        let c' = record c { entries = delete_keys dropped c.entries } in
        let t =
          outdate_all-Since (union dropped (targets namespace prefix c.inflight)) c'
            (record { runs = s.runs; reached = s.reached }) in
        record { runs = t.runs; reached = t.reached }
