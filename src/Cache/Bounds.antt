-- ===== src/Cache/Bounds.antt =====
-- src/plaik_core/cache.py, `NamespacedTTLCache`: the number of entries.
use plaik.Prelude.{
  ℕ, ◌+◌, ◌≤◌, ◌<◌, ◌≡◌, refl, String, true, Option, List, [], ◌∷◌, arith, length, ◌⊎◌,
}
use plaik.Prelude.Dict.{Dict, beq_refl, lookup, insert, delete, length-insert, length-delete-le}
use plaik.Cache.{
  CacheKey, key_eq, CacheEntry, Cache, is_some, bump_generation, forget_generation, outdate,
  drop_expired, get_locked, purge_expired, expired_keys, drop_all, evict, make_room, store_locked,
}
use plaik.Cache.Operations.{
  count_get, get_section, set_section, acquire, acquire_found, acquire_missing, release,
  store_produced, delete_section, outdate_all, invalidate_section, stats, targets, delete_keys,
  union,
}
use plaik.Cache.Interleaving.{
  Section, get_step, set_step, acquire_step, store_step, release_step, delete_step, invalidate_step,
  stats_step, after, after_all,
}

module _ {V : Type 0} where
  -- A cache can hold an entry, and holds no more than it may.
  pub record Bounded (c : Cache V) : Type 0 where
    pub positive : 1 ≤ c.maximum_entries
    pub within : length c.entries ≤ c.maximum_entries

  outdate-Bounded : (k : CacheKey) (c : Cache V) → Bounded c → Bounded (outdate k c)
  unfolding outdate bump_generation forget_generation
  outdate-Bounded k c b = ground (arith, b)

  drop_expired-Bounded : (k : CacheKey) (c : Cache V) → Bounded c → Bounded (drop_expired k c)
  unfolding drop_expired forget_generation
  drop_expired-Bounded k c b = ground (arith, b, length-delete-le k c.entries)

  drop_all-Bounded : (ks : List CacheKey) (c : Cache V) → Bounded c → Bounded (drop_all ks c)
  unfolding drop_all
  drop_all-Bounded [] c b = b
  drop_all-Bounded (k ∷ ks) c b =
      drop_all-Bounded ks (drop_expired k c) (drop_expired-Bounded k c b)

  purge_expired-Bounded : (now : ℕ) (c : Cache V) → Bounded c → Bounded (purge_expired now c)
  unfolding purge_expired
  purge_expired-Bounded now c b =
      let t = drop_all-Bounded (expired_keys now c.entries) c b in
      record { positive = t.positive; within = t.within }

  get_locked-Bounded :
      (k : CacheKey) (now : ℕ) (c : Cache V) → Bounded c → Bounded (get_locked k now c).1
  unfolding get_locked
  get_locked-Bounded k now c b = ground (arith, b, drop_expired-Bounded k c b)

  length-delete_first-le :
      (oldest : CacheKey) (e : CacheEntry V) (m : Dict CacheKey (CacheEntry V))
      → length (delete oldest ((oldest, e) ∷ m)) ≤ length m
  unfolding delete
  length-delete_first-le oldest e m = ground (arith, beq_refl oldest, length-delete-le oldest m)

  -- Room for `k`: it has an entry, or one more entry fits.
  abbrev HasRoom : CacheKey → Cache V → Type 0
  HasRoom k c = (is_some (lookup k c.entries) ≡ true) ⊎ (length c.entries < c.maximum_entries)

  -- `c` is the cache whose entries `m` are.
  evict-Bounded :
      (m : Dict CacheKey (CacheEntry V)) (c : Cache V)
      → m ≡ c.entries
      → Bounded c
      → Bounded (evict m c) × (length (evict m c).entries < (evict m c).maximum_entries)
  unfolding evict outdate bump_generation forget_generation
  evict-Bounded [] c e b = ground (arith, b, e)
  evict-Bounded ((oldest, entry) ∷ m) c e b =
      ground (arith, b, e, length-delete_first-le oldest entry m)

  make_room-HasRoom :
      (k : CacheKey) (c : Cache V) → Bounded c → Bounded (make_room k c) × HasRoom k (make_room k c)
  unfolding make_room
  make_room-HasRoom k c b = ground (arith, b, evict-Bounded c.entries c refl b)

  abbrev new_entry : V → ℕ → CacheEntry V
  new_entry v n = record { value = v; expires_at = n }

  length-insert-le :
      (k : CacheKey) (e : CacheEntry V) (c : Cache V)
      → Bounded c
      → HasRoom k c
      → length (insert k e c.entries) ≤ c.maximum_entries
  length-insert-le k e c b r = ground (arith, b, r, length-insert k e c.entries)

  store_locked-Bounded :
      (k : CacheKey) (value : V) (ttl now later : ℕ) (c : Cache V)
      → Bounded c
      → Bounded (store_locked k value ttl now later c)
  unfolding store_locked
  store_locked-Bounded k value ttl now later c b =
      let t = make_room-HasRoom k (purge_expired now c) (purge_expired-Bounded now c b) in
      let c' = make_room k (purge_expired now c) in
      record {
        positive = t.0.positive;
        within = length-insert-le k (new_entry value (later + ttl)) c' t.0 t.1;
      }

  get_section-Bounded :
      (k : CacheKey) (d : V) (now : ℕ) (c : Cache V) → Bounded c → Bounded (get_section k d now c).1
  unfolding get_section count_get
  get_section-Bounded k d now c b = ground (arith, get_locked-Bounded k now c b)

  set_section-Bounded :
      (k : CacheKey) (value : V) (ttl now later : ℕ) (c : Cache V)
      → Bounded c
      → Bounded (set_section k value ttl now later c)
  unfolding set_section bump_generation
  set_section-Bounded k value ttl now later c b =
      store_locked-Bounded k value ttl now later _ (ground (arith, b))

  acquire-Bounded : (k : CacheKey) (now : ℕ) (c : Cache V) → Bounded c → Bounded (acquire k now c).1
  unfolding acquire acquire_found acquire_missing
  acquire-Bounded k now c b = ground (arith, get_locked-Bounded k now c b)

  release-Bounded : (k : CacheKey) (c : Cache V) → Bounded c → Bounded (release k c)
  unfolding release forget_generation
  release-Bounded k c b = ground (arith, b)

  store_produced-Bounded :
      (k : CacheKey) (value : V) (began ttl now later : ℕ) (c : Cache V)
      → Bounded c
      → Bounded (store_produced k value began ttl now later c)
  unfolding store_produced
  store_produced-Bounded k value began ttl now later c b =
      ground (arith, b, store_locked-Bounded k value ttl now later c b)

  delete_section-Bounded : (k : CacheKey) (c : Cache V) → Bounded c → Bounded (delete_section k c).1
  unfolding delete_section outdate bump_generation forget_generation
  delete_section-Bounded k c b = ground (arith, b, length-delete-le k c.entries)

  outdate_all-Bounded : (ks : List CacheKey) (c : Cache V) → Bounded c → Bounded (outdate_all ks c)
  unfolding outdate_all
  outdate_all-Bounded [] c b = b
  outdate_all-Bounded (k ∷ ks) c b = outdate_all-Bounded ks (outdate k c) (outdate-Bounded k c b)

  length-delete_keys-le :
      (ks : List CacheKey) (m : Dict CacheKey (CacheEntry V)) → length (delete_keys ks m) ≤ length m
  unfolding delete_keys
  length-delete_keys-le [] m = omega arith
  length-delete_keys-le (k ∷ ks) m =
      ground (arith, length-delete_keys-le ks (delete k m), length-delete-le k m)

  invalidate_section-Bounded :
      (namespace : String) (prefix : Option String) (c : Cache V)
      → Bounded c
      → Bounded (invalidate_section namespace prefix c).1
  unfolding invalidate_section
  invalidate_section-Bounded namespace prefix c b =
      let dropped = targets namespace prefix c.entries in
      let c' = record c { entries = delete_keys dropped c.entries } in
      let t =
        outdate_all-Bounded (union dropped (targets namespace prefix c.inflight)) c'
          (ground (arith, b, length-delete_keys-le dropped c.entries)) in
      record { positive = t.positive; within = t.within }

  stats-Bounded : (now : ℕ) (c : Cache V) → Bounded c → Bounded (stats now c).1
  unfolding stats
  stats-Bounded now c b = purge_expired-Bounded now c b

  after-Bounded : (s : Section V) (c : Cache V) → Bounded c → Bounded (after s c)
  unfolding after
  after-Bounded (get_step k d now) c b = get_section-Bounded k d now c b
  after-Bounded (set_step k value ttl now later) c b = set_section-Bounded k value ttl now later c b
  after-Bounded (acquire_step k now) c b = acquire-Bounded k now c b
  after-Bounded (store_step k value began ttl now later) c b =
      store_produced-Bounded k value began ttl now later c b
  after-Bounded (release_step k) c b = release-Bounded k c b
  after-Bounded (delete_step k) c b = delete_section-Bounded k c b
  after-Bounded (invalidate_step namespace prefix) c b =
      invalidate_section-Bounded namespace prefix c b
  after-Bounded (stats_step now) c b = stats-Bounded now c b

  -- A cache that may hold an entry at least, and holds no more than it may, does so after any
  -- sections of any threads.
  pub after_all-Bounded :
      (ss : List (Section V)) (c : Cache V) → Bounded c → Bounded (after_all ss c)
  unfolding after_all
  after_all-Bounded [] c b = b
  after_all-Bounded (s ∷ ss) c b = after_all-Bounded ss (after s c) (after-Bounded s c b)
