-- ===== src/Cache/Singleflight.antt =====
-- src/plaik_core/cache.py, `NamespacedTTLCache.get_or_set`: one producer for a key at a time, whose
-- value is stored unless the key was outdated meanwhile.
use plaik.Prelude.{ℕ, ◌≡◌, ◌≢◌, true, List, arith}
use plaik.Prelude.Dict.{lookup-insert_self}
use plaik.Cache.{CacheKey, key_eq, Cache, generation, get_locked}
use plaik.Cache.Operations.{owner, acquire, acquire_found, acquire_missing, store_produced}
use plaik.Cache.Generations.{Since, get_locked-Since}
use plaik.Cache.Interleaving.{
  Section, after_all, AllForeign, any_outdates, after_all-Since, all_outdated-Since,
}

module _ {V : Type 0} where
  acquire_missing-owner :
      (k : CacheKey) (c : Cache V) (g : ℕ)
      → (acquire_missing k c).0 ≡ owner g
      → Since k g g (acquire_missing k c).1
  unfolding acquire_missing
  acquire_missing-owner k c g e =
      ground (arith, e, lookup-insert_self k (generation k c) c.inflight)

  pub acquire-owner :
      (k : CacheKey) (now : ℕ) (c : Cache V) (g : ℕ)
      → (acquire k now c).0 ≡ owner g
      → Since k g g (acquire k now c).1
  unfolding acquire acquire_found
  acquire-owner k now c g e = ground (arith, e, acquire_missing-owner k (get_locked k now c).1 g)

  -- After `acquire` made a thread the producer of a key, and any sections ran of which none released
  -- the key and one set or deleted it or invalidated it with its namespace, the cache stays as it
  -- is when the thread comes to store its value.
  pub no_stale_write :
      (k : CacheKey) (now : ℕ) (c : Cache V) (g : ℕ) (ss : List (Section V)) (value : V)
      (ttl now' later : ℕ)
      → (acquire k now c).0 ≡ owner g
      → AllForeign k ss
      → any_outdates k ss ≡ true
      → store_produced k value g ttl now' later (after_all ss (acquire k now c).1)
        ≡ after_all ss (acquire k now c).1
  unfolding store_produced
  no_stale_write k now c g ss value ttl now' later e f o =
      let t = all_outdated-Since k g g ss (acquire k now c).1 f o (acquire-owner k now c g e) in
      ground (arith, t)

  -- After `acquire` made a thread the producer of a key, and any sections ran of which none
  -- released the key, no other `acquire` of the key makes its caller a producer.
  pub single_flight :
      (k : CacheKey) (now : ℕ) (c : Cache V) (g : ℕ) (ss : List (Section V)) (now' g' : ℕ)
      → (acquire k now c).0 ≡ owner g
      → AllForeign k ss
      → (acquire k now' (after_all ss (acquire k now c).1)).0 ≢ owner g'
  unfolding acquire acquire_found acquire_missing
  single_flight k now c g ss now' g' e f =
      let t = after_all-Since k g g ss (acquire k now c).1 f (acquire-owner k now c g e) in
      ground (arith, t, get_locked-Since k g g k now' (after_all ss (acquire k now c).1) t)
