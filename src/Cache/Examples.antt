-- ===== src/Cache/Examples.antt =====
-- src/plaik_core/cache.py: a cache of two entries in use, and the theorems at it.
use plaik.Prelude.{ℕ, ◌≡◌, ◌≢◌, refl, none, List, [], ◌∷◌, arith, string_eq}
use plaik.Prelude.Dict.{lookup, insert, delete}
use plaik.Cache.{
  CacheKey, Cache, forget_generation, outdate, get_locked, expired_keys, drop_all, purge_expired,
  evict, make_room, store_locked,
}
use plaik.Cache.Operations.{
  owner, acquire, acquire_found, acquire_missing, store_produced, set_section,
}
use plaik.Cache.Interleaving.{
  Section, get_step, set_step, acquire_step, delete_step, invalidate_step, after, after_all,
}
use plaik.Cache.Bounds.{Bounded, after_all-Bounded}
use plaik.Cache.Singleflight.{no_stale_write, single_flight}

abbrev empty_cache : Cache ℕ
empty_cache = record {
  maximum_entries = 2;
  entries = [];
  inflight = [];
  generations = [];
  hits = 0;
  misses = 0;
  writes = 0;
  evictions = 0;
}

abbrev page : CacheKey
page = ("web", "page")

abbrev menu : CacheKey
menu = ("web", "menu")

abbrev traffic : List (Section ℕ)
traffic =
    get_step menu 0 2
    ∷ set_step menu 7 60 2 3
    ∷ delete_step page
    ∷ invalidate_step "web" none
    ∷ acquire_step page 4
    ∷ []

acquire_first : (acquire page 1 empty_cache).0 ≡ owner 0
unfolding acquire acquire_found acquire_missing get_locked lookup
acquire_first = refl

no_stale_write_example :
    store_produced page 5 0 60 8 9 (after_all traffic (acquire page 1 empty_cache).1)
    ≡ after_all traffic (acquire page 1 empty_cache).1
no_stale_write_example =
    no_stale_write page 1 empty_cache 0 traffic 5 60 8 9 acquire_first
      (tt, (tt, (tt, (tt, (tt, tt))))) refl

single_flight_example :
    (acquire page 6 (after_all traffic (acquire page 1 empty_cache).1)).0 ≢ owner 1
single_flight_example =
    single_flight page 1 empty_cache 0 traffic 6 1 acquire_first (tt, (tt, (tt, (tt, (tt, tt)))))

abbrev writes : List (Section ℕ)
writes = set_step menu 7 60 2 3 ∷ set_step page 8 60 3 4 ∷ set_step ("web", "other") 9 60 5 6 ∷ []

-- The third write evicts the oldest entry.
writes_evict : (after_all writes empty_cache).evictions ≡ 1
unfolding after_all after set_section store_locked purge_expired expired_keys drop_all make_room
    evict outdate forget_generation lookup insert delete
writes_evict = refl

after_all-Bounded_example : Bounded (after_all writes empty_cache)
after_all-Bounded_example =
    after_all-Bounded writes empty_cache (record { positive = omega arith; within = omega arith })
