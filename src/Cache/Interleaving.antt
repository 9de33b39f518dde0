-- ===== src/Cache/Interleaving.antt =====
-- src/plaik_core/cache.py, `NamespacedTTLCache`: what other threads may do while a producer runs.
use plaik.Prelude.{
  ℕ, ◌+◌, ◌≡◌, ◌≢◌, String, Bool, true, false, Option, some, List, [], ◌∷◌, arith, ◌==◌,
  if◌then◌else◌, Bool-cases, inl, inr,
}
use plaik.Prelude.Dict.{Dict, lookup, lookup-insert_self}
use plaik.Cache.{
  CacheKey, key_beq_iff, key_eq, Cache, is_inflight, generation, bump_generation, outdate,
}
use plaik.Cache.Operations.{
  get_section, set_section, acquire, store_produced, release, delete_section, invalidate_section,
  stats, is_target, targets, has_key, union, outdate_all, delete_keys,
}
use plaik.Cache.Generations.{
  Since, outdate-Since, outdate_all-Since, store_locked-Since, purge_expired-Since,
  get_section-Since, set_section-Since, acquire-Since, store_produced-Since, release-Since,
  delete_section-Since, invalidate_section-Since,
}

-- A critical section that some thread runs; the numbers are readings of the clock.
pub data Section (V : Type 0) : Type 0 where
  get_step : CacheKey → V → ℕ → Section V
  set_step : CacheKey → V → ℕ → ℕ → ℕ → Section V
  acquire_step : CacheKey → ℕ → Section V
  store_step : CacheKey → V → ℕ → ℕ → ℕ → ℕ → Section V
  release_step : CacheKey → Section V
  delete_step : CacheKey → Section V
  invalidate_step : String → Option String → Section V
  stats_step : ℕ → Section V

targets-has_key :
    {A : Type 0} (namespace : String) (prefix : Option String) (k : CacheKey) (m : Dict CacheKey A)
    (a : A)
    → is_target namespace prefix k ≡ true
    → lookup k m ≡ some a
    → has_key k (targets namespace prefix m) ≡ true
unfolding targets has_key lookup
targets-has_key namespace prefix k [] a t e = absurd (ground arith)
targets-has_key namespace prefix k ((j, b) ∷ m) a t e =
    ground (arith, targets-has_key namespace prefix k m a t, key_beq_iff j k)

union-has_key :
    (k : CacheKey) (js ks : List CacheKey) → has_key k ks ≡ true → has_key k (union js ks) ≡ true
unfolding union has_key
union-has_key k [] ks e = e
union-has_key k (j ∷ js) ks e = ground (arith, union-has_key k js ks e)

module _ {V : Type 0} where
  unfoldable pub after : Section V → Cache V → Cache V
  after (get_step k default now) c = (get_section k default now c).1
  after (set_step k value ttl now later) c = set_section k value ttl now later c
  after (acquire_step k now) c = (acquire k now c).1
  after (store_step k value began ttl now later) c = store_produced k value began ttl now later c
  after (release_step k) c = release k c
  after (delete_step k) c = (delete_section k c).1
  after (invalidate_step namespace prefix) c = (invalidate_section namespace prefix c).1
  after (stats_step now) c = (stats now c).1

  unfoldable pub after_all : List (Section V) → Cache V → Cache V
  unfolding after
  after_all [] c = c
  after_all (s ∷ ss) c = after_all ss (after s c)

  -- Only the thread that owns the production of `k` releases it.
  abbrev pub Foreign : CacheKey → Section V → Type 0
  Foreign k (release_step j) = j ≢ k
  Foreign k _ = Unit

  abbrev pub AllForeign : CacheKey → List (Section V) → Type 0
  AllForeign k [] = Unit
  AllForeign k (s ∷ ss) = Foreign k s × AllForeign k ss

  -- The section sets or deletes `k`, or invalidates a namespace and prefix that `k` has.
  abbrev pub outdates : CacheKey → Section V → Bool
  outdates k (set_step j value ttl now later) = j == k
  outdates k (delete_step j) = j == k
  outdates k (invalidate_step namespace prefix) = is_target namespace prefix k
  outdates k _ = false

  abbrev pub any_outdates : CacheKey → List (Section V) → Bool
  any_outdates k [] = false
  any_outdates k (s ∷ ss) = if outdates k s then true else any_outdates k ss

  stats-Since :
      (k : CacheKey) (g n now : ℕ) (c : Cache V) → Since k g n c → Since k g n (stats now c).1
  unfolding stats
  stats-Since k g n now c s = purge_expired-Since k g n now c s

  after-Since :
      (k : CacheKey) (g n : ℕ) (s : Section V) (c : Cache V)
      → Foreign k s
      → Since k g n c
      → Since k g n (after s c)
  unfolding after
  after-Since k g n (get_step j default now) c f s = get_section-Since k g n j default now c s
  after-Since k g n (set_step j value ttl now later) c f s =
      set_section-Since k g n j value ttl now later c s
  after-Since k g n (acquire_step j now) c f s = acquire-Since k g n j now c s
  after-Since k g n (store_step j value began ttl now later) c f s =
      store_produced-Since k g n j value began ttl now later c s
  after-Since k g n (release_step j) c f s = release-Since k g n j c f s
  after-Since k g n (delete_step j) c f s = delete_section-Since k g n j c s
  after-Since k g n (invalidate_step namespace prefix) c f s =
      invalidate_section-Since k g n namespace prefix c s
  after-Since k g n (stats_step now) c f s = stats-Since k g n now c s

  bumped-Since :
      (k : CacheKey) (g n : ℕ) (c : Cache V)
      → Since k g n c
      → Since k g (n + 1) (if is_inflight k c then bump_generation k c else c)
  unfolding bump_generation
  bumped-Since k g n c s = ground (arith, lookup-insert_self k (generation k c + 1) c.generations)

  set_outdates :
      (k : CacheKey) (g n : ℕ) (value : V) (ttl now later : ℕ) (c : Cache V)
      → Since k g n c
      → Since k g (n + 1) (set_section k value ttl now later c)
  unfolding set_section
  set_outdates k g n value ttl now later c s =
      store_locked-Since k g (n + 1) k value ttl now later _ (bumped-Since k g n c s)

  delete_outdates :
      (k : CacheKey) (g n : ℕ) (c : Cache V)
      → Since k g n c
      → Since k g (n + 1) (delete_section k c).1
  unfolding delete_section outdate bump_generation
  delete_outdates k g n c s =
      ground (arith, lookup-insert_self k (generation k c + 1) c.generations)

  outdate_outdates :
      (k : CacheKey) (g n : ℕ) (c : Cache V) → Since k g n c → Since k g (n + 1) (outdate k c)
  unfolding outdate bump_generation
  outdate_outdates k g n c s =
      ground (arith, lookup-insert_self k (generation k c + 1) c.generations)

  outdate_all_outdates :
      (k : CacheKey) (g n : ℕ) (js : List CacheKey) (c : Cache V)
      → has_key k js ≡ true
      → Since k g n c
      → Since k g (n + 1) (outdate_all js c)
  unfolding outdate_all has_key
  outdate_all_outdates k g n [] c e s = absurd (ground arith)
  outdate_all_outdates k g n (j ∷ js) c e s = elim (Bool-cases (j == k)) [
    | inl same ↦
        outdate_all-Since k g (n + 1) js (outdate j c)
          (rw ((key_beq_iff j k).0 same) (outdate_outdates k g n c s))
    | inr other ↦
        outdate_all_outdates k g n js (outdate j c) (ground (arith, other, e))
          (outdate-Since k g n j c s)
  ]

  invalidate_outdates :
      (k : CacheKey) (g n : ℕ) (namespace : String) (prefix : Option String) (c : Cache V)
      → is_target namespace prefix k ≡ true
      → Since k g n c
      → Since k g (n + 1) (invalidate_section namespace prefix c).1
  unfolding invalidate_section
  invalidate_outdates k g n namespace prefix c e s =
      let dropped = targets namespace prefix c.entries in
      let running = targets namespace prefix c.inflight in
      let c' = record c { entries = delete_keys dropped c.entries } in
      let hit =
        union-has_key k dropped running
          (targets-has_key namespace prefix k c.inflight g e s.runs) in
      let t =
        outdate_all_outdates k g n (union dropped running) c' hit
          (record { runs = s.runs; reached = s.reached }) in
      record { runs = t.runs; reached = t.reached }

  outdated-Since :
      (k : CacheKey) (g n : ℕ) (s : Section V) (c : Cache V)
      → outdates k s ≡ true
      → Since k g n c
      → Since k g (n + 1) (after s c)
  unfolding after
  outdated-Since k g n (set_step j value ttl now later) c o s =
      rw ((key_beq_iff j k).0 o) (set_outdates k g n value ttl now later c s)
  outdated-Since k g n (delete_step j) c o s =
      rw ((key_beq_iff j k).0 o) (delete_outdates k g n c s)
  outdated-Since k g n (invalidate_step namespace prefix) c o s =
      invalidate_outdates k g n namespace prefix c o s
  outdated-Since k g n _ c o s = absurd (ground arith)

  pub after_all-Since :
      (k : CacheKey) (g n : ℕ) (ss : List (Section V)) (c : Cache V)
      → AllForeign k ss
      → Since k g n c
      → Since k g n (after_all ss c)
  unfolding after_all
  after_all-Since k g n [] c f s = s
  after_all-Since k g n (t ∷ ss) c f s =
      after_all-Since k g n ss (after t c) f.1 (after-Since k g n t c f.0 s)

  pub all_outdated-Since :
      (k : CacheKey) (g n : ℕ) (ss : List (Section V)) (c : Cache V)
      → AllForeign k ss
      → any_outdates k ss ≡ true
      → Since k g n c
      → Since k g (n + 1) (after_all ss c)
  unfolding after_all
  all_outdated-Since k g n [] c f o s = absurd (ground arith)
  all_outdated-Since k g n (t ∷ ss) c f o s = elim (Bool-cases (outdates k t)) [
    | inl hit ↦ after_all-Since k g (n + 1) ss (after t c) f.1 (outdated-Since k g n t c hit s)
    | inr miss ↦
        all_outdated-Since k g n ss (after t c) f.1 (ground (arith, miss, o))
          (after-Since k g n t c f.0 s)
  ]
