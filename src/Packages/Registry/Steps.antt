-- ===== src/Packages/Registry/Steps.antt =====
-- src/plaik_core/packages.py: the operations as steps of the registry.
use plaik.Prelude.{
  ◌≡◌, refl, subst, String, Bool, true, false, inl, inr, Option, none, some, List, [], ◌∷◌, arith,
  string_eq, Option-cases,
}
use plaik.Prelude.Dict.{lookup, insert, delete}
use plaik.Prelude.Results.{ok, err, Result-cases}
use plaik.Prelude.Sets.{has, each}
use plaik.Packages.Manifest.{PackageManifest}
use plaik.Packages.Dependencies.{resolve_install_order}
use plaik.Packages.Registry.{
  enabled, disabled, is_enabled, PackageRecord, Records, PackageRegistry, parse, write, Change,
  commit, transact, any_installed, manifests_of, create, require, required_dependents, is_empty,
  check_enabled, install_change, enable_change, disable_change, quarantine_change, uninstall_change,
  cleanup_change, install_many, enable, disable, quarantine, uninstall, persist_legacy_cleanup,
}

-- The records that a change leaves.
abbrev pub written : Records → Option Records → Records
written m none = m
written m (some m') = m'

module _ (satisfies : String → String → Bool) (quarantines : Bool) where
  -- What an operation that returns may do to the records; the flag allows a quarantine.
  pub data Step (q : PackageRegistry) (m : Records) : Records → Type 0 where
    keep_all : Step q m m
    install_step :
        (manifests order : List PackageManifest)
        → any_installed m manifests ≡ false
        → resolve_install_order satisfies manifests q.core_version (manifests_of m) ≡ ok order
        → Step q m (create order m).1
    enable_step :
        (k : String) (r : PackageRecord)
        → lookup k m ≡ some r
        → each (check_enabled satisfies m) r.manifest.dependencies ≡ ok tt
        → Step q m (insert k (record r { status = enabled }) m)
    disable_step :
        (k : String) (r : PackageRecord)
        → lookup k m ≡ some r
        → is_empty (required_dependents k true m) ≡ true
        → Step q m (insert k (record r { status = disabled }) m)
    quarantine_step :
        (k : String) (r : PackageRecord)
        → lookup k m ≡ some r
        → has k q.protected_ids ≡ false
        → quarantines ≡ true
        → Step q m (insert k (record r { status = disabled }) m)
    uninstall_step :
        (k : String) (r : PackageRecord)
        → lookup k m ≡ some r
        → has k q.protected_ids ≡ false
        → is_enabled r.status ≡ false
        → is_empty (required_dependents k false m) ≡ true
        → Step q m (delete k m)

  install_change-Step :
      (manifests : List PackageManifest) (q : PackageRegistry) (m : Records)
      (a : List PackageRecord) (w : Option Records)
      → install_change satisfies manifests q m ≡ ok (a, w)
      → Step q m (written m w)
  unfolding install_change
  install_change-Step manifests q m a w h =
      elim (Result-cases
        (resolve_install_order satisfies manifests q.core_version (manifests_of m))) [
          | inr (x, e) ↦ absurd (ground (arith, e, h))
          | inl (order, e) ↦
              let f : some (create order m).1 ≡ w = ground (arith, e, h) in
              subst (λ (v : Option Records). Step q m (written m v)) f
                (install_step manifests order (ground (arith, e, h)) e)
        ]

  enable_change-Step :
      (k : String) (q : PackageRegistry) (m : Records) (a : PackageRecord) (w : Option Records)
      → enable_change satisfies k q m ≡ ok (a, w)
      → Step q m (written m w)
  unfolding enable_change require
  enable_change-Step k q m a w h = elim (Option-cases (lookup k m)) [
    | inl e ↦ absurd (ground (arith, e, h))
    | inr (r, e) ↦
        let f : some (insert k (record r { status = enabled }) m) ≡ w = ground (arith, e, h) in
        subst (λ (v : Option Records). Step q m (written m v)) f
          (enable_step k r e (ground (arith, e, h)))
  ]

  disable_change-Step :
      (k : String) (q : PackageRegistry) (m : Records) (a : PackageRecord) (w : Option Records)
      → disable_change satisfies k q m ≡ ok (a, w)
      → Step q m (written m w)
  unfolding disable_change require
  disable_change-Step k q m a w h = elim (Option-cases (lookup k m)) [
    | inl e ↦ absurd (ground (arith, e, h))
    | inr (r, e) ↦
        let f : some (insert k (record r { status = disabled }) m) ≡ w = ground (arith, e, h) in
        subst (λ (v : Option Records). Step q m (written m v)) f
          (disable_step k r e (ground (arith, e, h)))
  ]

  quarantine_change-Step :
      quarantines ≡ true
      → (k : String) (q : PackageRegistry) (m : Records) (a : PackageRecord) (w : Option Records)
      → quarantine_change k q m ≡ ok (a, w)
      → Step q m (written m w)
  unfolding quarantine_change require
  quarantine_change-Step allowed k q m a w h = elim (Option-cases (lookup k m)) [
    | inl e ↦ absurd (ground (arith, e, h))
    | inr (r, e) ↦
        let f : some (insert k (record r { status = disabled }) m) ≡ w = ground (arith, e, h) in
        subst (λ (v : Option Records). Step q m (written m v)) f
          (quarantine_step k r e (ground (arith, e, h)) allowed)
  ]

  uninstall_change-Step :
      (k : String) (q : PackageRegistry) (m : Records) (a : PackageRecord) (w : Option Records)
      → uninstall_change k q m ≡ ok (a, w)
      → Step q m (written m w)
  unfolding uninstall_change require
  uninstall_change-Step k q m a w h = elim (Option-cases (lookup k m)) [
    | inl e ↦ absurd (ground (arith, e, h))
    | inr (r, e) ↦
        let f : some (delete k m) ≡ w = ground (arith, e, h) in
        subst (λ (v : Option Records). Step q m (written m v)) f
          (uninstall_step k r e (ground (arith, e, h)) (ground (arith, e, h))
            (ground (arith, e, h)))
  ]

  cleanup_change-Step :
      (q : PackageRegistry) (m : Records) (a : Bool) (w : Option Records)
      → cleanup_change q m ≡ ok (a, w)
      → Step q m (written m w)
  unfolding cleanup_change
  cleanup_change-Step q m a w h =
      let f : m ≡ written m w = ground (arith, h) in subst (Step q m) f keep_all

  -- A call left the registry alone, or made a step of its records and wrote them.
  pub data Moves (q : PackageRegistry) : PackageRegistry → Type 0 where
    unmoved : Moves q q
    moved :
        (m m' : Records)
        → parse q.file ≡ ok m
        → Step q m m'
        → Moves q (record q { file = write m' })

  transact-Moves :
      {A : Type 0} (body : PackageRegistry → Records → Change A) (q : PackageRegistry)
      → ((m : Records) (a : A) (w : Option Records) → body q m ≡ ok (a, w) → Step q m (written m w))
      → Moves q (transact body q).1
  unfolding transact
  transact-Moves {A} body q steps = elim (Result-cases (parse q.file)) [
    | inr (x, e) ↦ rw e unmoved
    | inl (m, e) ↦ rw e (go m e (body q m) refl)
  ]
    where
      go :
          (m : Records) (e : parse q.file ≡ ok m) (c : Change A)
          → body q m ≡ c
          → Moves q (commit c q).1
      go m e (err x) f = unmoved
      go m e (ok (a, none)) f = unmoved
      go m e (ok (a, some m')) f = moved m m' e (steps m a (some m') f)

-- A call of the registry.
pub data Operation : Type 0 where
  install_op : List PackageManifest → Operation
  enable_op disable_op quarantine_op uninstall_op : String → Operation
  cleanup_op : Operation

abbrev pub is_quarantine : Operation → Bool
is_quarantine (quarantine_op k) = true
is_quarantine (install_op manifests) = false
is_quarantine (enable_op k) = false
is_quarantine (disable_op k) = false
is_quarantine (uninstall_op k) = false
is_quarantine cleanup_op = false

module _ (satisfies : String → String → Bool) where
  unfoldable pub after : Operation → PackageRegistry → PackageRegistry
  after (install_op manifests) q = (install_many satisfies manifests q).1
  after (enable_op k) q = (enable satisfies k q).1
  after (disable_op k) q = (disable satisfies k q).1
  after (quarantine_op k) q = (quarantine k q).1
  after (uninstall_op k) q = (uninstall k q).1
  after cleanup_op q = (persist_legacy_cleanup q).1

  unfoldable pub after_all : List Operation → PackageRegistry → PackageRegistry
  unfolding after
  after_all [] q = q
  after_all (op ∷ ops) q = after_all ops (after op q)

  pub after-Moves :
      (op : Operation) (q : PackageRegistry) → Moves satisfies (is_quarantine op) q (after op q)
  unfolding after install_many enable disable quarantine uninstall persist_legacy_cleanup
  after-Moves (install_op manifests) q =
      transact-Moves satisfies false (install_change satisfies manifests) q
        (install_change-Step satisfies false manifests q)
  after-Moves (enable_op k) q =
      transact-Moves satisfies false (enable_change satisfies k) q
        (enable_change-Step satisfies false k q)
  after-Moves (disable_op k) q =
      transact-Moves satisfies false (disable_change satisfies k) q
        (disable_change-Step satisfies false k q)
  after-Moves (quarantine_op k) q =
      transact-Moves satisfies true (quarantine_change k) q
        (quarantine_change-Step satisfies true refl k q)
  after-Moves (uninstall_op k) q =
      transact-Moves satisfies false (uninstall_change k) q
        (uninstall_change-Step satisfies false k q)
  after-Moves cleanup_op q =
      transact-Moves satisfies false cleanup_change q (cleanup_change-Step satisfies false q)
