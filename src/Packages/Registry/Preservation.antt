-- ===== src/Packages/Registry/Preservation.antt =====
-- src/plaik_core/packages.py: after any calls the installed packages fit together, and protected
-- packages stay.
use plaik.Prelude.{
  ◌≡◌, refl, ap, subst, String, Bool, some, List, [], ◌∷◌, arith, string_eq, inl, inr,
}
use plaik.Prelude.Dict.{lookup, Every, Every-insert, Every-delete, Every-lookup}
use plaik.Prelude.Items.{sort_items, lookup-sort_items, Every-sort_items}
use plaik.Prelude.Results.{ok, Result-cases}
use plaik.Prelude.Sets.{each}
use plaik.Packages.Registry.{
  enabled, disabled, PackageRecord, Records, PackageRegistry, RegistryFile, absent, malformed,
  document, cleaned, check_record, parse, write,
}
use plaik.Packages.Registry.Lookups.{
  manifest_of, Keyed, check_record-Keyed, parse-write, create-Keyed,
}
use plaik.Packages.Registry.Together.{
  manifest_at, Together, Together-same, status-Together, install-Together, uninstall-Together,
}
use plaik.Packages.Registry.Steps.{
  Step, keep_all, install_step, enable_step, disable_step, quarantine_step, uninstall_step, Moves,
  unmoved, moved, Operation, is_quarantine, after, after_all, after-Moves,
}

parse-Keyed : (f : RegistryFile) (m : Records) → parse f ≡ ok m → Every Keyed m
unfolding parse
parse-Keyed absent m h = let e : [] ≡ m = ground (arith, h) in subst (Every Keyed) e tt
parse-Keyed malformed m h = absurd (ground (arith, h))
parse-Keyed (document d) m h = elim (Result-cases (each check_record (cleaned d))) [
  | inr (x, e) ↦ absurd (ground (arith, e, h))
  | inl (u, e) ↦ subst (Every Keyed) (ground (arith, e, h)) (check_record-Keyed (cleaned d) e)
]

module _ (satisfies : String → String → Bool) where
  named-lookup :
      (m : Records) (k : String) (r : PackageRecord)
      → Every Keyed m
      → lookup k m ≡ some r
      → k ≡ r.manifest.id
  named-lookup m k r h e = Every-lookup Keyed k m h e

  Step-Keyed :
      (b : Bool) (q : PackageRegistry) (m m' : Records)
      → Step satisfies b q m m'
      → Every Keyed m
      → Every Keyed m'
  Step-Keyed b q m m' keep_all h = h
  Step-Keyed b q m m' (install_step manifests order n e) h = create-Keyed order m h
  Step-Keyed b q m m' (enable_step k r e c) h = Every-insert Keyed k _ m (named-lookup m k r h e) h
  Step-Keyed b q m m' (disable_step k r e c) h = Every-insert Keyed k _ m (named-lookup m k r h e) h
  Step-Keyed b q m m' (quarantine_step k r e p a) h =
      Every-insert Keyed k _ m (named-lookup m k r h e) h
  Step-Keyed b q m m' (uninstall_step k r e p a d) h = Every-delete Keyed k m h

  Step-Together :
      (b : Bool) (q : PackageRegistry) (m m' : Records)
      → Step satisfies b q m m'
      → Together satisfies q.core_version (manifest_at m)
      → Together satisfies q.core_version (manifest_at m')
  Step-Together b q m m' keep_all t = t
  Step-Together b q m m' (install_step manifests order n e) t =
      install-Together satisfies q.core_version manifests order m e t
  Step-Together b q m m' (enable_step k r e c) t =
      status-Together satisfies q.core_version m k r (record r { status = enabled }) e refl t
  Step-Together b q m m' (disable_step k r e c) t =
      status-Together satisfies q.core_version m k r (record r { status = disabled }) e refl t
  Step-Together b q m m' (quarantine_step k r e p a) t =
      status-Together satisfies q.core_version m k r (record r { status = disabled }) e refl t
  Step-Together b q m m' (uninstall_step k r e p a d) t =
      uninstall-Together satisfies q.core_version m k d t

  -- What a call that moved the registry wrote is read back, record by record.
  pub moved-reads :
      (b : Bool) (q : PackageRegistry) (m m' : Records)
      → parse q.file ≡ ok m
      → Step satisfies b q m m'
      → parse (write m') ≡ ok (sort_items m')
  moved-reads b q m m' e s =
      parse-write m' (Every-sort_items Keyed m' (Step-Keyed b q m m' s (parse-Keyed q.file m e)))

  -- The registry, if it can be read, is of packages that fit together.
  abbrev pub FitsTogether : PackageRegistry → Type 0
  FitsTogether q =
      (m : Records) → parse q.file ≡ ok m → Together satisfies q.core_version (manifest_at m)

  Moves-FitsTogether :
      (b : Bool) (q q' : PackageRegistry)
      → Moves satisfies b q q'
      → FitsTogether q
      → FitsTogether q'
  Moves-FitsTogether b q q' unmoved h n f = h n f
  Moves-FitsTogether b q q' (moved m m' e s) h n f =
      let same : sort_items m' ≡ n = ground (arith, f, moved-reads b q m m' e s) in
      subst (λ (x : Records). Together satisfies q.core_version (manifest_at x)) same
        (Together-same satisfies q.core_version (manifest_at m') (manifest_at (sort_items m'))
          (λ k. ap manifest_of (lookup-sort_items k m')) (Step-Together b q m m' s (h m e)))

  -- Any calls, raising or not, keep this: every package that the registry lists stands under its id
  -- and is compatible with the Core, its required dependencies are listed in versions that match,
  -- an optional one that is listed matches too, and none that it conflicts with is listed.
  pub after_all-FitsTogether :
      (ops : List Operation) (q : PackageRegistry)
      → FitsTogether q
      → FitsTogether (after_all satisfies ops q)
  unfolding after_all
  after_all-FitsTogether [] q h = h
  after_all-FitsTogether (op ∷ ops) q h = after_all-FitsTogether ops (after satisfies op q) (
      Moves-FitsTogether (is_quarantine op) q (after satisfies op q) (after-Moves satisfies op q) h)
