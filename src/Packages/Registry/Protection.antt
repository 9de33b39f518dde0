-- ===== src/Packages/Registry/Protection.antt =====
-- src/plaik_core/packages.py: protected packages stay installed.
use plaik.Prelude.{
  ◌≡◌, refl, ap, subst, sym, ◌∙◌, String, Bool, true, false, some, List, [], ◌∷◌, arith, ◌==◌,
  string_eq, eq_iff, Bool-cases, inl, inr, Option-cases,
}
use plaik.Prelude.Dict.{lookup, insert, lookup-insert, lookup-delete}
use plaik.Prelude.Items.{sort_items, lookup-sort_items}
use plaik.Prelude.Results.{ok}
use plaik.Prelude.Sets.{has}
use plaik.Packages.Manifest.{PackageManifest}
use plaik.Packages.Dependencies.{resolve_install_order}
use plaik.Packages.Dependencies.Graph.{find}
use plaik.Packages.Dependencies.Resolution.{resolve_install_order-IsInstallOrder}
use plaik.Packages.Registry.{
  enabled, disabled, any_installed, PackageRecord, Records, PackageRegistry, parse, manifests_of,
  create,
}
use plaik.Packages.Registry.Lookups.{manifest_of, lookup-create, find-order, any_installed-find}
use plaik.Packages.Registry.Together.{manifest_at}
use plaik.Packages.Registry.Steps.{
  Step, keep_all, install_step, enable_step, disable_step, quarantine_step, uninstall_step, Moves,
  unmoved, moved, Operation, is_quarantine, after, after_all, after-Moves,
}
use plaik.Packages.Registry.Preservation.{moved-reads}

module _ (satisfies : String → String → Bool) where
  -- An installation changes no record that is there.
  pub lookup-install :
      (core_version : String) (manifests order : List PackageManifest) (m : Records) (k : String)
      (r : PackageRecord)
      → any_installed m manifests ≡ false
      → resolve_install_order satisfies manifests core_version (manifests_of m) ≡ ok order
      → lookup k m ≡ some r
      → lookup k (create order m).1 ≡ some r
  lookup-install core_version manifests order m k r free e f =
      let i =
        resolve_install_order-IsInstallOrder satisfies core_version manifests (manifests_of m) order
          e in
      elim (Option-cases (find k manifests)) [
        | inl g ↦
            ground (arith, f, g, lookup-create order m k i.unique, find-order manifests order k i)
        | inr (n, g) ↦ absurd (ground (arith, f, any_installed-find m manifests k n free g))
      ]

  status-manifest_at :
      (m : Records) (j k : String) (r r' : PackageRecord) (n : PackageManifest)
      → lookup j m ≡ some r
      → r'.manifest ≡ r.manifest
      → manifest_at m k ≡ some n
      → manifest_at (insert j r' m) k ≡ some n
  status-manifest_at m j k r r' n e same f = elim (Bool-cases (j == k)) [
    | inl p ↦
        let here : lookup k m ≡ some r =
          subst (λ (x : String). lookup x m ≡ some r) ((eq_iff j k).0 p) e in
        ground (arith, p, here, same, f, lookup-insert j k r' m)
    | inr p ↦ ground (arith, p, f, lookup-insert j k r' m)
  ]

  Step-manifest_at :
      (b : Bool) (q : PackageRegistry) (m m' : Records) (k : String) (n : PackageManifest)
      → Step satisfies b q m m'
      → has k q.protected_ids ≡ true
      → manifest_at m k ≡ some n
      → manifest_at m' k ≡ some n
  Step-manifest_at b q m m' k n keep_all p e = e
  Step-manifest_at b q m m' k n (install_step manifests order free f) p e =
      elim (Option-cases (lookup k m)) [
        | inl g ↦ absurd (ground (arith, e, g))
        | inr (r, g) ↦
            ground (arith, e, g, lookup-install q.core_version manifests order m k r free f g)
      ]
  Step-manifest_at b q m m' k n (enable_step j r f c) p e =
      status-manifest_at m j k r (record r { status = enabled }) n f refl e
  Step-manifest_at b q m m' k n (disable_step j r f c) p e =
      status-manifest_at m j k r (record r { status = disabled }) n f refl e
  Step-manifest_at b q m m' k n (quarantine_step j r f c a) p e =
      status-manifest_at m j k r (record r { status = disabled }) n f refl e
  Step-manifest_at b q m m' k n (uninstall_step j r f c d g) p e =
      ground (
        arith,
        p,
        c,
        e,
        eq_iff j k,
        ap (λ (x : String). has x q.protected_ids),
        lookup-delete j k m,
      )

  Moves-manifest_at :
      (b : Bool) (q q' : PackageRegistry) (m : Records) (k : String) (n : PackageManifest)
      → Moves satisfies b q q'
      → parse q.file ≡ ok m
      → has k q.protected_ids ≡ true
      → manifest_at m k ≡ some n
      → (m' : Records) × (parse q'.file ≡ ok m')
        × (has k q'.protected_ids ≡ true)
        × (manifest_at m' k ≡ some n)
  Moves-manifest_at b q q' m k n unmoved e p f = (m, e, p, f)
  Moves-manifest_at b q q' m k n (moved before m' g s) e p f =
      let same : before ≡ m = ground (arith, e, g) in
      (
        sort_items m',
        moved-reads satisfies b q before m' g s,
        p,
        ap manifest_of (lookup-sort_items k m')
            ∙ Step-manifest_at b q before m' k n s p
                (subst (λ (x : Records). manifest_at x k ≡ some n) (sym same) f),
      )

  -- A protected package that is installed is installed after any calls, with the same manifest, and
  -- the registry can still be read.
  pub after_all-protected :
      (ops : List Operation) (q : PackageRegistry) (m : Records) (k : String) (n : PackageManifest)
      → parse q.file ≡ ok m
      → has k q.protected_ids ≡ true
      → manifest_at m k ≡ some n
      → (m' : Records) × (parse (after_all satisfies ops q).file ≡ ok m')
        × (manifest_at m' k ≡ some n)
  unfolding after_all
  after_all-protected [] q m k n e p f = (m, e, f)
  after_all-protected (op ∷ ops) q m k n e p f =
      let (m', e', p', f') =
        Moves-manifest_at (is_quarantine op) q (after satisfies op q) m k n
          (after-Moves satisfies op q) e p f in
      after_all-protected ops (after satisfies op q) m' k n e' p' f'
