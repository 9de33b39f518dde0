-- ===== src/Packages/Registry/Together.antt =====
-- src/plaik_core/packages.py: the installed packages fit together after every operation.
use plaik.Prelude.{
  ◌≡◌, refl, subst, fun_ext, sym, String, Bool, true, false, ◌||◌, not, Option, none, some, List,
  arith, ◌==◌, string_eq, eq_iff, All-weaken, All-zip, Bool-cases, inl, inr, Option-cases,
}
use plaik.Prelude.Dict.{lookup, insert, delete, lookup-insert, lookup-delete}
use plaik.Prelude.Results.{ok}
use plaik.Packages.Manifest.{PackageDependency, PackageConflict, PackageManifest}
use plaik.Packages.Dependencies.{resolve_install_order}
use plaik.Packages.Dependencies.Graph.{find, or_else, find-id}
use plaik.Packages.Dependencies.Resolution.{resolve_install_order-IsInstallOrder}
use plaik.Packages.Dependencies.Compatibility.{
  IsMet, IsAbsent, IsCompatible, resolve_install_order-IsCompatible,
}
use plaik.Packages.Registry.{
  PackageRecord, Records, manifests_of, create, required_dependents, is_empty,
}
use plaik.Packages.Registry.Lookups.{
  manifest_of, lookup-manifests_of, lookup-create, find-order, required_dependents-needs, needs-All,
}

-- The manifest installed under an id.
abbrev pub manifest_at : Records → String → Option PackageManifest
manifest_at m k = manifest_of (lookup k m)

module _ (satisfies : String → String → Bool) (core_version : String) where
  -- Each package stands under its id and is compatible with the Core and the other packages.
  pub record Together (g : String → Option PackageManifest) : Type 0 where
    pub named : (k : String) (m : PackageManifest) → g k ≡ some m → m.id ≡ k
    pub compatible :
        (k : String) (m : PackageManifest) → g k ≡ some m → IsCompatible satisfies core_version g m

  pub Together-same :
      (g h : String → Option PackageManifest) → ((k : String) → h k ≡ g k) → Together g → Together h
  Together-same g h e = subst Together (sym (fun_ext e))

  pub Together-empty : Together (λ k. none)
  Together-empty = record {
    named = λ k m e. absurd (ground arith);
    compatible = λ k m e. absurd (ground arith);
  }

  -- A record changes its status alone.
  pub status-Together :
      (m : Records) (k : String) (r r' : PackageRecord)
      → lookup k m ≡ some r
      → r'.manifest ≡ r.manifest
      → Together (manifest_at m)
      → Together (manifest_at (insert k r' m))
  status-Together m k r r' e same =
      Together-same (manifest_at m) (manifest_at (insert k r' m)) (λ j. elim (Bool-cases (k == j)) [
        | inl p ↦
            let here : lookup j m ≡ some r =
              subst (λ (x : String). lookup x m ≡ some r) ((eq_iff k j).0 p) e in
            ground (arith, p, here, same, lookup-insert k j r' m)
        | inr p ↦ ground (arith, p, lookup-insert k j r' m)
      ])

  -- The packages that an installation leaves are those that the resolution accepted.
  pub install-Together :
      (manifests order : List PackageManifest) (m : Records)
      → resolve_install_order satisfies manifests core_version (manifests_of m) ≡ ok order
      → Together (manifest_at m)
      → Together (manifest_at (create order m).1)
  install-Together manifests order m h t =
      let i =
        resolve_install_order-IsInstallOrder satisfies core_version manifests (manifests_of m) order
          h in
      let g = λ (k : String). or_else (find k manifests) (lookup k (manifests_of m)) in
      Together-same g (manifest_at (create order m).1)
        (λ k. ground (
          arith,
          lookup-create order m k i.unique,
          find-order manifests order k i,
          lookup-manifests_of k m,
        ))
        (record {
          named = λ k n e.
              ground (arith, e, find-id k manifests n, t.named k n, lookup-manifests_of k m);
          compatible = λ k n e.
              resolve_install_order-IsCompatible satisfies core_version manifests (manifests_of m)
                order k n h e;
        })

  delete-IsMet :
      (m : Records) (k : String) (d : PackageDependency)
      → (not (d.package_id == k) || d.optional) ≡ true
      → IsMet satisfies (manifest_at m) d
      → IsMet satisfies (manifest_at (delete k m)) d
  delete-IsMet m k d o (inr (e, p)) = inr (ground (arith, e, lookup-delete k d.package_id m), p)
  delete-IsMet m k d o (inl (t, e, v)) = elim (Bool-cases (k == d.package_id)) [
    | inl same ↦ inr (
      ground (arith, same, lookup-delete k d.package_id m),
      ground (arith, o, same, eq_iff k d.package_id, eq_iff d.package_id k),
    )
    | inr other ↦ inl (t, ground (arith, e, other, lookup-delete k d.package_id m), v)
  ]

  delete-IsAbsent :
      (m : Records) (k : String) (c : PackageConflict)
      → IsAbsent satisfies (manifest_at m) c
      → IsAbsent satisfies (manifest_at (delete k m)) c
  delete-IsAbsent m k c a t e = a t (ground (arith, e, lookup-delete k c.package_id m))

  -- A package that no other needs is removed.
  pub uninstall-Together :
      (m : Records) (k : String)
      → is_empty (required_dependents k false m) ≡ true
      → Together (manifest_at m)
      → Together (manifest_at (delete k m))
  uninstall-Together m k free t = record {
    named = λ j n e. t.named j n (ground (arith, e, lookup-delete k j m));
    compatible = λ j n e. elim (Option-cases (lookup j m)) [
      | inl f ↦ absurd (ground (arith, e, f, lookup-delete k j m))
      | inr (r, f) ↦
          let same : r.manifest ≡ n = ground (arith, e, f, lookup-delete k j m) in
          let old = t.compatible j r.manifest (ground (arith, f)) in
          let optional =
            needs-All k r.manifest.dependencies
              (required_dependents-needs k false m j r free f refl) in
          subst (IsCompatible satisfies core_version (manifest_at (delete k m))) same (record {
            core = old.core;
            conflicts =
                All-weaken (IsAbsent satisfies (manifest_at m))
                  (IsAbsent satisfies (manifest_at (delete k m))) (delete-IsAbsent m k)
                  r.manifest.conflicts old.conflicts;
            dependencies =
                All-zip (λ d. (not (d.package_id == k) || d.optional) ≡ true)
                  (IsMet satisfies (manifest_at m)) (IsMet satisfies (manifest_at (delete k m)))
                  (delete-IsMet m k) r.manifest.dependencies optional old.dependencies;
          })
    ];
  }
