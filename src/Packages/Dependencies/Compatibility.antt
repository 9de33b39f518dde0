-- ===== src/Packages/Dependencies/Compatibility.antt =====
-- src/plaik_core/dependencies.py, `resolve_install_order`: the graph that a resolution accepts.
use plaik.Prelude.{
  ◌≡◌, subst, fun_ext, ◌∙◌, String, Bool, true, false, ◌⊎◌, inl, inr, Option, none, some, List,
  arith, All, All-weaken, string_eq, Option-cases,
}
use plaik.Prelude.Dict.{lookup, values, All-lookup}
use plaik.Prelude.Results.{ok, Result-cases}
use plaik.Prelude.Sets.{each, All-each}
use plaik.Packages.Manifest.{PackageDependency, PackageConflict, PackageManifest, version_matches}
use plaik.Packages.Dependencies.{
  Packages, check_conflict, check_dependency, check_package, merge, resolve_install_order,
}
use plaik.Packages.Dependencies.Graph.{find, or_else}
use plaik.Packages.Dependencies.Resolution.{resolve-Resolved, collect-Prepared}

module _ (satisfies : String → String → Bool) where
  -- A dependency is met by a package, or is optional and met by none.
  abbrev pub IsMet : (String → Option PackageManifest) → PackageDependency → Type 0
  IsMet packages d =
      ((t : PackageManifest) × (packages d.package_id ≡ some t)
        × (version_matches satisfies t.version d.version ≡ true))
      ⊎ ((packages d.package_id ≡ none) × (d.optional ≡ true))

  abbrev pub IsAbsent : (String → Option PackageManifest) → PackageConflict → Type 0
  IsAbsent packages c =
      (t : PackageManifest)
      → packages c.package_id ≡ some t
      → version_matches satisfies t.version c.version ≡ false

  pub record IsCompatible (core_version : String) (packages : String → Option PackageManifest)
      (m : PackageManifest) : Type 0 where
    pub core : version_matches satisfies core_version m.core ≡ true
    pub conflicts : All (IsAbsent packages) m.conflicts
    pub dependencies : All (IsMet packages) m.dependencies

  check_dependency-IsMet :
      (all : Packages) (d : PackageDependency)
      → check_dependency satisfies all d ≡ ok tt
      → IsMet (λ k. lookup k all) d
  unfolding check_dependency
  check_dependency-IsMet all d h = elim (Option-cases (lookup d.package_id all)) [
    | inl e ↦ inr (e, ground (arith, e, h))
    | inr (t, e) ↦ inl (t, e, ground (arith, e, h))
  ]

  check_conflict-IsAbsent :
      (all : Packages) (c : PackageConflict)
      → check_conflict satisfies all c ≡ ok tt
      → IsAbsent (λ k. lookup k all) c
  unfolding check_conflict
  check_conflict-IsAbsent all c h t e = ground (arith, e, h)

  check_package-IsCompatible :
      (core_version : String) (all : Packages) (m : PackageManifest)
      → check_package satisfies core_version all m ≡ ok tt
      → IsCompatible core_version (λ k. lookup k all) m
  unfolding check_package
  check_package-IsCompatible core_version all m h =
      elim (Result-cases (each (check_conflict satisfies all) m.conflicts)) [
        | inr (x, e) ↦ absurd (ground (arith, e, h))
        | inl (u, e) ↦ record {
          core = ground (arith, e, h);
          conflicts =
              All-weaken (λ c. check_conflict satisfies all c ≡ ok tt)
                (IsAbsent (λ k. lookup k all)) (check_conflict-IsAbsent all) m.conflicts
                (All-each (check_conflict satisfies all) m.conflicts e);
          dependencies =
              All-weaken (λ d. check_dependency satisfies all d ≡ ok tt) (IsMet (λ k. lookup k all))
                (check_dependency-IsMet all) m.dependencies
                (All-each (check_dependency satisfies all) m.dependencies (ground (arith, e, h)));
        }
      ]

  -- After a resolution that returned, every package that would be there, requested or installed, and
  -- the requested one where both are, is compatible with the Core, with the packages that it depends
  -- on and with those that it conflicts with, among the same packages.
  pub resolve_install_order-IsCompatible :
      (core_version : String) (manifests : List PackageManifest) (installed : Packages)
      (order : List PackageManifest) (k : String) (m : PackageManifest)
      → resolve_install_order satisfies manifests core_version installed ≡ ok order
      → or_else (find k manifests) (lookup k installed) ≡ some m
      → IsCompatible core_version (λ j. or_else (find j manifests) (lookup j installed)) m
  resolve_install_order-IsCompatible core_version manifests installed order k m h e =
      let r = resolve-Resolved satisfies core_version manifests installed order h in
      let all = merge installed r.candidates in
      let p = collect-Prepared manifests installed r.candidates r.collected in
      let same : (λ (j : String). lookup j all)
          ≡ (λ j. or_else (find j manifests) (lookup j installed)) =
        fun_ext p.graph in
      subst (λ (f : String → Option PackageManifest). IsCompatible core_version f m) same
        (check_package-IsCompatible core_version all m (
          All-lookup (λ n. check_package satisfies core_version all n ≡ ok tt) k all m
            (All-each (check_package satisfies core_version all) (values all) r.checked)
            (p.graph k ∙ e)))
