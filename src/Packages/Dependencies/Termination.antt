-- ===== src/Packages/Dependencies/Termination.antt =====
-- src/plaik_core/dependencies.py, `resolve_install_order`: it ends, and a graph that passes the
-- checks and has no cycle is resolved.
use plaik.Prelude.{
  ℕ, suc, ◌<◌, ◌≡◌, ◌≢◌, refl, String, Bool, true, List, [], ◌∷◌, arith, string_eq, Option-cases,
  inl, inr, length,
}
use plaik.Prelude.Dict.{Dict, lookup, values}
use plaik.Prelude.Items.{sort_items, lookup-sort_items}
use plaik.Prelude.Results.{ok, err, ◌>>=◌, Result-cases}
use plaik.Prelude.Sets.{has, All-of-has, each, each-ne}
use plaik.Packages.Manifest.{
  PackageDependency, PackageConflict, RequiredCapability, PackageManifest,
}
use plaik.Packages.Dependencies.{
  out_of_rounds, Packages, keys, is_member, collect, merge, check_identity, check_conflict,
  check_dependency, check_package, check_requirement, provided, resolve_capabilities, visit_all,
  visit, not_visited, search_order, resolve_install_order,
}
use plaik.Packages.Dependencies.Order.{visit-Progress}
use plaik.Packages.Dependencies.Bound.{
  remaining-nothing, is_member-of_has, rank_bound, rank_bound-above, visit_all-Lasts, visit-Lasts,
}
use plaik.Packages.Dependencies.Acyclic.{FallsAlong, visit_all-Returns, visit-Returns}
use plaik.Packages.Dependencies.Graph.{collect-err}
use plaik.Packages.Dependencies.Resolution.{Prepared, collect-Prepared, not_visited-Sound}

length-keys : {V : Type 0} (d : Dict String V) → length (keys d) ≡ length d
length-keys [] = refl
length-keys ((k, v) ∷ d) = ground (arith, length-keys d)

module _ (manifests : List PackageManifest) (installed candidates : Packages)
    (prepared : Prepared manifests installed candidates) where
  search_order-Lasts : search_order (merge installed candidates) candidates ≢ err out_of_rounds
  unfolding search_order
  search_order-Lasts h =
      let all = merge installed candidates in
      let rounds = suc (length all) in
      let lasts =
        visit_all-Lasts candidates all prepared.agrees rounds (visit all candidates rounds)
          (visit-Progress candidates all prepared.agrees rounds)
          (visit-Lasts candidates all prepared.agrees rounds) (keys (sort_items candidates))
          not_visited (not_visited-Sound candidates)
          (omega (arith, remaining-nothing (keys all), length-keys all)) in
      elim (Result-cases
        (visit_all (visit all candidates rounds) (keys (sort_items candidates)) not_visited)) [
          | inr (x, e) ↦ ground (arith, e, h, lasts)
          | inl (s, e) ↦ ground (arith, e, h)
        ]

  candidate-is_member :
      (d : String)
      → has d (keys (sort_items candidates)) ≡ true
      → is_member d (merge installed candidates) ≡ true
  candidate-is_member d h =
      let there = is_member-of_has d (sort_items candidates) h in
      elim (Option-cases (lookup d candidates)) [
        | inl e ↦ absurd (ground (arith, e, there, lookup-sort_items d candidates))
        | inr (m, e) ↦ ground (arith, prepared.agrees d m e)
      ]

  search_order-returns :
      (rank : String → ℕ)
      → FallsAlong rank (merge installed candidates)
      → (order : List PackageManifest) × (search_order (merge installed candidates) candidates
          ≡ ok order)
  unfolding search_order
  search_order-returns rank falls =
      let all = merge installed candidates in
      let rounds = suc (length all) in
      let ks = keys (sort_items candidates) in
      let (s, e) =
        visit_all-Returns candidates all prepared.agrees rank rounds (rank_bound rank ks)
          (visit all candidates rounds) (visit-Progress candidates all prepared.agrees rounds)
          (visit-Returns candidates all prepared.agrees rank falls rounds) ks not_visited
          (not_visited-Sound candidates)
          (omega (arith, remaining-nothing (keys all), length-keys all))
          (All-of-has (λ d. (is_member d all ≡ true) × (rank d < rank_bound rank ks)) ks
            (λ d h. (candidate-is_member d h, rank_bound-above rank ks d h)))
          (λ y h. absurd (unfold has in (ground (arith, h)))) in
      (s.ordered, rw (e, ◌>>=◌))

module _ (satisfies : String → String → Bool) (core_version : String) where
  check_conflict-ne :
      (all : Packages) (c : PackageConflict) → check_conflict satisfies all c ≢ err out_of_rounds
  unfolding check_conflict
  check_conflict-ne all c h = ground arith

  check_dependency-ne :
      (all : Packages) (d : PackageDependency)
      → check_dependency satisfies all d ≢ err out_of_rounds
  unfolding check_dependency
  check_dependency-ne all d h = ground arith

  check_package-ne :
      (all : Packages) (m : PackageManifest)
      → check_package satisfies core_version all m ≢ err out_of_rounds
  unfolding check_package
  check_package-ne all m h = ground (
    arith,
    h,
    each-ne (check_conflict satisfies all) out_of_rounds (check_conflict-ne all) m.conflicts,
    each-ne (check_dependency satisfies all) out_of_rounds (check_dependency-ne all) m.dependencies,
  )

  check_requirement-ne :
      (d : Dict String (List (String × String))) (r : RequiredCapability)
      → check_requirement satisfies d r ≢ err out_of_rounds
  unfolding check_requirement
  check_requirement-ne d r h = ground arith

  resolve_capabilities-ne :
      (ms : List PackageManifest) → resolve_capabilities satisfies ms ≢ err out_of_rounds
  unfolding resolve_capabilities
  resolve_capabilities-ne ms =
      each-ne (λ m. each (check_requirement satisfies (provided ms [])) m.requires) out_of_rounds
        (λ m.
          each-ne (check_requirement satisfies (provided ms [])) out_of_rounds
            (check_requirement-ne (provided ms [])) m.requires)
        ms

  check_identity-ne : (p : String × PackageManifest) → check_identity p ≢ err out_of_rounds
  unfolding check_identity
  check_identity-ne (k, m) h = ground arith

  module _ (manifests : List PackageManifest) (installed : Packages) where
    -- The bound on the depth of the search, one more than there are packages, is never reached,
    -- whatever the manifests and the installed packages are.
    pub resolve_install_order-terminates :
        resolve_install_order satisfies manifests core_version installed ≢ err out_of_rounds
    unfolding resolve_install_order
    resolve_install_order-terminates h = elim (Result-cases (collect manifests [])) [
      | inr (x, e) ↦ ground (arith, e, h, collect-err manifests [] x e)
      | inl (c, e) ↦
          let all = merge installed c in
          ground (
            arith,
            e,
            h,
            each-ne check_identity out_of_rounds check_identity-ne installed,
            each-ne (check_package satisfies core_version all) out_of_rounds (check_package-ne all)
                (values all),
            resolve_capabilities-ne (values all),
            search_order-Lasts manifests installed c (collect-Prepared manifests installed c e),
          )
    ]

    -- Where the requested ids differ, the installed packages stand under their ids, and the checks
    -- of the complete graph pass, a graph on which some rank falls along every dependency is resolved.
    pub resolve_install_order-returns :
        (candidates : Packages) (rank : String → ℕ)
        → collect manifests [] ≡ ok candidates
        → each check_identity installed ≡ ok tt
        → each
            (check_package satisfies core_version (merge installed candidates))
            (values (merge installed candidates))
          ≡ ok tt
        → resolve_capabilities satisfies (values (merge installed candidates)) ≡ ok tt
        → FallsAlong rank (merge installed candidates)
        → (order : List PackageManifest) × (resolve_install_order satisfies manifests core_version
              installed
            ≡ ok order)
    unfolding resolve_install_order
    resolve_install_order-returns candidates rank e f g i falls =
        let (order, s) =
          search_order-returns manifests installed candidates
            (collect-Prepared manifests installed candidates e) rank falls in
        (order, rw (e, f, g, i) s)
