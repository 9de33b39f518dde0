-- ===== src/Packages/Dependencies/Resolution.antt =====
-- src/plaik_core/dependencies.py, `resolve_install_order`: the order is complete and respects the
-- dependencies, and the resolution ends.
use plaik.Prelude.{
  suc, ◌≡◌, ap, subst, ◌∙◌, String, Bool, true, false, Option, none, some, List, [], arith,
  string_eq, All, All-weaken, inl, inr, length,
}
use plaik.Prelude.Dict.{lookup, values}
use plaik.Prelude.Items.{sort_items, lookup-sort_items}
use plaik.Prelude.Results.{ok, Result-cases}
use plaik.Prelude.Sets.{has, Unique, All-has, each}
use plaik.Packages.Manifest.{PackageManifest}
use plaik.Packages.Dependencies.{
  Packages, keys, is_member, collect, merge, check_identity, check_package, resolve_capabilities,
  Visit, visit_all, visit, not_visited, search_order, resolve_install_order,
}
use plaik.Packages.Dependencies.Precedence.{ids, DepsFirst, DepsFirst-fewer}
use plaik.Packages.Dependencies.Search.{Sound}
use plaik.Packages.Dependencies.Order.{visit_all-Progress, visit-Progress}
use plaik.Packages.Dependencies.Bound.{has-keys}
use plaik.Packages.Dependencies.Graph.{
  find, is_found, or_else, find-id, collect-lookup, collect-Distinct, merge-lookup,
}

-- The packages of an order are those requested, each once, and a requested package that another
-- depends on comes before it.
pub record IsInstallOrder (manifests order : List PackageManifest) : Type 0 where
  pub unique : Unique (ids order)
  pub requested : All (λ m. find m.id manifests ≡ some m) order
  pub complete :
      (k : String) (m : PackageManifest) → find k manifests ≡ some m → has k (ids order) ≡ true
  pub dependencies_first : DepsFirst (λ k. is_found k manifests) [] order

-- What the search is given: the requested packages, and the graph that they would leave.
pub record Prepared (manifests : List PackageManifest) (installed candidates : Packages)
    : Type 0 where
  pub chosen : (k : String) → lookup k candidates ≡ find k manifests
  pub graph :
      (k : String)
      → lookup k (merge installed candidates) ≡ or_else (find k manifests) (lookup k installed)
  pub agrees :
      (k : String) (m : PackageManifest)
      → lookup k candidates ≡ some m
      → (lookup k (merge installed candidates) ≡ some m) × (m.id ≡ k)

pub collect-Prepared :
    (manifests : List PackageManifest) (installed candidates : Packages)
    → collect manifests [] ≡ ok candidates
    → Prepared manifests installed candidates
unfolding lookup
collect-Prepared manifests installed candidates h =
    let chosen = λ (k : String). collect-lookup manifests [] candidates k h in
    let merged = λ (k : String).
      merge-lookup installed candidates k (collect-Distinct manifests [] candidates h tt) in
    record {
      chosen = chosen;
      graph = λ k. ground (arith, chosen k, merged k);
      agrees = λ k m e. ground (arith, e, chosen k, merged k, find-id k manifests m);
    }

pub not_visited-Sound : (candidates : Packages) → Sound candidates not_visited
unfolding has
not_visited-Sound candidates = record {
  separate = λ d h. absurd (ground arith);
  listed = λ d c h. absurd (ground arith);
  only = λ d h. h;
  members = tt;
  unique = tt;
  sorted = tt;
}

module _ (manifests : List PackageManifest) (installed candidates : Packages)
    (prepared : Prepared manifests installed candidates) where
  is_member-chosen : (k : String) → is_member k candidates ≡ is_found k manifests
  is_member-chosen k =
      ap (λ (o : Option PackageManifest). elim o [ none ↦ false | some _ ↦ true ])
        (prepared.chosen k)

  Sound-IsInstallOrder :
      (s : Visit)
      → Sound candidates s
      → All (λ d. has d s.visited ≡ true) (keys (sort_items candidates))
      → IsInstallOrder manifests s.ordered
  Sound-IsInstallOrder s k seen = record {
    unique = k.unique;
    requested =
        All-weaken (λ m. lookup m.id candidates ≡ some m) (λ m. find m.id manifests ≡ some m)
          (λ m e. ground (arith, e, prepared.chosen m.id)) s.ordered k.members;
    complete = λ d m e.
        let e' : lookup d candidates ≡ some m = prepared.chosen d ∙ e in
        k.listed d (ground (arith, e')) (
          All-has (λ d. has d s.visited ≡ true) d (keys (sort_items candidates)) seen
            (has-keys d (sort_items candidates) m (lookup-sort_items d candidates ∙ e')));
    dependencies_first =
        DepsFirst-fewer (λ d. is_member d candidates) (λ d. is_found d manifests)
          (λ d e. is_member-chosen d ∙ e) [] s.ordered k.sorted;
  }

  pub search_order-IsInstallOrder :
      (order : List PackageManifest)
      → search_order (merge installed candidates) candidates ≡ ok order
      → IsInstallOrder manifests order
  unfolding search_order
  search_order-IsInstallOrder order h =
      let all = merge installed candidates in
      let rounds = suc (length all) in
      elim (Result-cases
        (visit_all (visit all candidates rounds) (keys (sort_items candidates)) not_visited)) [
          | inr (x, e) ↦ absurd (ground (arith, e, h))
          | inl (s, e) ↦
              let (p, seen) =
                visit_all-Progress candidates all prepared.agrees (visit all candidates rounds)
                  (visit-Progress candidates all prepared.agrees rounds)
                  (keys (sort_items candidates)) not_visited s e (not_visited-Sound candidates) in
              let same : s.ordered ≡ order = ground (arith, e, h) in
              subst (IsInstallOrder manifests) same (Sound-IsInstallOrder s p.sound seen)
        ]

module _ (satisfies : String → String → Bool) (core_version : String)
    (manifests : List PackageManifest) (installed : Packages) where
  -- What a resolution that returned did.
  pub record Resolved (order : List PackageManifest) : Type 0 where
    pub candidates : Packages
    pub collected : collect manifests [] ≡ ok candidates
    pub checked :
        each
          (check_package satisfies core_version (merge installed candidates))
          (values (merge installed candidates))
        ≡ ok tt
    pub capable : resolve_capabilities satisfies (values (merge installed candidates)) ≡ ok tt
    pub searched : search_order (merge installed candidates) candidates ≡ ok order

  pub resolve-Resolved :
      (order : List PackageManifest)
      → resolve_install_order satisfies manifests core_version installed ≡ ok order
      → Resolved order
  unfolding resolve_install_order
  resolve-Resolved order h = elim (Result-cases (collect manifests [])) [
    | inr (x, e) ↦ absurd (ground (arith, e, h))
    | inl (c, e) ↦
        let all = merge installed c in
        elim (Result-cases (each check_identity installed)) [
          | inr (x, f) ↦ absurd (ground (arith, e, f, h))
          | inl (u, f) ↦
              elim (Result-cases (each (check_package satisfies core_version all) (values all))) [
                | inr (x, g) ↦ absurd (ground (arith, e, f, g, h))
                | inl (v, g) ↦ elim (Result-cases (resolve_capabilities satisfies (values all))) [
                  | inr (x, i) ↦ absurd (ground (arith, e, f, g, i, h))
                  | inl (w, i) ↦ record {
                    candidates = c;
                    collected = e;
                    checked = g;
                    capable = i;
                    searched = ground (arith, e, f, g, i, h);
                  }
                ]
              ]
        ]
  ]

  -- The order that a resolution returns is of the requested packages, each once, and a requested
  -- package comes after every requested package that it depends on, optional or not.
  pub resolve_install_order-IsInstallOrder :
      (order : List PackageManifest)
      → resolve_install_order satisfies manifests core_version installed ≡ ok order
      → IsInstallOrder manifests order
  resolve_install_order-IsInstallOrder order h =
      let r = resolve-Resolved order h in
      search_order-IsInstallOrder manifests installed r.candidates
        (collect-Prepared manifests installed r.candidates r.collected) order r.searched
