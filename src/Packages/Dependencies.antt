-- ===== src/Packages/Dependencies.antt =====
-- src/plaik_core/dependencies.py: `resolve_install_order` and `resolve_capabilities`. The checks of
-- the complete graph come first, then the depth-first search, which stops at a cycle.
pub mod Precedence
pub mod Search
pub mod Order
pub mod Bound
pub mod Graph
pub mod Resolution
pub mod Termination
pub mod Capabilities
pub mod Compatibility
pub mod Acyclic
use plaik.Prelude.{
  ℕ, zero, suc, String, Bool, true, false, ◌||◌, ◌&&◌, not, Option, none, some, List, [], ◌∷◌, ◌++◌,
  ◌==◌, string_eq, if◌then◌else◌, length,
}
use plaik.Prelude.Dict.{Dict, lookup, insert, values}
use plaik.Prelude.Items.{sort_items}
use plaik.Prelude.Results.{Result, ok, err, guard, ◌>>=◌, ◌>>◌}
use plaik.Prelude.Sets.{has, discard, each}
use plaik.Packages.Manifest.{
  PackageDependency, PackageConflict, ProvidedCapability, RequiredCapability, PackageManifest,
  version_matches,
}

-- `out_of_rounds` is not of the source: the search never returns it.
pub data ResolutionError : Type 0 where
  duplicate_package identity_mismatch incompatible_core conflicting_package missing_dependency :
      ResolutionError
  incompatible_dependency missing_capability dependency_cycle unknown_package out_of_rounds :
      ResolutionError

abbrev pub Packages : Type 0
Packages = Dict String PackageManifest

-- The keys of a dictionary.
abbrev pub keys : {V : Type 0} → Dict String V → List String
keys [] = []
keys ((k, v) ∷ m) = k ∷ keys m

-- `package_id in packages`
abbrev pub is_member : {V : Type 0} → String → Dict String V → Bool
is_member k m = elim (lookup k m) [ none ↦ false | some _ ↦ true ]

-- `{manifest.id: manifest for manifest in manifests}`, unless an id comes twice.
unfoldable pub collect : List PackageManifest → Packages → Result ResolutionError Packages
collect [] d = ok d
collect (m ∷ ms) d =
    if is_member m.id d then err duplicate_package else collect ms (insert m.id m d)

unfoldable pub check_identity : String × PackageManifest → Result ResolutionError (Unit {0})
check_identity (package_id, m) = guard (package_id == m.id) identity_mismatch

-- `{**installed, **candidates}`
unfoldable pub merge : Packages → Packages → Packages
merge installed [] = installed
merge installed ((k, m) ∷ candidates) = merge (insert k m installed) candidates

-- `provided.get(id, [])`
abbrev pub or_empty : {A : Type 0} → Option (List A) → List A
or_empty none = []
or_empty (some xs) = xs

unfoldable pub provide :
    String
    → List ProvidedCapability
    → Dict String (List (String × String))
    → Dict String (List (String × String))
provide owner [] d = d
provide owner (c ∷ cs) d =
    provide owner cs (insert c.id (or_empty (lookup c.id d) ++ ((owner, c.version) ∷ [])) d)

unfoldable pub provided :
    List PackageManifest
    → Dict String (List (String × String))
    → Dict String (List (String × String))
unfolding provide
provided [] d = d
provided (m ∷ ms) d = provided ms (provide m.id m.provides d)

-- The ids of a manifest's dependencies that are packages of the graph.
unfoldable pub targets : Packages → List PackageDependency → List String
targets all [] = []
targets all (d ∷ ds) =
    if is_member d.package_id all then d.package_id ∷ targets all ds else targets all ds

-- The variables that the search shares.
pub record Visit : Type 0 where
  pub visiting : List String
  pub visited : List String
  pub ordered : List PackageManifest

module _ (satisfies : String → String → Bool) where
  unfoldable pub any_matches : String → List (String × String) → Bool
  any_matches specifier [] = false
  any_matches specifier ((owner, version) ∷ ps) =
      version_matches satisfies version specifier || any_matches specifier ps

  unfoldable pub check_requirement :
      Dict String (List (String × String)) → RequiredCapability → Result ResolutionError (Unit {0})
  unfolding any_matches
  check_requirement capabilities r =
      guard (any_matches r.version (or_empty (lookup r.id capabilities)) || r.optional)
        missing_capability

  unfoldable pub resolve_capabilities : List PackageManifest → Result ResolutionError (Unit {0})
  unfolding check_requirement provided
  resolve_capabilities packages =
      each (λ m. each (check_requirement (provided packages [])) m.requires) packages

  unfoldable pub check_conflict : Packages → PackageConflict → Result ResolutionError (Unit {0})
  check_conflict all c = elim (lookup c.package_id all) [
    | none ↦ ok tt
    | some other ↦
        guard (not (version_matches satisfies other.version c.version)) conflicting_package
  ]

  unfoldable pub check_dependency : Packages → PackageDependency → Result ResolutionError (Unit {0})
  check_dependency all d = elim (lookup d.package_id all) [
    | none ↦ guard d.optional missing_dependency
    | some target ↦
        guard (version_matches satisfies target.version d.version) incompatible_dependency
  ]

  unfoldable pub check_package :
      String → Packages → PackageManifest → Result ResolutionError (Unit {0})
  unfolding check_conflict check_dependency
  check_package core_version all m = do
    guard (version_matches satisfies core_version m.core) incompatible_core
    each (check_conflict all) m.conflicts
    each (check_dependency all) m.dependencies

unfoldable pub visit_all :
    (String → Visit → Result ResolutionError Visit)
    → List String
    → Visit
    → Result ResolutionError Visit
visit_all v [] s = ok s
visit_all v (d ∷ ds) s = do t ← v d s; visit_all v ds t

module _ (all candidates : Packages) where
  unfoldable pub finish : String → Visit → Visit
  finish package_id s = record {
    visiting = discard package_id s.visiting;
    visited = package_id ∷ s.visited;
    ordered = elim (lookup package_id candidates) [
      | none ↦ s.ordered
      | some m ↦ s.ordered ++ (m ∷ [])
    ];
  }

  -- The body of `visit` after its guards, for the function that visits a dependency.
  unfoldable pub enter :
      (String → Visit → Result ResolutionError Visit)
      → String
      → Visit
      → Result ResolutionError Visit
  unfolding finish visit_all targets
  enter v package_id s = elim (lookup package_id all) [
    | none ↦ err unknown_package
    | some m ↦
        visit_all v (targets all m.dependencies) (record s { visiting = package_id ∷ s.visiting })
        >>= λ t. ok (finish package_id t)
  ]

  -- `visit`; the number bounds the depth of the search.
  unfoldable pub visit : ℕ → String → Visit → Result ResolutionError Visit
  unfolding enter
  visit zero package_id s = err out_of_rounds
  visit (suc rounds) package_id s =
      if has package_id s.visited
      then ok s
      else if has package_id s.visiting
      then err dependency_cycle
      else enter (visit rounds) package_id s

abbrev pub not_visited : Visit
not_visited = record { visiting = []; visited = []; ordered = [] }

-- The search from every candidate, by id.
unfoldable pub search_order : Packages → Packages → Result ResolutionError (List PackageManifest)
unfolding visit visit_all
search_order all candidates =
    visit_all (visit all candidates (suc (length all))) (keys (sort_items candidates)) not_visited
    >>= λ s. ok s.ordered

unfoldable pub resolve_install_order :
    (String → String → Bool)
    → List PackageManifest
    → String
    → Packages
    → Result ResolutionError (List PackageManifest)
unfolding collect check_identity merge check_package resolve_capabilities search_order
resolve_install_order satisfies manifests core_version installed = do
  candidates ← collect manifests []
  each check_identity installed
  let all = merge installed candidates
  each (check_package satisfies core_version all) (values all)
  resolve_capabilities satisfies (values all)
  search_order all candidates
