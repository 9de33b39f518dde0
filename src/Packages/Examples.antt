-- ===== src/Packages/Examples.antt =====
-- src/plaik_core/dependencies.py and packages.py: a theme that needs a module, and the theorems there.
use plaik.Prelude.{
  ℕ, ◌≡◌, ◌≢◌, ◌↔◌, ◌<◌, refl, sym, subst, String, Bool, true, false, some, List, [], ◌∷◌, arith,
  ◌==◌, string_eq, if◌then◌else◌, All,
}
use plaik.Prelude.Dict.{lookup, insert, Every-lookup}
use plaik.Prelude.Items.{sort_items}
use plaik.Prelude.Text.{codes_lt}
use plaik.Prelude.Results.{ok, err}
use plaik.Prelude.Sets.{has, discard, each}
use plaik.Packages.Manifest.{PackageManifest, version_matches}
use plaik.Packages.Dependencies.{
  out_of_rounds, dependency_cycle, is_member, Packages, collect, check_identity, merge,
  check_package, check_requirement, resolve_capabilities, provide, provided, any_matches, targets,
  visit, visit_all, enter, finish, search_order, resolve_install_order,
}
use plaik.Packages.Dependencies.Acyclic.{FallsAlong}
use plaik.Packages.Dependencies.Resolution.{IsInstallOrder, resolve_install_order-IsInstallOrder}
use plaik.Packages.Dependencies.Termination.{
  resolve_install_order-terminates, resolve_install_order-returns,
}
use plaik.Packages.Dependencies.Capabilities.{IsCapable, resolve_capabilities_iff}
use plaik.Packages.Dependencies.Compatibility.{IsCompatible, resolve_install_order-IsCompatible}
use plaik.Packages.Dependencies.Graph.{find, or_else}
use plaik.Packages.Registry.{
  PackageRegistry, absent, Records, enabled, parse, document, cleaned, check_record,
}
use plaik.Packages.Registry.Together.{manifest_at, Together, Together-empty}
use plaik.Packages.Registry.Preservation.{FitsTogether, after_all-FitsTogether}
use plaik.Packages.Registry.Protection.{after_all-protected}
use plaik.Packages.Registry.Enabling.{EnabledHolds, after_all-EnabledHolds}
use plaik.Packages.Registry.Steps.{
  Operation, install_op, enable_op, disable_op, uninstall_op, quarantine_op, after_all,
}

abbrev same_version : String → String → Bool
same_version v s = v == s

abbrev catalog : PackageManifest
catalog = record {
  id = "catalog";
  version = "1.0";
  core = "*";
  conflicts = [];
  dependencies = [];
  provides = record { id = "search"; version = "2" } ∷ [];
  requires = [];
}

-- It comes before `catalog` by id, and depends on it.
abbrev brand : PackageManifest
brand = record {
  id = "brand";
  version = "3.1";
  core = "*";
  conflicts = [];
  dependencies = record { package_id = "catalog"; version = "1.0"; optional = false } ∷ [];
  provides = [];
  requires = record { id = "search"; version = "2"; optional = false } ∷ [];
}

abbrev requested : List PackageManifest
requested = brand ∷ catalog ∷ []

resolves : resolve_install_order same_version requested "2.0" [] ≡ ok (catalog ∷ brand ∷ [])
unfolding resolve_install_order collect check_identity merge check_package resolve_capabilities
    provided provide search_order visit visit_all enter finish targets lookup insert sort_items each
    has discard version_matches codes_lt
resolves = refl

-- A dependency on itself is a cycle.
abbrev knot : PackageManifest
knot = record brand {
  id = "knot";
  dependencies = record { package_id = "knot"; version = "*"; optional = true } ∷ [];
  requires = [];
}

knot_is_refused : resolve_install_order same_version (knot ∷ []) "2.0" [] ≡ err dependency_cycle
unfolding resolve_install_order collect check_identity merge check_package resolve_capabilities
    provided provide search_order visit visit_all enter finish targets lookup insert sort_items each
    has discard version_matches
knot_is_refused = refl

resolve_install_order-IsInstallOrder_example : IsInstallOrder requested (catalog ∷ brand ∷ [])
resolve_install_order-IsInstallOrder_example =
    resolve_install_order-IsInstallOrder same_version "2.0" requested [] (catalog ∷ brand ∷ [])
      resolves

resolve_install_order-terminates_example :
    resolve_install_order same_version (knot ∷ []) "2.0" [] ≢ err out_of_rounds
resolve_install_order-terminates_example =
    resolve_install_order-terminates same_version "2.0" (knot ∷ []) []

resolve_install_order-IsCompatible_example :
    IsCompatible same_version "2.0" (λ j. or_else (find j requested) (lookup j [])) brand
unfolding find
resolve_install_order-IsCompatible_example =
    resolve_install_order-IsCompatible same_version "2.0" requested [] (catalog ∷ brand ∷ [])
      "brand" brand resolves refl

resolve_capabilities_iff_example :
    (resolve_capabilities same_version requested ≡ ok tt) ↔ IsCapable same_version requested
resolve_capabilities_iff_example = resolve_capabilities_iff same_version requested

abbrev candidates : Packages
candidates = ("brand", brand) ∷ ("catalog", catalog) ∷ []

abbrev rank : String → ℕ
rank k = if k == "brand" then 1 else 0

candidates-FallsAlong : FallsAlong rank (merge [] candidates)
unfolding merge insert lookup targets
candidates-FallsAlong k m e =
    Every-lookup
      (λ k m.
        All (λ d. (is_member d (merge [] candidates) ≡ true) × (rank d < rank k))
          (targets (merge [] candidates) m.dependencies))
      k (merge [] candidates) (((refl, omega arith), tt), (tt, tt)) e

resolve_install_order-returns_example :
    (order : List PackageManifest) × (resolve_install_order same_version requested "2.0" []
      ≡ ok order)
unfolding collect check_identity each merge insert lookup check_package version_matches
    resolve_capabilities provided provide check_requirement any_matches
resolve_install_order-returns_example =
    resolve_install_order-returns same_version "2.0" requested [] candidates rank refl refl refl
      refl candidates-FallsAlong

abbrev fresh_registry : PackageRegistry
fresh_registry = record { core_version = "2.0"; protected_ids = "catalog" ∷ []; file = absent }

nothing_listed : (m : Records) → parse fresh_registry.file ≡ ok m → [] ≡ m
unfolding parse
nothing_listed m e = ground (arith, e)

fresh_registry-FitsTogether : FitsTogether same_version fresh_registry
unfolding lookup
fresh_registry-FitsTogether m e =
    subst (λ (x : Records). Together same_version "2.0" (manifest_at x)) (nothing_listed m e)
      (Together-empty same_version "2.0")

abbrev calls : List Operation
calls =
    install_op requested
    ∷ enable_op "brand"
    ∷ enable_op "catalog"
    ∷ enable_op "brand"
    ∷ uninstall_op "catalog"
    ∷ disable_op "catalog"
    ∷ []

after_all-FitsTogether_example :
    FitsTogether same_version (after_all same_version calls fresh_registry)
after_all-FitsTogether_example =
    after_all-FitsTogether same_version calls fresh_registry fresh_registry-FitsTogether

fresh_registry-EnabledHolds : EnabledHolds fresh_registry
unfolding lookup
fresh_registry-EnabledHolds = record {
  met = λ m e k r f.
      absurd
        (ground (arith, subst (λ (x : Records). lookup k x ≡ some r) (sym (nothing_listed m e)) f));
}

after_all-EnabledHolds_example : EnabledHolds (after_all same_version calls fresh_registry)
after_all-EnabledHolds_example =
    after_all-EnabledHolds same_version calls fresh_registry
      (refl, (refl, (refl, (refl, (refl, (refl, tt)))))) fresh_registry-EnabledHolds

abbrev listed : Records
listed = ("catalog", record { manifest = catalog; status = enabled }) ∷ []

abbrev listed_registry : PackageRegistry
listed_registry = record {
  core_version = "2.0";
  protected_ids = "catalog" ∷ [];
  file = document (
      (
        "catalog",
        record { has_legacy_keys = true; kept = record { manifest = catalog; status = enabled } },
      )
      ∷ []);
}

after_all-protected_example :
    (m : Records) × (parse
        (after_all same_version (quarantine_op "catalog" ∷ calls) listed_registry).file
      ≡ ok m)
    × (manifest_at m "catalog" ≡ some catalog)
unfolding parse cleaned each check_record has lookup
after_all-protected_example =
    after_all-protected same_version (quarantine_op "catalog" ∷ calls) listed_registry listed
      "catalog" catalog refl refl refl
