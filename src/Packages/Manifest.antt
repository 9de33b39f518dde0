-- ===== src/Packages/Manifest.antt =====
-- What src/plaik_core/dependencies.py reads of a `PackageManifest`, a type of another package. The
-- comparison of versions is the `packaging` library's: the parameter `satisfies`.
use plaik.Prelude.{String, Bool, List, ◌||◌, ◌==◌, string_eq}

pub record PackageDependency : Type 0 where
  pub package_id : String
  pub version : String
  pub optional : Bool

pub record PackageConflict : Type 0 where
  pub package_id : String
  pub version : String

pub record ProvidedCapability : Type 0 where
  pub id : String
  pub version : String

pub record RequiredCapability : Type 0 where
  pub id : String
  pub version : String
  pub optional : Bool

pub record PackageManifest : Type 0 where
  pub id : String
  pub version : String
  pub core : String
  pub conflicts : List PackageConflict
  pub dependencies : List PackageDependency
  pub provides : List ProvidedCapability
  pub requires : List RequiredCapability

unfoldable pub version_matches : (String → String → Bool) → String → String → Bool
version_matches satisfies version specifier = specifier == "*" || satisfies version specifier
