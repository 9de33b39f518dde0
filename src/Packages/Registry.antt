-- ===== src/Packages/Registry.antt =====
-- src/plaik_core/packages.py, `PackageRegistry`: the registry file and the operations on it.
pub mod Lookups
pub mod Together
pub mod Steps
pub mod Preservation
pub mod Protection
pub mod Enabling
use plaik.Prelude.{
  ℕ, String, Bool, true, false, ◌||◌, ◌&&◌, not, Option, none, some, List, [], ◌∷◌, ◌==◌, string_eq,
  if◌then◌else◌,
}
use plaik.Prelude.Dict.{Dict, lookup, insert, delete, values}
use plaik.Prelude.Items.{sort_items}
use plaik.Prelude.Results.{Result, ok, err, guard, ◌>>=◌, ◌>>◌, Method}
use plaik.Prelude.Sets.{has, each}
use plaik.Packages.Manifest.{PackageDependency, PackageManifest, version_matches}
use plaik.Packages.Dependencies.{
  ResolutionError, Packages, is_member, resolve_install_order, resolve_capabilities,
}

pub data PackageLifecycleError : Type 0 where
  invalid_registry invalid_identity reserved_id already_installed not_installed :
      PackageLifecycleError
  dependency_not_enabled incompatible_version enabled_dependents : PackageLifecycleError
  installed_dependents protected_package still_enabled : PackageLifecycleError
  unresolved missing_capabilities : ResolutionError → PackageLifecycleError

pub data PackageStatus : Type 0 where
  installed enabled disabled : PackageStatus

abbrev pub is_enabled : PackageStatus → Bool
is_enabled enabled = true
is_enabled installed = false
is_enabled disabled = false

pub record PackageRecord : Type 0 where
  pub manifest : PackageManifest
  pub status : PackageStatus

abbrev pub Records : Type 0
Records = Dict String PackageRecord

-- A record as it is stored: an old registry may have keys in its manifest that are dropped.
pub record StoredRecord : Type 0 where
  pub has_legacy_keys : Bool
  pub kept : PackageRecord

pub data RegistryFile : Type 0 where
  absent malformed : RegistryFile
  document : Dict String StoredRecord → RegistryFile

pub record PackageRegistry : Type 0 where
  pub core_version : String
  pub protected_ids : List String
  pub file : RegistryFile

-- `_legacy_record_payload`, over the records.
unfoldable pub cleaned : Dict String StoredRecord → Records
cleaned [] = []
cleaned ((k, s) ∷ d) = (k, s.kept) ∷ cleaned d

unfoldable pub check_record : String × PackageRecord → Result PackageLifecycleError (Unit {0})
check_record (k, r) = guard (k == r.manifest.id) invalid_identity

-- `_parse_registry_document`
unfoldable pub parse : RegistryFile → Result PackageLifecycleError Records
unfolding cleaned check_record
parse absent = ok []
parse malformed = err invalid_registry
parse (document d) = do each check_record (cleaned d); ok (cleaned d)

-- `_registry_payload_has_legacy_keys`
unfoldable pub any_legacy : Dict String StoredRecord → Bool
any_legacy [] = false
any_legacy ((k, s) ∷ d) = s.has_legacy_keys || any_legacy d

unfoldable pub has_legacy : RegistryFile → Bool
unfolding any_legacy
has_legacy absent = false
has_legacy malformed = false
has_legacy (document d) = any_legacy d

unfoldable pub stored : Records → Dict String StoredRecord
stored [] = []
stored ((k, r) ∷ m) = (k, record { has_legacy_keys = false; kept = r }) ∷ stored m

-- `_write` of `canonical_registry_document`
unfoldable pub write : Records → RegistryFile
unfolding stored
write m = document (stored (sort_items m))

-- What an operation does under the lock: its result, and the records that it writes, if it writes.
abbrev pub Change : Type 0 → Type 0
Change A = Result PackageLifecycleError (A × Option Records)

abbrev pub commit : {A : Type 0} → Change A → Method PackageLifecycleError PackageRegistry A
commit (err e) q = (err e, q)
commit (ok (a, none)) q = (ok a, q)
commit (ok (a, some m)) q = (ok a, record q { file = write m })

-- `with self._mutation_lock(): records = self.records(); ...`
unfoldable pub transact :
    {A : Type 0}
    → (PackageRegistry → Records → Change A)
    → Method PackageLifecycleError PackageRegistry A
unfolding parse write
transact body q = commit (parse q.file >>= body q) q

abbrev pub reserved_package_ids : List String
reserved_package_ids = "system-fallback" ∷ []

unfoldable pub any_reserved : List PackageManifest → Bool
any_reserved [] = false
any_reserved (m ∷ ms) = has m.id reserved_package_ids || any_reserved ms

unfoldable pub any_installed : Records → List PackageManifest → Bool
any_installed records [] = false
any_installed records (m ∷ ms) = is_member m.id records || any_installed records ms

unfoldable pub manifests_of : Records → Packages
manifests_of [] = []
manifests_of ((k, r) ∷ m) = (k, r.manifest) ∷ manifests_of m

abbrev pub new_record : PackageManifest → PackageRecord
new_record m = record { manifest = m; status = installed }

-- The loop over the resolved order: the records created, and all records.
unfoldable pub create : List PackageManifest → Records → List PackageRecord × Records
create [] records = ([], records)
create (m ∷ ms) records =
    let rest = create ms (insert m.id (new_record m) records) in (new_record m ∷ rest.0, rest.1)

abbrev pub as_unresolved : {A : Type 0} → Result ResolutionError A → Result PackageLifecycleError A
as_unresolved (ok a) = ok a
as_unresolved (err e) = err (unresolved e)

abbrev pub as_missing : {A : Type 0} → Result ResolutionError A → Result PackageLifecycleError A
as_missing (ok a) = ok a
as_missing (err e) = err (missing_capabilities e)

-- `_require`
unfoldable pub require : Records → String → Result PackageLifecycleError PackageRecord
require records k = elim (lookup k records) [ none ↦ err not_installed | some r ↦ ok r ]

-- The manifest needs the package.
unfoldable pub needs : String → List PackageDependency → Bool
needs k [] = false
needs k (d ∷ ds) = (d.package_id == k && not d.optional) || needs k ds

-- `_required_dependents`
unfoldable pub required_dependents : String → Bool → Records → List String
unfolding needs
required_dependents k enabled_only [] = []
required_dependents k enabled_only ((j, r) ∷ m) =
    let rest = required_dependents k enabled_only m in
    if enabled_only && not (is_enabled r.status)
    then rest
    else if needs k r.manifest.dependencies
    then j ∷ rest
    else rest

abbrev pub is_empty : List String → Bool
is_empty [] = true
is_empty (x ∷ xs) = false

-- `{other_id: other.manifest for ... if enabled or other_id == package_id}`
unfoldable pub enabled_with : String → Records → List PackageManifest
enabled_with k [] = []
enabled_with k ((j, r) ∷ m) =
    let rest = enabled_with k m in if is_enabled r.status || j == k then r.manifest ∷ rest else rest

-- `{other_id: other.manifest for ... if enabled and other_id != package_id}`
unfoldable pub enabled_without : String → Records → List PackageManifest
enabled_without k [] = []
enabled_without k ((j, r) ∷ m) =
    let rest = enabled_without k m in
    if is_enabled r.status && not (j == k) then r.manifest ∷ rest else rest

module _ (satisfies : String → String → Bool) where
  unfoldable pub install_change :
      List PackageManifest → PackageRegistry → Records → Change (List PackageRecord)
  unfolding any_reserved any_installed create manifests_of
  install_change manifests q records = do
    guard (not (any_reserved manifests)) reserved_id
    guard (not (any_installed records manifests)) already_installed
    order ←
        as_unresolved
          (resolve_install_order satisfies manifests q.core_version (manifests_of records))
    let r = create order records
    ok (r.0, some r.1)

  unfoldable pub check_enabled :
      Records → PackageDependency → Result PackageLifecycleError (Unit {0})
  check_enabled records d = if d.optional then ok tt else elim (lookup d.package_id records) [
    | none ↦ err dependency_not_enabled
    | some t ↦ do
      guard (is_enabled t.status) dependency_not_enabled
      guard (version_matches satisfies t.manifest.version d.version) incompatible_version
  ]

  unfoldable pub enable_change : String → PackageRegistry → Records → Change PackageRecord
  unfolding require check_enabled
  enable_change k q records = do
    r ← require records k
    each (check_enabled records) r.manifest.dependencies
    as_missing (resolve_capabilities satisfies (enabled_with k records))
    let updated = record r { status = enabled }
    ok (updated, some (insert k updated records))

  unfoldable pub disable_change : String → PackageRegistry → Records → Change PackageRecord
  unfolding require
  disable_change k q records = do
    r ← require records k
    guard (is_empty (required_dependents k true records)) enabled_dependents
    as_missing (resolve_capabilities satisfies (enabled_without k records))
    let updated = record r { status = disabled }
    ok (updated, some (insert k updated records))

unfoldable pub quarantine_change : String → PackageRegistry → Records → Change PackageRecord
unfolding require
quarantine_change k q records = do
  r ← require records k
  guard (not (has k q.protected_ids)) protected_package
  let updated = record r { status = disabled }
  ok (updated, some (insert k updated records))

unfoldable pub uninstall_change : String → PackageRegistry → Records → Change PackageRecord
unfolding require
uninstall_change k q records = do
  r ← require records k
  guard (not (has k q.protected_ids)) protected_package
  guard (not (is_enabled r.status)) still_enabled
  guard (is_empty (required_dependents k false records)) installed_dependents
  ok (r, some (delete k records))

unfoldable pub cleanup_change : PackageRegistry → Records → Change Bool
unfolding has_legacy
cleanup_change q records = if has_legacy q.file then ok (true, some records) else ok (false, none)

module _ (satisfies : String → String → Bool) where
  unfoldable pub install_many :
      List PackageManifest → Method PackageLifecycleError PackageRegistry (List PackageRecord)
  unfolding transact
  install_many manifests = transact (install_change satisfies manifests)

  unfoldable pub enable : String → Method PackageLifecycleError PackageRegistry PackageRecord
  unfolding transact
  enable k = transact (enable_change satisfies k)

  unfoldable pub disable : String → Method PackageLifecycleError PackageRegistry PackageRecord
  unfolding transact
  disable k = transact (disable_change satisfies k)

unfoldable pub quarantine : String → Method PackageLifecycleError PackageRegistry PackageRecord
unfolding transact
quarantine k = transact (quarantine_change k)

unfoldable pub uninstall : String → Method PackageLifecycleError PackageRegistry PackageRecord
unfolding transact
uninstall k = transact (uninstall_change k)

unfoldable pub persist_legacy_cleanup : Method PackageLifecycleError PackageRegistry Bool
unfolding transact
persist_legacy_cleanup = transact cleanup_change
