-- ===== src/Packages/Registry/Lookups.antt =====
-- src/plaik_core/packages.py: what the operations do to the record of an id.
use plaik.Prelude.{
  ◌≡◌, refl, ap, String, Bool, true, false, ◌||◌, ◌&&◌, not, Option, none, some, List, [], ◌∷◌,
  arith, ◌==◌, string_eq, eq_iff, All, inl, inr, Option-cases,
}
use plaik.Prelude.Dict.{lookup, insert, lookup-insert, Every, Every-insert}
use plaik.Prelude.Items.{sort_items}
use plaik.Prelude.Results.{ok}
use plaik.Prelude.Sets.{has, Unique, each}
use plaik.Packages.Manifest.{PackageDependency, PackageManifest}
use plaik.Packages.Dependencies.Precedence.{ids}
use plaik.Packages.Dependencies.Graph.{find}
use plaik.Packages.Dependencies.Resolution.{IsInstallOrder}
use plaik.Packages.Registry.{
  is_enabled, PackageRecord, Records, cleaned, check_record, stored, parse, write, manifests_of,
  new_record, create, any_installed, needs, required_dependents, is_empty,
}

abbrev pub manifest_of : Option PackageRecord → Option PackageManifest
manifest_of none = none
manifest_of (some r) = some r.manifest

abbrev pub created_or : Option PackageManifest → Option PackageRecord → Option PackageRecord
created_or none o = o
created_or (some m) o = some (new_record m)

pub lookup-manifests_of :
    (k : String) (m : Records) → lookup k (manifests_of m) ≡ manifest_of (lookup k m)
unfolding lookup manifests_of
lookup-manifests_of k [] = refl
lookup-manifests_of k ((j, r) ∷ m) = ground (arith, lookup-manifests_of k m)

pub find-none : (k : String) (ms : List PackageManifest) → has k (ids ms) ≡ false → find k ms ≡ none
unfolding find has
find-none k [] h = refl
find-none k (m ∷ ms) h = ground (arith, h, find-none k ms)

pub has-find :
    (k : String) (ms : List PackageManifest) (m : PackageManifest)
    → find k ms ≡ some m
    → has k (ids ms) ≡ true
unfolding find has
has-find k [] m h = absurd (ground arith)
has-find k (n ∷ ms) m h = ground (arith, h, has-find k ms m)

pub lookup-create :
    (ms : List PackageManifest) (records : Records) (k : String)
    → Unique (ids ms)
    → lookup k (create ms records).1 ≡ created_or (find k ms) (lookup k records)
unfolding create find
lookup-create [] records k u = refl
lookup-create (m ∷ ms) records k u = ground (
  arith,
  lookup-create ms (insert m.id (new_record m) records) k u.1,
  lookup-insert m.id k (new_record m) records,
  eq_iff m.id k,
  find-none m.id ms u.0,
)

find-requested :
    (manifests : List PackageManifest) (k : String) (ms : List PackageManifest)
    (m : PackageManifest)
    → All (λ n. find n.id manifests ≡ some n) ms
    → find k ms ≡ some m
    → find k manifests ≡ some m
unfolding find
find-requested manifests k [] m a h = absurd (ground arith)
find-requested manifests k (n ∷ ms) m a h =
    ground (arith, a.0, eq_iff n.id k, find-requested manifests k ms m a.1)

find-absent : (k : String) (ms : List PackageManifest) → find k ms ≡ none → has k (ids ms) ≡ false
unfolding find has
find-absent k [] h = refl
find-absent k (m ∷ ms) h = ground (arith, h, find-absent k ms)

pub find-order :
    (manifests order : List PackageManifest) (k : String)
    → IsInstallOrder manifests order
    → find k order ≡ find k manifests
find-order manifests order k i = elim (Option-cases (find k order)) [
  | inr (m, e) ↦ ground (arith, e, find-requested manifests k order m i.requested e)
  | inl e ↦ elim (Option-cases (find k manifests)) [
    | inl f ↦ ground (arith, e, f)
    | inr (m, f) ↦ absurd (ground (arith, i.complete k m f, find-absent k order e))
  ]
]

pub any_installed-find :
    (records : Records) (ms : List PackageManifest) (k : String) (m : PackageManifest)
    → any_installed records ms ≡ false
    → find k ms ≡ some m
    → lookup k records ≡ none
unfolding any_installed find
any_installed-find records [] k m h e = absurd (ground arith)
any_installed-find records (n ∷ ms) k m h e =
    ground (arith, h, e, eq_iff n.id k, any_installed-find records ms k m)

-- A record that is no required dependent needs the package at most as an option.
pub required_dependents-needs :
    (k : String) (enabled_only : Bool) (m : Records) (j : String) (r : PackageRecord)
    → is_empty (required_dependents k enabled_only m) ≡ true
    → lookup j m ≡ some r
    → (enabled_only && not (is_enabled r.status)) ≡ false
    → needs k r.manifest.dependencies ≡ false
unfolding required_dependents lookup
required_dependents-needs k enabled_only [] j r h e f = absurd (ground arith)
required_dependents-needs k enabled_only ((i, s) ∷ m) j r h e f =
    ground (arith, h, e, f, required_dependents-needs k enabled_only m j r)

pub needs-All :
    (k : String) (ds : List PackageDependency)
    → needs k ds ≡ false
    → All (λ d. (not (d.package_id == k) || d.optional) ≡ true) ds
unfolding needs
needs-All k [] h = tt
needs-All k (d ∷ ds) h = (ground (arith, h), needs-All k ds (ground (arith, h)))

-- Every record stands under its own id.
abbrev pub Keyed : String → PackageRecord → Type 0
Keyed k r = k ≡ r.manifest.id

pub check_record-Keyed : (m : Records) → each check_record m ≡ ok tt → Every Keyed m
unfolding each check_record
check_record-Keyed [] h = tt
check_record-Keyed ((k, r) ∷ m) h =
    (ground (arith, h, eq_iff k r.manifest.id), check_record-Keyed m (ground (arith, h)))

Keyed-check_record : (m : Records) → Every Keyed m → each check_record m ≡ ok tt
unfolding each check_record
Keyed-check_record [] h = refl
Keyed-check_record ((k, r) ∷ m) h =
    ground (arith, h.0, eq_iff k r.manifest.id, Keyed-check_record m h.1)

cleaned-stored : (m : Records) → cleaned (stored m) ≡ m
unfolding cleaned stored
cleaned-stored [] = refl
cleaned-stored ((k, r) ∷ m) = ap (λ (rest : Records). (k, r) ∷ rest) (cleaned-stored m)

-- What was written is read back, in the order of the ids.
pub parse-write : (m : Records) → Every Keyed (sort_items m) → parse (write m) ≡ ok (sort_items m)
unfolding parse write
parse-write m h = rw (cleaned-stored (sort_items m), Keyed-check_record (sort_items m) h)

pub create-Keyed :
    (ms : List PackageManifest) (records : Records)
    → Every Keyed records
    → Every Keyed (create ms records).1
unfolding create
create-Keyed [] records h = h
create-Keyed (m ∷ ms) records h =
    create-Keyed ms (insert m.id (new_record m) records)
      (Every-insert Keyed m.id (new_record m) records refl h)
