-- ===== src/Packages/Dependencies/Graph.antt =====
-- src/plaik_core/dependencies.py: the graph that an installation would leave, by its lookups.
use plaik.Prelude.{
  ◌≡◌, refl, subst, String, Bool, true, false, Option, none, some, List, [], ◌∷◌, arith, ◌==◌,
  string_eq, eq_iff, if◌then◌else◌, Bool-cases, inl, inr,
}
use plaik.Prelude.Dict.{lookup, insert, Distinct, lookup-insert, Distinct-insert}
use plaik.Prelude.Results.{ok, err}
use plaik.Packages.Manifest.{PackageManifest}
use plaik.Packages.Dependencies.{
  ResolutionError, duplicate_package, Packages, is_member, collect, merge,
}

-- The manifest of an id among those requested.
unfoldable pub find : String → List PackageManifest → Option PackageManifest
find k [] = none
find k (m ∷ ms) = if m.id == k then some m else find k ms

abbrev pub is_found : String → List PackageManifest → Bool
is_found k ms = elim (find k ms) [ none ↦ false | some _ ↦ true ]

-- The first that is there.
abbrev pub or_else : {A : Type 0} → Option A → Option A → Option A
or_else (some a) o = some a
or_else none o = o

pub find-id :
    (k : String) (ms : List PackageManifest) (m : PackageManifest) → find k ms ≡ some m → m.id ≡ k
unfolding find
find-id k [] m h = absurd (ground arith)
find-id k (n ∷ ms) m h = ground (arith, eq_iff n.id k, find-id k ms m)

pub collect-lookup :
    (ms : List PackageManifest) (d c : Packages) (k : String)
    → collect ms d ≡ ok c
    → lookup k c ≡ or_else (lookup k d) (find k ms)
unfolding collect find
collect-lookup [] d c k h = ground (arith, h)
collect-lookup (m ∷ ms) d c k h =
    ground
      (arith, h, collect-lookup ms (insert m.id m d) c k, lookup-insert m.id k m d, eq_iff m.id k)

pub collect-Distinct :
    (ms : List PackageManifest) (d c : Packages) → collect ms d ≡ ok c → Distinct d → Distinct c
unfolding collect
collect-Distinct [] d c h k = subst Distinct (ground arith) k
collect-Distinct (m ∷ ms) d c h k = elim (Bool-cases (is_member m.id d)) [
  | inl p ↦ absurd (ground (arith, p, h))
  | inr p ↦
      collect-Distinct ms (insert m.id m d) c (ground (arith, p, h)) (Distinct-insert m.id m d k)
]

pub collect-err :
    (ms : List PackageManifest) (d : Packages) (x : ResolutionError)
    → collect ms d ≡ err x
    → x ≡ duplicate_package
unfolding collect
collect-err [] d x h = absurd (ground arith)
collect-err (m ∷ ms) d x h = ground (arith, h, collect-err ms (insert m.id m d) x)

pub merge-lookup :
    (installed candidates : Packages) (k : String)
    → Distinct candidates
    → lookup k (merge installed candidates) ≡ or_else (lookup k candidates) (lookup k installed)
unfolding merge lookup
merge-lookup installed [] k h = refl
merge-lookup installed ((j, m) ∷ c) k h = ground (
  arith,
  merge-lookup (insert j m installed) c k h.1,
  lookup-insert j k m installed,
  eq_iff j k,
  h.0,
)
