-- ===== src/Packages/Dependencies/Precedence.antt =====
-- An order of packages in which dependencies come first.
use plaik.Prelude.{
  ◌≡◌, refl, String, Bool, true, ◌||◌, List, [], ◌∷◌, ◌++◌, arith, string_eq, All, All-weaken,
}
use plaik.Prelude.Sets.{has}
use plaik.Packages.Manifest.{PackageManifest}

abbrev pub ids : List PackageManifest → List String
ids [] = []
ids (m ∷ ms) = m.id ∷ ids ms

pub ids-snoc :
    (ms : List PackageManifest) (m : PackageManifest) → ids (ms ++ (m ∷ [])) ≡ ids ms ++ (m.id ∷ [])
ids-snoc [] m = refl
ids-snoc (n ∷ ms) m = rw (ids-snoc ms m)

-- Every dependency that is chosen is among the ids seen.
abbrev pub DepsSeen : (String → Bool) → List String → PackageManifest → Type 0
DepsSeen chosen seen m =
    All (λ d. chosen d.package_id ≡ true → has d.package_id seen ≡ true) m.dependencies

-- Every chosen package that a manifest depends on comes before it.
abbrev pub DepsFirst : (String → Bool) → List String → List PackageManifest → Type 0
DepsFirst chosen seen [] = Unit
DepsFirst chosen seen (m ∷ ms) = DepsSeen chosen seen m × DepsFirst chosen (m.id ∷ seen) ms

module _ (chosen : String → Bool) where
  -- More ids are seen than before.
  DepsSeen-more :
      (seen more : List String) (m : PackageManifest)
      → ((d : String) → has d seen ≡ true → has d more ≡ true)
      → DepsSeen chosen seen m
      → DepsSeen chosen more m
  DepsSeen-more seen more m w h =
      All-weaken (λ d. chosen d.package_id ≡ true → has d.package_id seen ≡ true)
        (λ d. chosen d.package_id ≡ true → has d.package_id more ≡ true)
        (λ d f c. w d.package_id (f c)) m.dependencies h

  pub DepsFirst-snoc :
      (seen all_seen : List String) (ms : List PackageManifest) (m : PackageManifest)
      → ((d : String) → has d all_seen ≡ true → (has d seen || has d (ids ms)) ≡ true)
      → DepsFirst chosen seen ms
      → DepsSeen chosen all_seen m
      → DepsFirst chosen seen (ms ++ (m ∷ []))
  unfolding has
  DepsFirst-snoc seen all_seen [] m w h k =
      (DepsSeen-more all_seen seen m (λ d p. ground (arith, w d p)) k, tt)
  DepsFirst-snoc seen all_seen (n ∷ ms) m w h k =
      (h.0, DepsFirst-snoc (n.id ∷ seen) all_seen ms m (λ d p. ground (arith, w d p)) h.1 k)

  -- With fewer packages chosen, less is asked.
  pub DepsFirst-fewer :
      (fewer : String → Bool)
      → ((d : String) → fewer d ≡ true → chosen d ≡ true)
      → (seen : List String) (ms : List PackageManifest) → DepsFirst chosen seen ms
      → DepsFirst fewer seen ms
  DepsFirst-fewer fewer w seen [] h = tt
  DepsFirst-fewer fewer w seen (m ∷ ms) h = (
    All-weaken (λ d. chosen d.package_id ≡ true → has d.package_id seen ≡ true)
        (λ d. fewer d.package_id ≡ true → has d.package_id seen ≡ true)
        (λ d f c. f (w d.package_id c)) m.dependencies h.0,
    DepsFirst-fewer fewer w (m.id ∷ seen) ms h.1,
  )
