-- ===== src/Packages/Dependencies/Capabilities.antt =====
-- src/plaik_core/dependencies.py, `resolve_capabilities`: what the table of providers decides.
use plaik.Prelude.{
  ◌≡◌, refl, ◌↔◌, String, Bool, true, false, ◌||◌, ◌&&◌, List, [], ◌∷◌, ◌++◌, arith, ◌==◌,
  string_eq, eq_iff, All, All-weaken,
}
use plaik.Prelude.Dict.{Dict, lookup, insert, lookup-insert}
use plaik.Prelude.Results.{ok}
use plaik.Prelude.Sets.{each, All-each, each-ok}
use plaik.Packages.Manifest.{
  ProvidedCapability, RequiredCapability, PackageManifest, version_matches,
}
use plaik.Packages.Dependencies.{
  or_empty, provide, provided, any_matches, check_requirement, resolve_capabilities,
}

module _ (satisfies : String → String → Bool) where
  -- A capability of the list has the id and a version that matches.
  abbrev pub offers : String → String → List ProvidedCapability → Bool
  offers id specifier [] = false
  offers id specifier (c ∷ cs) =
      (c.id == id && version_matches satisfies c.version specifier) || offers id specifier cs

  -- A package of the list offers it.
  abbrev pub any_offers : String → String → List PackageManifest → Bool
  any_offers id specifier [] = false
  any_offers id specifier (m ∷ ms) = offers id specifier m.provides || any_offers id specifier ms

  -- Every capability that a package needs is offered by some package.
  abbrev pub IsCapable : List PackageManifest → Type 0
  IsCapable ms =
      All (λ m. All (λ r. (any_offers r.id r.version ms || r.optional) ≡ true) m.requires) ms

  any_matches-append :
      (specifier : String) (ps qs : List (String × String))
      → any_matches satisfies specifier (ps ++ qs)
        ≡ (any_matches satisfies specifier ps || any_matches satisfies specifier qs)
  unfolding any_matches
  any_matches-append specifier [] qs = refl
  any_matches-append specifier ((o, v) ∷ ps) qs = ground (arith, any_matches-append specifier ps qs)

  abbrev matches_in : String → String → Dict String (List (String × String)) → Bool
  matches_in id specifier d = any_matches satisfies specifier (or_empty (lookup id d))

  add-matches :
      (id specifier owner : String) (c : ProvidedCapability)
      (d : Dict String (List (String × String)))
      → matches_in id specifier
          (insert c.id (or_empty (lookup c.id d) ++ ((owner, c.version) ∷ [])) d)
        ≡ (matches_in id specifier d
            || (c.id == id && version_matches satisfies c.version specifier))
  unfolding any_matches
  add-matches id specifier owner c d = ground (
    arith,
    lookup-insert c.id id (or_empty (lookup c.id d) ++ ((owner, c.version) ∷ [])) d,
    any_matches-append specifier (or_empty (lookup c.id d)) ((owner, c.version) ∷ []),
    eq_iff c.id id,
  )

  provide-matches :
      (id specifier owner : String) (cs : List ProvidedCapability)
      (d : Dict String (List (String × String)))
      → matches_in id specifier (provide owner cs d)
        ≡ (matches_in id specifier d || offers id specifier cs)
  unfolding provide
  provide-matches id specifier owner [] d = ground arith
  provide-matches id specifier owner (c ∷ cs) d = ground (
    arith,
    provide-matches id specifier owner cs
        (insert c.id (or_empty (lookup c.id d) ++ ((owner, c.version) ∷ [])) d),
    add-matches id specifier owner c d,
  )

  provided-matches :
      (id specifier : String) (ms : List PackageManifest) (d : Dict String (List (String × String)))
      → matches_in id specifier (provided ms d)
        ≡ (matches_in id specifier d || any_offers id specifier ms)
  unfolding provided
  provided-matches id specifier [] d = ground arith
  provided-matches id specifier (m ∷ ms) d = ground (
    arith,
    provided-matches id specifier ms (provide m.id m.provides d),
    provide-matches id specifier m.id m.provides d,
  )

  check_requirement_iff :
      (ms : List PackageManifest) (r : RequiredCapability)
      → (check_requirement satisfies (provided ms []) r ≡ ok tt)
        ↔ ((any_offers r.id r.version ms || r.optional) ≡ true)
  unfolding check_requirement lookup any_matches
  check_requirement_iff ms r = ground (arith, provided-matches r.id r.version ms [])

  -- The capabilities resolve exactly when each one that a package requires, unless it is optional,
  -- is provided by some package in a version that matches.
  pub resolve_capabilities_iff :
      (ms : List PackageManifest) → (resolve_capabilities satisfies ms ≡ ok tt) ↔ IsCapable ms
  unfolding resolve_capabilities
  resolve_capabilities_iff ms =
      let check = check_requirement satisfies (provided ms []) in
      (
        λ h.
            All-weaken (λ m. each check m.requires ≡ ok tt)
              (λ m. All (λ r. (any_offers r.id r.version ms || r.optional) ≡ true) m.requires)
              (λ m e.
                All-weaken (λ r. check r ≡ ok tt)
                  (λ r. (any_offers r.id r.version ms || r.optional) ≡ true)
                  (λ r f. (check_requirement_iff ms r).0 f) m.requires
                  (All-each check m.requires e))
              ms (All-each (λ m. each check m.requires) ms h),
        λ h.
            each-ok (λ m. each check m.requires) ms
              (All-weaken
                (λ m. All (λ r. (any_offers r.id r.version ms || r.optional) ≡ true) m.requires)
                (λ m. each check m.requires ≡ ok tt)
                (λ m a. each-ok check m.requires (
                  All-weaken (λ r. (any_offers r.id r.version ms || r.optional) ≡ true)
                    (λ r. check r ≡ ok tt) (λ r f. (check_requirement_iff ms r).1 f) m.requires a))
                ms h),
      )
