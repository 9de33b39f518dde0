-- ===== src/Packages/Dependencies/Acyclic.antt =====
-- src/plaik_core/dependencies.py, `visit`: on a graph without cycles the search returns.
use plaik.Prelude.{
  ℕ, zero, suc, ◌≤◌, ◌<◌, ◌≡◌, refl, ap, String, true, some, List, [], ◌∷◌, arith, string_eq,
  eq_iff, All, Bool-cases, Option-cases, inl, inr,
}
use plaik.Prelude.Dict.{lookup}
use plaik.Prelude.Results.{Result, ok}
use plaik.Prelude.Sets.{has}
use plaik.Packages.Manifest.{PackageManifest}
use plaik.Packages.Dependencies.{
  ResolutionError, Packages, keys, is_member, targets, Visit, visit_all, finish, enter, visit,
}
use plaik.Packages.Dependencies.Search.{Sound, enter-Sound}
use plaik.Packages.Dependencies.Order.{Visits, visit-Progress}
use plaik.Packages.Dependencies.Bound.{remaining, remaining-lt, has-keys}

-- A rank that falls along every dependency: the graph has no cycle.
abbrev pub FallsAlong : (String → ℕ) → Packages → Type 0
FallsAlong rank all =
    (k : String) (m : PackageManifest)
    → lookup k all ≡ some m
    → All (λ d. (is_member d all ≡ true) × (rank d < rank k)) (targets all m.dependencies)

module _ (candidates all : Packages)
    (agrees : (k : String) (m : PackageManifest)
      → lookup k candidates ≡ some m
      → (lookup k all ≡ some m) × (m.id ≡ k))
    (rank : String → ℕ) where
  -- Where the packages that are visited above rank higher, a visit of a package returns.
  abbrev pub Returns : ℕ → (String → Visit → Result ResolutionError Visit) → Type 0
  Returns n v =
      (id : String) (s : Visit)
      → Sound candidates s
      → remaining s.visiting (keys all) < n
      → is_member id all ≡ true
      → ((y : String) → has y s.visiting ≡ true → rank id < rank y)
      → (t : Visit) × (v id s ≡ ok t)

  pub visit_all-Returns :
      (n bound : ℕ) (v : String → Visit → Result ResolutionError Visit)
      → Visits candidates all agrees v
      → Returns n v
      → (ids : List String) (s : Visit) → Sound candidates s
      → remaining s.visiting (keys all) < n
      → All (λ d. (is_member d all ≡ true) × (rank d < bound)) ids
      → ((y : String) → has y s.visiting ≡ true → bound ≤ rank y)
      → (t : Visit) × (visit_all v ids s ≡ ok t)
  unfolding visit_all
  visit_all-Returns n bound v visits returns [] s k b r a = (s, refl)
  visit_all-Returns n bound v visits returns (d ∷ ds) s k b r a =
      let (u, e) = returns d s k b r.0.0 (λ y p. omega (arith, a y p, r.0.1)) in
      let (p, seen) = visits d s u e k in
      let (t, f) =
        visit_all-Returns n bound v visits returns ds u p.sound
          (ground (arith, ap (λ vs. remaining vs (keys all)) p.same, b)) r.1
          (λ y q. a y (ground (arith, ap (has y) p.same, q))) in
      (t, rw e f)

  pub visit-Returns :
      FallsAlong rank all → (rounds : ℕ) → Returns rounds (visit all candidates rounds)
  unfolding visit enter has
  visit-Returns falls zero id s k b i a = absurd (omega arith)
  visit-Returns falls (suc rounds) id s k b i a = elim (Bool-cases (has id s.visited)) [
    | inl old ↦ (s, ground (arith, old))
    | inr new ↦ elim (Bool-cases (has id s.visiting)) [
      | inl cycle ↦ absurd (omega (arith, a id cycle))
      | inr fresh ↦ elim (Option-cases (lookup id all)) [
        | inl e ↦ absurd (ground (arith, e, i))
        | inr (m, e) ↦
            let s' = record s { visiting = id ∷ s.visiting } in
            let smaller = remaining-lt id s.visiting (keys all) fresh (has-keys id all m e) in
            let (u, f) =
              visit_all-Returns rounds (rank id) (visit all candidates rounds)
                (visit-Progress candidates all agrees rounds) (visit-Returns falls rounds)
                (targets all m.dependencies) s' (enter-Sound candidates id s new k)
                (omega (arith, smaller, b)) (falls id m e)
                (λ y p. ground (arith, p, a y, eq_iff id y)) in
            (finish all candidates id u, ground (arith, new, fresh, e, f))
      ]
    ]
  ]
