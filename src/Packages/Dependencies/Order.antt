-- ===== src/Packages/Dependencies/Order.antt =====
-- src/plaik_core/dependencies.py, `visit`: the order that the search builds.
use plaik.Prelude.{
  ℕ, zero, suc, ◌≡◌, refl, ap, subst, ◌∙◌, String, true, false, some, List, [], ◌∷◌, arith,
  string_eq, eq_iff, All, Bool-cases, Option-cases, inl, inr,
}
use plaik.Prelude.Dict.{lookup}
use plaik.Prelude.Results.{Result, ok, Result-cases}
use plaik.Prelude.Sets.{has}
use plaik.Packages.Manifest.{PackageManifest}
use plaik.Packages.Dependencies.{
  ResolutionError, Packages, targets, Visit, visit_all, finish, enter, visit,
}
use plaik.Packages.Dependencies.Search.{Sound, Progress, enter-Sound, finish-Progress}

module _ (candidates all : Packages)
    (agrees : (k : String) (m : PackageManifest)
      → lookup k candidates ≡ some m
      → (lookup k all ≡ some m) × (m.id ≡ k)) where
  -- A visit that returns has kept the state sound and visited the package.
  abbrev pub Visits : (String → Visit → Result ResolutionError Visit) → Type 0
  Visits v =
      (id : String) (s t : Visit)
      → v id s ≡ ok t
      → Sound candidates s
      → Progress candidates s t × (has id t.visited ≡ true)

  Progress-trans :
      (s t u : Visit) → Progress candidates s t → Progress candidates t u → Progress candidates s u
  Progress-trans s t u p q = record {
    sound = q.sound;
    same = q.same ∙ p.same;
    more = λ d h. q.more d (p.more d h);
  }

  pub visit_all-Progress :
      (v : String → Visit → Result ResolutionError Visit)
      → Visits v
      → (ids : List String) (s t : Visit) → visit_all v ids s ≡ ok t
      → Sound candidates s
      → Progress candidates s t × All (λ d. has d t.visited ≡ true) ids
  unfolding visit_all
  visit_all-Progress v visits [] s t h k =
      let e : s ≡ t = ground arith in
      (subst (Progress candidates s) e (record { sound = k; same = refl; more = λ d p. p }), tt)
  visit_all-Progress v visits (d ∷ ds) s t h k = elim (Result-cases (v d s)) [
    | inr (x, e) ↦ absurd (ground (arith, e, h))
    | inl (u, e) ↦
        let (p, seen) = visits d s u e k in
        let (q, rest) = visit_all-Progress v visits ds u t (ground (arith, e, h)) p.sound in
        (Progress-trans s u t p q, (q.more d seen, rest))
  ]

  finish-has : (id : String) (u : Visit) → has id (finish all candidates id u).visited ≡ true
  unfolding finish has
  finish-has id u = ground (arith, eq_iff id id)

  enter-Progress :
      (v : String → Visit → Result ResolutionError Visit)
      → Visits v
      → (id : String) (s t : Visit) → enter all candidates v id s ≡ ok t
      → has id s.visited ≡ false
      → has id s.visiting ≡ false
      → Sound candidates s
      → Progress candidates s t × (has id t.visited ≡ true)
  unfolding enter
  enter-Progress v visits id s t h new fresh k = elim (Option-cases (lookup id all)) [
    | inl e ↦ absurd (ground (arith, e, h))
    | inr (m, e) ↦
        let s' = record s { visiting = id ∷ s.visiting } in
        elim (Result-cases (visit_all v (targets all m.dependencies) s')) [
          | inr (x, f) ↦ absurd (ground (arith, e, f, h))
          | inl (u, f) ↦
              let (p, seen) =
                visit_all-Progress v visits (targets all m.dependencies) s' u f
                  (enter-Sound candidates id s new k) in
              let g : finish all candidates id u ≡ t = ground (arith, e, f, h) in
              (
                subst (Progress candidates s) g
                    (finish-Progress candidates all agrees id s u fresh p m e seen),
                subst (λ (x : Visit). has id x.visited ≡ true) g (finish-has id u),
              )
        ]
  ]

  pub visit-Progress : (rounds : ℕ) → Visits (visit all candidates rounds)
  unfolding visit
  visit-Progress zero id s t h k = absurd (ground arith)
  visit-Progress (suc rounds) id s t h k = elim (Bool-cases (has id s.visited)) [
    | inl old ↦
        let e : s ≡ t = ground (arith, old, h) in
        (
          subst (Progress candidates s) e (record { sound = k; same = refl; more = λ d p. p }),
          ground (arith, old, ap (λ (x : Visit). has id x.visited) e),
        )
    | inr new ↦ elim (Bool-cases (has id s.visiting)) [
      | inl cycle ↦ absurd (ground (arith, new, cycle, h))
      | inr fresh ↦
          enter-Progress (visit all candidates rounds) (visit-Progress rounds) id s t
            (ground (arith, new, fresh, h)) new fresh k
    ]
  ]
