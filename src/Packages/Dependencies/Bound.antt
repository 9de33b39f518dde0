-- ===== src/Packages/Dependencies/Bound.antt =====
-- src/plaik_core/dependencies.py, `visit`: the search ends, and an acyclic graph has no cycle error.
use plaik.Prelude.{
  ℕ, zero, suc, ◌+◌, ◌≤◌, ◌<◌, ◌≡◌, ◌≢◌, ap, String, true, false, not, some, List, [], ◌∷◌, arith,
  ◌==◌, string_eq, eq_iff, length, keep, length-keep-le, Bool-cases, Option-cases, inl, inr,
}
use plaik.Prelude.Dict.{lookup}
use plaik.Prelude.Results.{Result, err, Result-cases}
use plaik.Prelude.Sets.{has}
use plaik.Packages.Manifest.{PackageManifest}
use plaik.Packages.Dependencies.{
  ResolutionError, out_of_rounds, Packages, keys, is_member, targets, Visit, visit_all, enter,
  visit,
}
use plaik.Packages.Dependencies.Search.{Sound, enter-Sound}
use plaik.Packages.Dependencies.Order.{Visits, visit-Progress}

-- The keys outside of a set, counted.
pub remaining : List String → List String → ℕ
remaining visiting ks = length (keep (λ k. not (has k visiting)) ks)

remaining-le :
    (id : String) (visiting ks : List String) → remaining (id ∷ visiting) ks ≤ remaining visiting ks
unfolding remaining keep has
remaining-le id visiting [] = omega arith
remaining-le id visiting (k ∷ ks) = ground (arith, remaining-le id visiting ks)

pub remaining-lt :
    (id : String) (visiting ks : List String)
    → has id visiting ≡ false
    → has id ks ≡ true
    → remaining (id ∷ visiting) ks < remaining visiting ks
unfolding remaining keep has
remaining-lt id visiting [] h k = absurd (ground arith)
remaining-lt id visiting (y ∷ ks) h k = ground (
  arith,
  h,
  k,
  eq_iff id y,
  eq_iff y id,
  remaining-le id visiting ks,
  remaining-lt id visiting ks,
)

pub remaining-nothing : (ks : List String) → remaining [] ks ≤ length ks
unfolding remaining
remaining-nothing ks = length-keep-le (λ k. not (has k [])) ks

pub has-keys :
    {V : Type 0} (id : String) (d : List (String × V)) (v : V)
    → lookup id d ≡ some v
    → has id (keys d) ≡ true
unfolding lookup has
has-keys id [] v h = absurd (ground arith)
has-keys id ((k, w) ∷ d) v h = ground (arith, h, has-keys id d v)

pub is_member-of_has :
    {V : Type 0} (id : String) (d : List (String × V))
    → has id (keys d) ≡ true
    → is_member id d ≡ true
unfolding lookup has
is_member-of_has id [] h = absurd (ground arith)
is_member-of_has id ((k, w) ∷ d) h = ground (arith, h, is_member-of_has id d)

-- A number above the ranks of a list.
pub rank_bound : (String → ℕ) → List String → ℕ
rank_bound rank [] = 0
rank_bound rank (k ∷ ks) = suc (rank k) + rank_bound rank ks

pub rank_bound-above :
    (rank : String → ℕ) (ks : List String) (d : String)
    → has d ks ≡ true
    → rank d < rank_bound rank ks
unfolding rank_bound has
rank_bound-above rank [] d h = absurd (ground arith)
rank_bound-above rank (k ∷ ks) d h = elim (Bool-cases (k == d)) [
  | inl p ↦ let e : rank k ≡ rank d = ap rank ((eq_iff k d).0 p) in omega (arith, e)
  | inr p ↦ omega (arith, rank_bound-above rank ks d (ground (arith, p, h)))
]

module _ (candidates all : Packages)
    (agrees : (k : String) (m : PackageManifest)
      → lookup k candidates ≡ some m
      → (lookup k all ≡ some m) × (m.id ≡ k)) where
  -- With the bound below `n`, a visit does not run out.
  abbrev pub Lasts : ℕ → (String → Visit → Result ResolutionError Visit) → Type 0
  Lasts n v =
      (id : String) (s : Visit)
      → Sound candidates s
      → remaining s.visiting (keys all) < n
      → v id s ≢ err out_of_rounds

  pub visit_all-Lasts :
      (n : ℕ) (v : String → Visit → Result ResolutionError Visit)
      → Visits candidates all agrees v
      → Lasts n v
      → (ids : List String) (s : Visit) → Sound candidates s
      → remaining s.visiting (keys all) < n
      → visit_all v ids s ≢ err out_of_rounds
  unfolding visit_all
  visit_all-Lasts n v visits lasts [] s k b h = ground arith
  visit_all-Lasts n v visits lasts (d ∷ ds) s k b h = elim (Result-cases (v d s)) [
    | inr (x, e) ↦ ground (arith, e, h, lasts d s k b)
    | inl (u, e) ↦
        let (p, seen) = visits d s u e k in
        visit_all-Lasts n v visits lasts ds u p.sound
          (ground (arith, ap (λ vs. remaining vs (keys all)) p.same, b)) (ground (arith, e, h))
  ]

  pub visit-Lasts : (rounds : ℕ) → Lasts rounds (visit all candidates rounds)
  unfolding visit enter
  visit-Lasts zero id s k b h = absurd (omega arith)
  visit-Lasts (suc rounds) id s k b h = elim (Bool-cases (has id s.visited)) [
    | inl old ↦ ground (arith, old, h)
    | inr new ↦ elim (Bool-cases (has id s.visiting)) [
      | inl cycle ↦ ground (arith, new, cycle, h)
      | inr fresh ↦ elim (Option-cases (lookup id all)) [
        | inl e ↦ ground (arith, new, fresh, e, h)
        | inr (m, e) ↦
            let s' = record s { visiting = id ∷ s.visiting } in
            let smaller = remaining-lt id s.visiting (keys all) fresh (has-keys id all m e) in
            let ends =
              visit_all-Lasts rounds (visit all candidates rounds)
                (visit-Progress candidates all agrees rounds) (visit-Lasts rounds)
                (targets all m.dependencies) s' (enter-Sound candidates id s new k)
                (omega (arith, smaller, b)) in
            elim (Result-cases
              (visit_all (visit all candidates rounds) (targets all m.dependencies) s')) [
                | inr (x, f) ↦ ground (arith, new, fresh, e, f, h, ends)
                | inl (u, f) ↦ ground (arith, new, fresh, e, f, h)
              ]
      ]
    ]
  ]
