-- ===== src/HealthIssues/Eviction.antt =====
-- src/plaik_core/health_issues.py: what `report` evicts.
use plaik.Prelude.{
  ℕ, zero, suc, ◌+◌, ◌≤◌, ◌<◌, ◌≡◌, ◌≢◌, refl, String, List, [], ◌∷◌, ◌++◌, string_eq, eq_iff,
  arith, length, keep, length-append, Bool-cases, inl, inr, subst, ◌==◌,
}
use plaik.HealthIssues.{
  HealthIssueRegistry, owned, count_owned, noisiest, delete_first, evict_one, evict_rounds, report,
}

module _ {Issue : Type 0} (owner : Issue → String) where
  delete_first-shorter :
      (issues xs : List Issue)
      → 1 ≤ length xs
      → length (delete_first owner (noisiest owner issues xs) issues xs) + 1 ≡ length xs
  unfolding delete_first noisiest
  delete_first-shorter issues [] h = absurd (ground arith)
  delete_first-shorter issues (x ∷ []) h = ground arith
  delete_first-shorter issues (x ∷ y ∷ xs) h = ground (arith, delete_first-shorter issues (y ∷ xs))

  evict_rounds-bounded :
      (rounds limit : ℕ) (issues : List Issue)
      → length issues ≤ rounds
      → length (evict_rounds owner rounds limit issues) ≤ limit
  unfolding evict_rounds evict_one
  evict_rounds-bounded zero limit issues h = omega (arith, h)
  evict_rounds-bounded (suc rounds) limit issues h = ground (
    arith,
    delete_first-shorter issues issues,
    evict_rounds-bounded rounds limit (evict_one owner issues),
  )

  keep-delete_first :
      (o : String) (count : ℕ) (issues xs : List Issue)
      → count_owned owner o issues ≢ count
      → keep (owned owner o) (delete_first owner count issues xs) ≡ keep (owned owner o) xs
  unfolding delete_first keep
  keep-delete_first o count issues [] d = refl
  keep-delete_first o count issues (x ∷ xs) d =
      ground (arith, d, eq_iff (owner x) o, keep-delete_first o count issues xs d)

  evict_rounds-within :
      (rounds limit : ℕ) (issues : List Issue)
      → length issues ≤ limit
      → evict_rounds owner rounds limit issues ≡ issues
  unfolding evict_rounds
  evict_rounds-within zero limit issues h = refl
  evict_rounds-within (suc rounds) limit issues h = ground (arith, h)

  -- With one issue too many, one round leaves a quieter owner's issues as they are.
  one_round-keep :
      (rounds limit : ℕ) (issues : List Issue) (o : String)
      → length issues ≤ limit + 1
      → count_owned owner o issues < noisiest owner issues issues
      → keep (owned owner o) (evict_rounds owner rounds limit issues) ≡ keep (owned owner o) issues
  unfolding evict_rounds evict_one
  one_round-keep zero limit issues o h q = refl
  one_round-keep (suc rounds) limit issues o h q = ground (
    arith,
    delete_first-shorter issues issues,
    evict_rounds-within rounds limit (evict_one owner issues),
    keep-delete_first o (noisiest owner issues issues) issues issues,
  )

  -- However many issues there were, after a `report` there are at most `limit`: the loop that
  -- evicts them ends.
  pub report-bounded :
      (issue : Issue) (r : HealthIssueRegistry Issue)
      → length (report owner issue r).issues ≤ r.limit
  unfolding report
  report-bounded issue r =
      evict_rounds-bounded (length (r.issues ++ (issue ∷ []))) r.limit (r.issues ++ (issue ∷ []))
        (omega arith)

  -- The noisiest owner's count is the greatest.
  noisiest-count :
      (issues xs : List Issue) (o : String)
      → 1 ≤ count_owned owner o xs
      → count_owned owner o issues ≤ noisiest owner issues xs
  unfolding noisiest keep
  noisiest-count issues [] o h = absurd (ground arith)
  noisiest-count issues (x ∷ xs) o h = elim (Bool-cases (owner x == o)) [
    | inl p ↦
        let same : owner x ≡ o = (eq_iff (owner x) o).0 p in
        let here : count_owned owner (owner x) issues ≤ noisiest owner issues (x ∷ xs) =
          ground arith in
        subst (λ n. count_owned owner n issues ≤ noisiest owner issues (x ∷ xs)) same here
    | inr p ↦ ground (arith, p, noisiest-count issues xs o)
  ]

  -- A `report` to a registry within its limit leaves the issues of each owner that has fewer of
  -- them than some other owner, counted with the new issue, all and in their order.
  pub report-quiet_owner :
      (issue : Issue) (r : HealthIssueRegistry Issue) (o louder : String)
      → length r.issues ≤ r.limit
      → count_owned owner o (r.issues ++ (issue ∷ []))
        < count_owned owner louder (r.issues ++ (issue ∷ []))
      → keep (owned owner o) (report owner issue r).issues
        ≡ keep (owned owner o) (r.issues ++ (issue ∷ []))
  unfolding report
  report-quiet_owner issue r o louder h q =
      let issues = r.issues ++ (issue ∷ []) in
      one_round-keep (length issues) r.limit issues o
        (omega (arith, length-append r.issues (issue ∷ []), h))
        (omega (arith, q, noisiest-count issues issues louder (omega (arith, q))))
