-- ===== src/HealthIssues/Examples.antt =====
-- src/plaik_core/health_issues.py: a full registry of two owners, and the theorems at it.
use plaik.Prelude.{ℕ, ◌≤◌, ◌≡◌, refl, String, [], ◌∷◌, ◌++◌, arith, length, keep, string_eq}
use plaik.HealthIssues.{
  HealthIssueRegistry, owned, noisiest, delete_first, evict_one, evict_rounds, report,
}
use plaik.HealthIssues.Eviction.{report-bounded, report-quiet_owner}

abbrev owner_of : String × ℕ → String
owner_of issue = issue.0

abbrev full : HealthIssueRegistry (String × ℕ)
full = record { limit = 3; issues = ("shop", 1) ∷ ("blog", 2) ∷ ("blog", 3) ∷ [] }

report_evicts :
    (report owner_of ("shop", 4) full).issues ≡ ("blog", 2) ∷ ("blog", 3) ∷ ("shop", 4) ∷ []
unfolding report evict_rounds evict_one noisiest delete_first keep
report_evicts = refl

report-bounded_example : length (report owner_of ("blog", 4) full).issues ≤ 3
report-bounded_example = report-bounded owner_of ("blog", 4) full

report-quiet_owner_example :
    keep (owned owner_of "shop") (report owner_of ("blog", 4) full).issues
    ≡ keep (owned owner_of "shop") (full.issues ++ (("blog", 4) ∷ []))
unfolding keep
report-quiet_owner_example =
    report-quiet_owner owner_of ("blog", 4) full "shop" "blog" (omega arith) (omega arith)
