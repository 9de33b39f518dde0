-- ===== src/HealthIssues.antt =====
-- src/plaik_core/health_issues.py, `HealthIssueRegistry`. An issue is any type with an owner, since
-- `HealthIssue` is another package's.
pub mod Eviction
mod Examples
use plaik.Prelude.{
  ℕ, zero, suc, ◌+◌, ◌-◌, String, Bool, not, Option, none, some, List, [], ◌∷◌, ◌++◌, leb, ltb,
  nat_beq, ◌==◌, Eq, string_eq, if◌then◌else◌, length, keep,
}

pub record HealthIssueRegistry (Issue : Type 0) : Type 0 where
  pub limit : ℕ
  pub issues : List Issue

module _ {Issue : Type 0} (owner : Issue → String) where
  abbrev pub owned : String → Issue → Bool
  owned o issue = owner issue == o

  -- `counts[o]`
  abbrev pub count_owned : String → List Issue → ℕ
  count_owned o issues = length (keep (owned o) issues)

  -- `max(counts.values())`, over the owners of the second list.
  unfoldable pub noisiest : List Issue → List Issue → ℕ
  noisiest issues [] = 0
  noisiest issues (x ∷ xs) =
      let rest = noisiest issues xs in
      let count = count_owned (owner x) issues in if ltb count rest then rest else count

  -- The first issue whose owner has the count is deleted.
  unfoldable pub delete_first : ℕ → List Issue → List Issue → List Issue
  delete_first count issues [] = []
  delete_first count issues (x ∷ xs) =
      if nat_beq (count_owned (owner x) issues) count then xs else x ∷ delete_first count issues xs

  -- `_evict_one_locked`
  unfoldable pub evict_one : List Issue → List Issue
  unfolding noisiest delete_first
  evict_one issues = delete_first (noisiest issues issues) issues issues

  -- `while len(self._issues) > self._limit`, for as many rounds as there are issues.
  unfoldable pub evict_rounds : ℕ → ℕ → List Issue → List Issue
  unfolding evict_one
  evict_rounds zero limit issues = issues
  evict_rounds (suc rounds) limit issues =
      let rest = evict_rounds rounds limit (evict_one issues) in
      if ltb limit (length issues) then rest else issues

  unfoldable pub report : Issue → HealthIssueRegistry Issue → HealthIssueRegistry Issue
  unfolding evict_rounds
  report issue r =
      let issues = r.issues ++ (issue ∷ []) in
      record r { issues = evict_rounds (length issues) r.limit issues }

  unfoldable pub list_issues : Option String → HealthIssueRegistry Issue → List Issue
  list_issues none r = r.issues
  list_issues (some o) r = keep (owned o) r.issues

  unfoldable pub clear : Option String → HealthIssueRegistry Issue → ℕ × HealthIssueRegistry Issue
  clear none r = (length r.issues, record r { issues = [] })
  clear (some o) r =
      let kept = keep (λ issue. not (owned o issue)) r.issues in
      (length r.issues - length kept, record r { issues = kept })
