-- ===== src/Jobs/Changes.antt =====
-- src/plaik_core/jobs.py, `DurableJobQueue`: what each operation computes under the file's lock, as
-- a function of the records that it has read.
use plaik.Prelude.{
  ℕ, String, Bool, true, false, ◌&&◌, ◌||◌, not, Option, none, some, List, [], ◌∷◌, ltb, leb,
  nat_beq, if◌then◌else◌, length, take, keep, ◌==◌, string_eq, option_beq,
}
use plaik.Prelude.Text.{text_lt, starts_with}
use plaik.Prelude.Dict.{lookup, insert, delete, values, map_values}
use plaik.Prelude.Sorting.{sort_by}
use plaik.Prelude.Results.{Result, ok, err, ◌>>=◌}
use plaik.Jobs.Record.{
  JobError, bound_elsewhere, capacity_exhausted, missing_job, not_owner, stale_token, lease_expired,
  JobRecord, is_queued, is_running, is_open, new_record, claimed, recover, cancelled,
  succeeded_record, failed_record, retry_fits, overflow,
}
use plaik.Jobs.Registry.{Records, DurableJobQueue, Change}

module _ {P : Type 0} where
  -- The first record under an idempotency key.
  unfoldable pub find_key : String → List (JobRecord P) → Option (JobRecord P)
  find_key key [] = none
  find_key key (r ∷ rs) = if r.idempotency_key == key then some r else find_key key rs

  unfoldable pub enqueue_change :
      (P → P → Bool)
      → String
      → String
      → String
      → P
      → ℕ
      → ℕ
      → ℕ
      → DurableJobQueue P
      → Records P
      → Change P (JobRecord P)
  enqueue_change same fresh job_type key payload attempts due timestamp q records =
      elim (find_key key (values records)) [
        | some existing ↦
            if existing.type == job_type && same existing.payload payload
            then ok (existing, none)
            else err bound_elsewhere
        | none ↦
            if leb q.maximum_records (length records)
            then err capacity_exhausted
            else let r = new_record fresh job_type key payload attempts due timestamp in
              ok (r, some (insert fresh r records))
      ]

  -- The key by which `claim` sorts: scheduled, created, id.
  unfoldable pub due_lt : JobRecord P → JobRecord P → Bool
  due_lt a b =
      ltb a.scheduled_at b.scheduled_at
      || (nat_beq a.scheduled_at b.scheduled_at
          && (ltb a.created_at b.created_at
              || (nat_beq a.created_at b.created_at && text_lt a.id b.id)))

  -- The key by which `purge_terminal` sorts: updated, id.
  unfoldable pub older_lt : JobRecord P → JobRecord P → Bool
  older_lt a b =
      ltb a.updated_at b.updated_at || (nat_beq a.updated_at b.updated_at && text_lt a.id b.id)

  unfoldable pub is_due : ℕ → JobRecord P → Bool
  is_due now r = is_queued r.status && leb r.scheduled_at now

  unfoldable pub is_cancellable : String → JobRecord P → Bool
  is_cancellable prefix r = is_open r.status && starts_with prefix r.type

  unfoldable pub is_purgeable : ℕ → JobRecord P → Bool
  is_purgeable cutoff r = not (is_open r.status) && ltb r.updated_at cutoff

  unfoldable pub cancel_one : String → ℕ → JobRecord P → JobRecord P
  unfolding is_cancellable
  cancel_one prefix now r = if is_cancellable prefix r then cancelled now r else r

  unfoldable pub cancel_change : String → ℕ → DurableJobQueue P → Records P → Change P ℕ
  cancel_change prefix now q records =
      let changed = length (keep (is_cancellable prefix) (values records)) in
      ok (
        changed,
        if nat_beq changed 0 then none else some (map_values (cancel_one prefix now) records),
      )

  unfoldable pub claim_first :
      String → ℕ → ℕ → Records P → List (JobRecord P) → Change P (Option (JobRecord P))
  claim_first worker lease now records [] = ok (none, some records)
  claim_first worker lease now records (selected ∷ rest) =
      let r = claimed worker lease now selected in ok (some r, some (insert r.id r records))

  -- The queued jobs that are due, first the one to be claimed.
  unfoldable pub due_jobs : ℕ → Records P → List (JobRecord P)
  due_jobs now records = sort_by due_lt (keep (is_due now) (values records))

  unfoldable pub claim_change :
      String → ℕ → ℕ → DurableJobQueue P → Records P → Change P (Option (JobRecord P))
  unfolding claim_first
  claim_change worker lease now q records =
      let recovered = map_values (recover now) records in
      claim_first worker lease now recovered (due_jobs now recovered)

  unfoldable pub finish_current :
      String
      → ℕ
      → Bool
      → Option String
      → ℕ
      → DurableJobQueue P
      → JobRecord P
      → Result JobError (JobRecord P)
  finish_current worker token success error_code now q r =
      if not (is_running r.status && option_beq r.lease_owner (some worker))
      then err not_owner
      else if not (nat_beq r.fencing_token token)
      then err stale_token
      else if elim r.lease_expires_at [ none ↦ true | some t ↦ leb t now ]
      then err lease_expired
      else if not (success || retry_fits q.base_retry_delay q.maximum_retry_delay now r)
      then err overflow
      else ok (
          if success
          then succeeded_record now r
          else failed_record q.base_retry_delay q.maximum_retry_delay error_code now r)

  unfoldable pub finish_change :
      String
      → String
      → ℕ
      → Bool
      → Option String
      → ℕ
      → DurableJobQueue P
      → Records P
      → Change P (JobRecord P)
  unfolding finish_current
  finish_change job_id worker token success error_code now q records =
      elim (lookup job_id records) [
        | none ↦ err missing_job
        | some current ↦ finish_current worker token success error_code now q current >>= λ updated.
            ok (updated, some (insert job_id updated records))
      ]

  unfoldable pub holds_lease : String → ℕ → ℕ → JobRecord P → Bool
  holds_lease worker token now r =
      is_running r.status
      && (option_beq r.lease_owner (some worker)
          && (nat_beq r.fencing_token token
              && elim r.lease_expires_at [ none ↦ false | some t ↦ ltb now t ]))

  unfoldable pub leased_change :
      String → String → ℕ → ℕ → DurableJobQueue P → Records P → Change P (Option (JobRecord P))
  unfolding holds_lease
  leased_change job_id worker token now q records = ok (
    elim (lookup job_id records) [
      | none ↦ none
      | some current ↦ if holds_lease worker token now current then some current else none
    ],
    none,
  )

  unfoldable pub delete_all : List (JobRecord P) → Records P → Records P
  delete_all [] records = records
  delete_all (r ∷ rs) records = delete_all rs (delete r.id records)

  unfoldable pub purge_change : ℕ → ℕ → DurableJobQueue P → Records P → Change P ℕ
  purge_change cutoff limit q records =
      let terminal = take limit (sort_by older_lt (keep (is_purgeable cutoff) (values records))) in
      ok (
        length terminal,
        if nat_beq (length terminal) 0 then none else some (delete_all terminal records),
      )
