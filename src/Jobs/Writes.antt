-- ===== src/Jobs/Writes.antt =====
-- src/plaik_core/jobs.py, `DurableJobQueue`: what claims, finishes and purges write is consistent.
use plaik.Prelude.{
  ℕ, ◌≡◌, refl, sym, ◌∙◌, String, Bool, true, false, Option, some, List, [], ◌∷◌, arith, string_eq,
  length, take, keep,
}
use plaik.Prelude.Results.{ok}
use plaik.Prelude.Dict.{insert, delete, map_values, values, Every-lookup}
use plaik.Prelude.Sorting.{sort_by}
use plaik.Jobs.Record.{JobRecord, claimed, recover, succeeded_record, failed_record, is_queued}
use plaik.Jobs.Registry.{Records, DurableJobQueue}
use plaik.Jobs.Changes.{
  claim_change, finish_change, leased_change, is_due, is_purgeable, older_lt, delete_all,
  purge_change,
}
use plaik.Jobs.Validity.{IsValid, claimed-IsValid, succeeded_record-IsValid, failed_record-IsValid}
use plaik.Jobs.Consistency.{Entry, IsConsistent, delete-IsConsistent, map_values-IsConsistent}
use plaik.Jobs.Selection.{IsSelected-of_due}
use plaik.Jobs.Outcomes.{Claims, claim_change-Claims, finished, finish_change-MayFinish}
use plaik.Jobs.Invariant.{Writes, recover-Keeps, replace-IsConsistent}

module _ {P : Type 0} where
  queued_of_due : (now : ℕ) (r : JobRecord P) → is_due now r ≡ true → is_queued r.status ≡ true
  unfolding is_due
  queued_of_due now r h = ground arith

  Claims-IsConsistent :
      (maximum : ℕ) (worker : String) (lease now : ℕ) (m : Records P) (a : Option (JobRecord P))
      (m' : Records P)
      → Claims worker lease now m a m'
      → IsConsistent maximum m
      → IsConsistent maximum m'
  unfolding claimed
  Claims-IsConsistent maximum worker lease now m a m' (Claims.nothing e f g) c = rw g c
  Claims-IsConsistent maximum worker lease now m a m' (Claims.job r rest e f g) c =
      let s = IsSelected-of_due maximum now m r rest c e in
      rw g (
        replace-IsConsistent maximum r.id r (claimed worker lease now r) m s.stored.found
          (refl, claimed-IsValid s.stored.valid worker lease now (queued_of_due now r s.due)) refl
          c)

  pub claim_change-Writes :
      (worker : String) (lease now : ℕ) (q : DurableJobQueue P) (m : Records P)
      → IsConsistent q.maximum_records m
      → Writes q.maximum_records (claim_change worker lease now q m)
  claim_change-Writes worker lease now q m c = record {
    consistent = λ a m' h.
        Claims-IsConsistent q.maximum_records worker lease now (map_values (recover now) m) a m'
          (claim_change-Claims worker lease now q m a m' h)
          (map_values-IsConsistent q.maximum_records (recover now) m (recover-Keeps now) c);
  }

  finished-IsValid :
      (q : DurableJobQueue P) (success : Bool) (code : Option String) (now : ℕ) (r : JobRecord P)
      → IsValid r
      → IsValid (finished q success code now r)
  unfolding finished
  finished-IsValid q true code now r v = succeeded_record-IsValid v now
  finished-IsValid q false code now r v =
      failed_record-IsValid v q.base_retry_delay q.maximum_retry_delay code now

  finished_keeps :
      (q : DurableJobQueue P) (success : Bool) (code : Option String) (now : ℕ) (r : JobRecord P)
      → ((finished q success code now r).id ≡ r.id)
        × ((finished q success code now r).idempotency_key ≡ r.idempotency_key)
  unfolding finished succeeded_record failed_record
  finished_keeps q success code now r = ground arith

  pub finish_change-Writes :
      (job_id worker : String) (token : ℕ) (success : Bool) (code : Option String) (now : ℕ)
      (q : DurableJobQueue P) (m : Records P)
      → IsConsistent q.maximum_records m
      → Writes q.maximum_records (finish_change job_id worker token success code now q m)
  finish_change-Writes job_id worker token success code now q m c = record {
    consistent = λ a m' h.
        let (r, found, may, e, w) =
          finish_change-MayFinish job_id worker token success code now q m a (some m') h in
        let stored = Every-lookup Entry job_id m c.entries found in
        let kept = finished_keeps q success code now r in
        let same : m' ≡ insert job_id a m = ground arith in
        rw (same, e)
          (replace-IsConsistent q.maximum_records job_id r (finished q success code now r) m found
            (stored.0 ∙ sym kept.0, finished-IsValid q success code now r stored.1) kept.1 c);
  }

  pub leased_change-Writes :
      (job_id worker : String) (token now : ℕ) (q : DurableJobQueue P) (m : Records P)
      → Writes q.maximum_records (leased_change job_id worker token now q m)
  unfolding leased_change
  leased_change-Writes job_id worker token now q m = record {
    consistent = λ a m' h. absurd (ground arith);
  }

  delete_all-IsConsistent :
      (maximum : ℕ) (rs : List (JobRecord P)) (m : Records P)
      → IsConsistent maximum m
      → IsConsistent maximum (delete_all rs m)
  unfolding delete_all
  delete_all-IsConsistent maximum [] m c = c
  delete_all-IsConsistent maximum (r ∷ rs) m c =
      delete_all-IsConsistent maximum rs (delete r.id m) (delete-IsConsistent maximum r.id m c)

  purge_written :
      (cutoff limit : ℕ) (q : DurableJobQueue P) (m : Records P) (n : ℕ) (m' : Records P)
      → purge_change cutoff limit q m ≡ ok (n, some m')
      → let batch = take limit (sort_by older_lt (keep (is_purgeable cutoff) (values m))) in
        (n ≡ length batch) × (m' ≡ delete_all batch m)
  unfolding purge_change
  purge_written cutoff limit q m n m' h = ground arith

  pub purge_change-Writes :
      (cutoff limit : ℕ) (q : DurableJobQueue P) (m : Records P)
      → IsConsistent q.maximum_records m
      → Writes q.maximum_records (purge_change cutoff limit q m)
  purge_change-Writes cutoff limit q m c = record {
    consistent = λ n m' h.
        rw (purge_written cutoff limit q m n m' h).1
          (delete_all-IsConsistent q.maximum_records _ m c);
  }
