-- ===== src/Jobs/Invariant.antt =====
-- src/plaik_core/jobs.py, `DurableJobQueue`: every operation keeps the registry consistent.
use plaik.Prelude.{
  ℕ, ◌≤◌, ◌≡◌, refl, ◌∙◌, String, Bool, false, none, some, arith, length, leb, string_eq,
}
use plaik.Prelude.Results.{ok}
use plaik.Prelude.Dict.{lookup, insert, values, map_values, length-insert}
use plaik.Jobs.Record.{JobRecord, new_record, recover, cancelled}
use plaik.Jobs.Registry.{Records, DurableJobQueue, Change}
use plaik.Jobs.Changes.{find_key, enqueue_change, cancel_one, cancel_change}
use plaik.Jobs.Validity.{new_record-IsValid, recover-IsValid, cancelled-IsValid}
use plaik.Jobs.Consistency.{
  Entry, IsConsistent, Keeps, insert-IsConsistent, map_values-IsConsistent,
}
use plaik.Jobs.Selection.{find_key-none}

module _ {P : Type 0} where
  pub recover-Keeps : (now : ℕ) → Keeps {P = P} (recover now)
  unfolding recover
  recover-Keeps now = record {
    id = λ r. ground arith;
    key = λ r. ground arith;
    valid = λ r v. recover-IsValid v now;
  }

  cancel_one-Keeps : (prefix : String) (now : ℕ) → Keeps {P = P} (cancel_one prefix now)
  unfolding cancel_one cancelled
  cancel_one-Keeps prefix now = record {
    id = λ r. ground arith;
    key = λ r. ground arith;
    valid = λ r v. ground (arith, cancelled-IsValid v now);
  }

  -- What a change writes is consistent.
  pub record Writes {A : Type 0} (maximum : ℕ) (c : Change P A) : Type 0 where
    pub consistent : (a : A) (m : Records P) → c ≡ ok (a, some m) → IsConsistent maximum m

  enqueue_written :
      (same : P → P → Bool) (fresh job_type key : String) (payload : P) (attempts due now : ℕ)
      (q : DurableJobQueue P) (m : Records P) (r : JobRecord P) (m' : Records P)
      → enqueue_change same fresh job_type key payload attempts due now q m ≡ ok (r, some m')
      → (find_key key (values m) ≡ none)
        × (leb q.maximum_records (length m) ≡ false)
        × (m' ≡ insert fresh (new_record fresh job_type key payload attempts due now) m)
  unfolding enqueue_change
  enqueue_written same fresh job_type key payload attempts due now q m r m' h = ground arith

  pub enqueue_change-Writes :
      (same : P → P → Bool) (fresh job_type key : String) (payload : P) (attempts due now : ℕ)
      (q : DurableJobQueue P) (m : Records P)
      → 1 ≤ attempts
      → attempts ≤ 32
      → IsConsistent q.maximum_records m
      → Writes q.maximum_records
          (enqueue_change same fresh job_type key payload attempts due now q m)
  unfolding new_record
  enqueue_change-Writes same fresh job_type key payload attempts due now q m lo hi c = record {
    consistent = λ r m' h.
        let (absent, room, e) =
          enqueue_written same fresh job_type key payload attempts due now q m r m' h in
        let new = new_record fresh job_type key payload attempts due now in
        rw e (
          insert-IsConsistent q.maximum_records fresh new m
            (refl, new_record-IsValid fresh job_type key payload attempts due now lo hi)
            (λ j b p k. absurd (find_key-none key m j b absent p k))
            (ground (arith, length-insert fresh new m)) c);
  }

  cancel_written :
      (prefix : String) (now : ℕ) (q : DurableJobQueue P) (m : Records P) (n : ℕ) (m' : Records P)
      → cancel_change prefix now q m ≡ ok (n, some m')
      → m' ≡ map_values (cancel_one prefix now) m
  unfolding cancel_change
  cancel_written prefix now q m n m' h = ground arith

  pub cancel_change-Writes :
      (prefix : String) (now : ℕ) (q : DurableJobQueue P) (m : Records P)
      → IsConsistent q.maximum_records m
      → Writes q.maximum_records (cancel_change prefix now q m)
  cancel_change-Writes prefix now q m c = record {
    consistent = λ n m' h. rw (cancel_written prefix now q m n m' h) (
        map_values-IsConsistent q.maximum_records (cancel_one prefix now) m
          (cancel_one-Keeps prefix now) c);
  }

  -- A record put in the place of the stored one under its id.
  pub replace-IsConsistent :
      (maximum : ℕ) (k : String) (old new : JobRecord P) (m : Records P)
      → lookup k m ≡ some old
      → Entry k new
      → new.idempotency_key ≡ old.idempotency_key
      → IsConsistent maximum m
      → IsConsistent maximum (insert k new m)
  replace-IsConsistent maximum k old new m found entry same c =
      insert-IsConsistent maximum k new m entry
        (λ j b p e. c.keys_differ j k b old p found (e ∙ same))
        (ground (arith, length-insert k new m, c.bounded)) c
