-- ===== src/RemoteControl/Runs.antt =====
-- src/plaik_core/remote_control.py: calls of the store, in any order.
use plaik.Prelude.{◌≡◌, refl, subst, Bool, true, false, inl, inr, List, [], ◌∷◌, arith, Bool-cases}
use plaik.Prelude.Results.{Result, ok, err}
use plaik.Installer.{InstallState, completed, state_beq}
use plaik.Installer.Forward.{state_beq_same}
use plaik.RemoteControl.Record.{
  not_completed, RemoteControlError, RemoteControlRecord, check_observed,
}
use plaik.RemoteControl.Store.{
  RemoteControlStore, RemoteControlFile, absent, malformed, document, blank, read, commit,
  require_completed, Operation, change_of, call, call_all,
}
use plaik.RemoteControl.Validity.{Valid, Valid-accepted, validate_record-Valid}
use plaik.RemoteControl.Transition.{Transition, Makes}
use plaik.RemoteControl.Steps.{change_of-Makes}

blank-Valid : Valid blank
unfolding check_observed
blank-Valid = record { intent_valid = refl; rp_id_valid = refl; code_valid = refl; observed = refl }

pub read-Valid : (q : RemoteControlStore) (r : RemoteControlRecord) → read q ≡ ok r → Valid r
unfolding read
read-Valid q r e = file-Valid q.file e
  where
    file-Valid : (f : RemoteControlFile) → read (record { file = f }) ≡ ok r → Valid r
    file-Valid absent h = let same : blank ≡ r = ground (arith, h) in subst Valid same blank-Valid
    file-Valid malformed h = absurd (ground (arith, h))
    file-Valid (document s) h = validate_record-Valid s r h

-- What a call may do to a store that holds a record: nothing when it raises; when it returns, the
-- installation is complete, the call makes its transition, and the store holds what is returned.
pub data Outcome (s : InstallState) (op : Operation) (q : RemoteControlStore)
    (r : RemoteControlRecord)
    : Result RemoteControlError RemoteControlRecord → RemoteControlStore → Type 0 where
  refused : (x : RemoteControlError) → Outcome s op q r (err x) q
  accepted :
      (a : RemoteControlRecord) (after : RemoteControlStore)
      → s ≡ completed
      → Transition r op a
      → read after ≡ ok a
      → Outcome s op q r (ok a) after

module _ (s : InstallState) (op : Operation) (q : RemoteControlStore) (r : RemoteControlRecord)
    (e : read q ≡ ok r) where
  committed :
      (c : Result RemoteControlError (RemoteControlRecord × Bool))
      → s ≡ completed
      → ((a : RemoteControlRecord) (w : Bool) → c ≡ ok (a, w) → Makes op r a w)
      → Outcome s op q r (commit c q).0 (commit c q).1
  unfolding read
  committed (err x) done m = refused x
  committed (ok (a, false)) done m =
      let i = m a false refl in accepted a q done i.transition (ground (arith, e, i.settled))
  committed (ok (a, true)) done m =
      let i = m a true refl in
      accepted a (record q { file = document a }) done i.transition (Valid-accepted a i.settled)

  -- A call of a store that holds a record raises and leaves the store; or the installation is
  -- complete, the call makes its transition of the record, and the store holds what it returns.
  pub call-Outcome : Outcome s op q r (call s op q).0 (call s op q).1
  unfolding call require_completed
  call-Outcome = elim (Bool-cases (state_beq s completed)) [
    | inl p ↦ rw p (
        committed (change_of op q) (state_beq_same s completed p)
          (change_of-Makes q r e (read-Valid q r e) op))
    | inr p ↦ rw p (refused not_completed)
  ]

-- Calls that are refused or make their transition, from one record to another.
pub data Run
    : RemoteControlRecord → List (InstallState × Operation) → RemoteControlRecord → Type 0 where
  start : (r : RemoteControlRecord) → Run r [] r
  refuse :
      (r a : RemoteControlRecord) (s : InstallState) (op : Operation)
      (calls : List (InstallState × Operation))
      → Run r calls a
      → Run r ((s, op) ∷ calls) a
  step :
      (r m a : RemoteControlRecord) (s : InstallState) (op : Operation)
      (calls : List (InstallState × Operation))
      → s ≡ completed
      → Transition r op m
      → Run m calls a
      → Run r ((s, op) ∷ calls) a

-- The store holds a record that its validators accept, and that the calls came to from `r`.
pub record HoldsAfter (r : RemoteControlRecord) (calls : List (InstallState × Operation))
    (q : RemoteControlStore) : Type 0 where
  pub held : RemoteControlRecord
  pub reads : read q ≡ ok held
  pub run : Run r calls held

module _ (s : InstallState) (op : Operation) (calls : List (InstallState × Operation)) where
  extend :
      (q : RemoteControlStore) (r : RemoteControlRecord)
      (res : Result RemoteControlError RemoteControlRecord) (after : RemoteControlStore)
      → read q ≡ ok r
      → Outcome s op q r res after
      → ((p : RemoteControlStore) (m : RemoteControlRecord)
          → read p ≡ ok m
          → HoldsAfter m calls (call_all calls p))
      → HoldsAfter r ((s, op) ∷ calls) (call_all calls after)
  extend q r res after e (refused x) rest =
      let i = rest q r e in
      record { held = i.held; reads = i.reads; run = refuse r i.held s op calls i.run }
  extend q r res after e (accepted a _ done t f) rest =
      let i = rest after a f in
      record { held = i.held; reads = i.reads; run = step r a i.held s op calls done t i.run }

-- After any calls of a store that holds a record, it holds a record: the one to which the calls that
-- were not refused made their transitions.
pub call_all-HoldsAfter :
    (calls : List (InstallState × Operation)) (q : RemoteControlStore) (r : RemoteControlRecord)
    → read q ≡ ok r
    → HoldsAfter r calls (call_all calls q)
unfolding call_all
call_all-HoldsAfter [] q r e = record { held = r; reads = e; run = start r }
call_all-HoldsAfter ((s, op) ∷ calls) q r e =
    extend s op calls q r (call s op q).0 (call s op q).1 e (call-Outcome s op q r e)
      (λ p m f. call_all-HoldsAfter calls p m f)
