-- ===== src/Journal/Durability.antt =====
-- src/plaik_core/operation_journal.py, `OperationJournal`: what an operation appends verifies, and
-- says of the operation what was returned.
use plaik.Prelude.{
  ℕ, ◌≡◌, ◌≤◌, ◌⊎◌, refl, sym, ◌∙◌, ap, String, true, Option, none, some, List, [], ◌∷◌, ◌++◌,
  arith, string_eq, inl, inr, leb,
}
use plaik.Prelude.Dict.{lookup, insert, lookup-insert_self}
use plaik.Prelude.Results.{ok, Result-cases}
use plaik.Journal.Event.{
  OperationEvent, OperationState, OperationStatus, apply_event, validate_operation_id,
  validate_action, validate_target, check_code, transition,
}
use plaik.Journal.File.{
  Line, whole, Codec, Writing, written, unwritten, cut, unsynced, Log, empty_log, verify_from,
  as_integrity, read_and_verify, max_operation_record_bytes, new_event, append_line,
}
use plaik.Journal.Operations.{Decision, perform, transact}
use plaik.Journal.Chain.{read_and_verify_ok}
use plaik.Journal.Sanity.{sane_fields, verify_from-append, Follows, accept-Follows, IsSound}

module _ {Raw : Type 0} (codec : Codec Raw) where
  open codec use {sign, encode, size, decode-encode}

  -- After the call the journal verifies and has the returned state for the operation; the call
  -- appended one line at most.
  pub record Recorded (k : String) (lines : List (Line Raw)) (s : OperationState)
      (lines' : List (Line Raw)) : Type 0 where
    pub log : Log
    pub verifies : read_and_verify codec lines' ≡ ok log
    pub found : lookup k log.states ≡ some s
    pub extends :
        (lines' ≡ lines) ⊎ ((e : OperationEvent) × (lines' ≡ lines ++ whole (encode e) ∷ []))

  appended_lines :
      (writing : Writing) (lines lines' : List (Line Raw)) (e : OperationEvent)
      (s s' : OperationState)
      → perform codec writing (ok (s', some e)) lines ≡ (ok s, lines')
      → (s' ≡ s)
        × (leb (size (encode e)) max_operation_record_bytes ≡ true)
        × (lines' ≡ lines ++ whole (encode e) ∷ [])
  unfolding append_line
  appended_lines written lines lines' e s s' h = ground arith
  appended_lines unwritten lines lines' e s s' h = absurd (ground arith)
  appended_lines cut lines lines' e s s' h = absurd (ground arith)
  appended_lines unsynced lines lines' e s s' h = absurd (ground arith)

  pub read_appended :
      (lines : List (Line Raw)) (log : Log) (e : OperationEvent) (k : String) (s : OperationState)
      → read_and_verify codec lines ≡ ok log
      → Follows codec log k e s
      → leb (size (encode e)) max_operation_record_bytes ≡ true
      → read_and_verify codec (lines ++ whole (encode e) ∷ [])
        ≡ ok (record { events = e ∷ log.events; states = insert k s log.states })
  unfolding read_and_verify as_integrity verify_from
  read_appended lines log e k s h f fits = rw (
    verify_from-append codec empty_log lines log (whole (encode e))
        (read_and_verify_ok codec lines log h),
    accept-Follows codec log k e s f fits,
  )

  perform-Recorded :
      (k : String) (writing : Writing) (lines lines' : List (Line Raw)) (log : Log)
      (s s' : OperationState) (w : Option OperationEvent)
      → read_and_verify codec lines ≡ ok log
      → IsSound codec log k s' w
      → perform codec writing (ok (s', w)) lines ≡ (ok s, lines')
      → Recorded k lines s lines'
  perform-Recorded k writing lines lines' log s s' none h sound p =
      let same : lines ≡ lines' = ground arith in
      let state : s' ≡ s = ground arith in
      record {
        log = log;
        verifies = rw (← same) h;
        found = rw (← state) (sound.unchanged refl);
        extends = inl (sym same);
      }
  perform-Recorded k writing lines lines' log s s' (some e) h sound p =
      let (state, fits, new) = appended_lines writing lines lines' e s s' p in
      record {
        log = record { events = e ∷ log.events; states = insert k s' log.states };
        verifies = rw new (read_appended lines log e k s' h (sound.appended e refl) fits);
        found = lookup-insert_self k s' log.states ∙ ap some state;
        extends = inr (e, new);
      }

  pub transact-Recorded :
      (k : String) (writing : Writing) (decide : Log → Decision) (lines lines' : List (Line Raw))
      (s : OperationState)
      → ((log : Log) (s' : OperationState) (w : Option OperationEvent)
          → read_and_verify codec lines ≡ ok log
          → decide log ≡ ok (s', w)
          → IsSound codec log k s' w)
      → transact codec writing decide lines ≡ (ok s, lines')
      → Recorded k lines s lines'
  unfolding transact
  transact-Recorded k writing decide lines lines' s sound h =
      elim (Result-cases (read_and_verify codec lines)) [
        | inr (x, e) ↦ absurd (ground arith)
        | inl (log, e) ↦ elim (Result-cases (decide log)) [
          | inr (x, f) ↦ absurd (ground arith)
          | inl ((s', w), f) ↦
              perform-Recorded k writing lines lines' log s s' w e (sound log s' w e f) (
                let g : perform codec writing (decide log) lines ≡ (ok s, lines') = rw e at h in
                rw f at g)
        ]
      ]

  -- A new event follows the log it is made from, if its fields are valid and its transition is one.
  pub new_event-Follows :
      (log : Log) (k : String) (attempt : ℕ) (action target : String) (status : OperationStatus)
      (time : ℕ) (code : Option String) (s : OperationState)
      → let e = new_event codec log.events k attempt action target status time code in
        validate_operation_id k ≡ ok tt
        → validate_action action ≡ ok tt
        → validate_target target ≡ ok tt
        → 1 ≤ attempt
        → check_code status code ≡ ok tt
        → transition (lookup k log.states) e.body time ≡ ok s
        → Follows codec log k e s
  unfolding new_event apply_event
  new_event-Follows log k attempt action target status time code s a b c d f g =
      let e = new_event codec log.events k attempt action target status time code in
      record {
        of_operation = refl;
        numbered = refl;
        bound = refl;
        signed = refl;
        applied = rw (sane_fields e.body time a b c d f refl) g;
      }
