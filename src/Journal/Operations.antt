-- ===== src/Journal/Operations.antt =====
-- src/plaik_core/operation_journal.py, `OperationJournal`: the operations, over the journal's lines.
use plaik.Prelude.{
  ℕ, ◌+◌, String, true, ◌&&◌, ◌||◌, not, Option, none, some, List, ltb, ◌==◌, string_eq,
  if◌then◌else◌, length, option_beq, keep,
}
use plaik.Prelude.Dict.{Dict, lookup, values}
use plaik.Prelude.Items.{sort_items}
use plaik.Prelude.Results.{Result, ok, err, guard, ◌>>=◌, ◌>>◌, Method, checked}
use plaik.Prelude.Time.{DateTime, or_now, as_utc}
use plaik.Journal.Event.{
  JournalError, naive_timestamp, integrity, conflict, unknown_operation, already_succeeded,
  retry_too_early, wrong_transition, OperationStatus, started, succeeded, failed, status_beq,
  OperationEvent, OperationState, validate_operation_id, validate_action, validate_target,
  validate_error_code, initial_state, terminal_state, is_too_early,
}
use plaik.Journal.File.{
  Line, Codec, Log, Writing, Environment, head_hash, read_and_verify, new_event, append_line,
}

-- What an operation does with the log that it has read: the state that it returns, and the event
-- that it appends, if it appends one.
abbrev pub Decision : Type 0
Decision = Result JournalError (OperationState × Option OperationEvent)

unfoldable pub begin_checks : String → String → String → Option DateTime → ℕ → Result JournalError ℕ
unfolding as_utc
begin_checks operation_id action target occurred_at clock = do
  validate_operation_id operation_id
  validate_action action
  validate_target target
  as_utc naive_timestamp (or_now occurred_at clock)

unfoldable pub id_checks : String → Option DateTime → ℕ → Result JournalError ℕ
unfolding as_utc
id_checks operation_id occurred_at clock = do
  validate_operation_id operation_id
  as_utc naive_timestamp (or_now occurred_at clock)

module _ {Raw : Type 0} (codec : Codec Raw) where
  -- What is returned once the line was appended, or the error of the append.
  abbrev pub appended :
      OperationState → Result JournalError (Unit {0}) → Result JournalError OperationState
  appended s (ok _) = ok s
  appended s (err e) = err e

  abbrev pub perform : Writing → Decision → Method JournalError (List (Line Raw)) OperationState
  perform writing (err e) lines = (err e, lines)
  perform writing (ok (s, none)) lines = (ok s, lines)
  perform writing (ok (s, some e)) lines =
      (appended s (append_line codec e writing lines).0, (append_line codec e writing lines).1)

  -- `with self._exclusive_lock(): events, states = self._read_and_verify(); ...`
  unfoldable pub transact :
      Writing → (Log → Decision) → Method JournalError (List (Line Raw)) OperationState
  transact writing decide lines = perform writing (read_and_verify codec lines >>= decide) lines

  unfoldable pub begin_decision : String → String → String → ℕ → Log → Decision
  begin_decision operation_id action target time log = elim (lookup operation_id log.states) [
    | some existing ↦
        if existing.action == action && existing.target == target
        then ok (existing, none)
        else err conflict
    | none ↦
        let event = new_event codec log.events operation_id 1 action target started time none in
        ok (initial_state event.body time, some event)
  ]

  unfoldable pub retry_current : OperationState → String → ℕ → Log → Decision
  retry_current current operation_id time log =
      if status_beq current.status started
      then ok (current, none)
      else if status_beq current.status succeeded
      then err already_succeeded
      else if is_too_early current.finished_at time
      then err retry_too_early
      else let event =
          new_event codec log.events operation_id (current.attempt + 1) current.action
            current.target started time none in
        ok (initial_state event.body time, some event)

  unfoldable pub retry_decision : String → ℕ → Log → Decision
  unfolding retry_current
  retry_decision operation_id time log = elim (lookup operation_id log.states) [
    | none ↦ err unknown_operation
    | some current ↦ retry_current current operation_id time log
  ]

  unfoldable pub finish_current :
      OperationState → String → OperationStatus → Option String → ℕ → Log → Decision
  finish_current current operation_id status error_code time log =
      if status_beq current.status status
        && (not (status_beq status failed) || option_beq current.error_code error_code)
      then ok (current, none)
      else if not (status_beq current.status started)
      then err wrong_transition
      else if ltb time current.started_at
      then err integrity
      else let event =
          new_event codec log.events operation_id current.attempt current.action current.target
            status time error_code in
        ok (terminal_state current event.body time, some event)

  unfoldable pub finish_decision : String → OperationStatus → Option String → ℕ → Log → Decision
  unfolding finish_current
  finish_decision operation_id status error_code time log = elim (lookup operation_id log.states) [
    | none ↦ err unknown_operation
    | some current ↦ finish_current current operation_id status error_code time log
  ]

  unfoldable pub begin :
      String
      → String
      → String
      → Option DateTime
      → Environment
      → Method JournalError (List (Line Raw)) OperationState
  unfolding begin_checks
  begin operation_id action target occurred_at env =
      checked (begin_checks operation_id action target occurred_at env.clock)
        λ time. transact env.writing (begin_decision operation_id action target time)

  unfoldable pub retry :
      String → Option DateTime → Environment → Method JournalError (List (Line Raw)) OperationState
  unfolding id_checks
  retry operation_id occurred_at env =
      checked (id_checks operation_id occurred_at env.clock)
        λ time. transact env.writing (retry_decision operation_id time)

  -- `_finish`
  unfoldable pub finish :
      String
      → OperationStatus
      → Option String
      → Option DateTime
      → Environment
      → Method JournalError (List (Line Raw)) OperationState
  unfolding id_checks
  finish operation_id status error_code occurred_at env =
      checked (id_checks operation_id occurred_at env.clock)
        λ time. transact env.writing (finish_decision operation_id status error_code time)

  unfoldable pub succeed :
      String → Option DateTime → Environment → Method JournalError (List (Line Raw)) OperationState
  unfolding finish
  succeed operation_id occurred_at env = finish operation_id succeeded none occurred_at env

  unfoldable pub fail :
      String
      → String
      → Option DateTime
      → Environment
      → Method JournalError (List (Line Raw)) OperationState
  unfolding finish
  fail operation_id error_code occurred_at env =
      checked (validate_error_code error_code)
        λ _. finish operation_id failed (some error_code) occurred_at env

  -- `state(operation_id)`
  unfoldable pub state : String → List (Line Raw) → Result JournalError (Option OperationState)
  state operation_id lines = do
    validate_operation_id operation_id
    log ← read_and_verify codec lines
    ok (lookup operation_id log.states)

  -- `states()` and `pending()`
  unfoldable pub states : List (Line Raw) → Result JournalError (Dict String OperationState)
  states lines = do log ← read_and_verify codec lines; ok (sort_items log.states)

  unfoldable pub pending : List (Line Raw) → Result JournalError (List OperationState)
  unfolding states
  pending lines = do all ← states lines; ok (keep (λ s. status_beq s.status started) (values all))

  -- `verify`: the counts and the head, checked against a trusted one.
  unfoldable pub verify : Option String → List (Line Raw) → Result JournalError (ℕ × ℕ × ℕ × String)
  verify expected lines = do
    log ← read_and_verify codec lines
    guard (elim expected [ none ↦ true | some hash ↦ head_hash log.events == hash ]) integrity
    ok (
      length log.events,
      length log.states,
      length (keep (λ s. status_beq s.status started) (values log.states)),
      head_hash log.events,
    )
