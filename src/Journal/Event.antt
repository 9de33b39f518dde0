-- ===== src/Journal/Event.antt =====
-- src/plaik_core/operation_journal.py: events, the state of an operation, and the transition that
-- an event makes.
use plaik.Prelude.{
  ℕ, ◌+◌, String, Bool, true, false, ◌&&◌, ◌||◌, not, Option, none, some, ltb, leb, nat_beq, ◌==◌,
  string_eq, if◌then◌else◌,
}
use plaik.Prelude.Text.{codes, lower, digit, alphanumeric, head_tail}
use plaik.Prelude.Results.{Result, ok, err, guard, ◌>>=◌, ◌>>◌}
use plaik.Prelude.Time.{DateTime, as_utc}

-- The exceptions: invalid arguments (`ValueError`), and the journal's three kinds.
pub data JournalError : Type 0 where
  invalid_operation_id invalid_action invalid_target invalid_error_code : JournalError
  naive_timestamp oversized_event append_failed : JournalError
  integrity conflict : JournalError
  unknown_operation already_succeeded retry_too_early wrong_transition : JournalError

pub data OperationStatus : Type 0 where
  started succeeded failed : OperationStatus

abbrev pub status_beq : OperationStatus → OperationStatus → Bool
status_beq started started = true
status_beq succeeded succeeded = true
status_beq failed failed = true
status_beq _ _ = false

-- `_event_body`: what is signed.
pub record EventBody : Type 0 where
  pub sequence : ℕ
  pub operation_id : String
  pub attempt : ℕ
  pub action : String
  pub target : String
  pub status : OperationStatus
  pub occurred_at : DateTime
  pub error_code : Option String
  pub previous_hash : String

pub record OperationEvent : Type 0 where
  pub body : EventBody
  pub open body use *
  pub event_hash : String

pub record OperationState : Type 0 where
  pub operation_id : String
  pub attempt : ℕ
  pub action : String
  pub target : String
  pub status : OperationStatus
  pub started_at : ℕ
  pub finished_at : Option ℕ
  pub error_code : Option String
  pub last_sequence : ℕ

id_tail : ℕ → Bool
id_tail c = alphanumeric c || nat_beq c b'.' || nat_beq c b'_' || nat_beq c b':' || nat_beq c b'-'

target_tail : ℕ → Bool
unfolding id_tail
target_tail c = id_tail c || nat_beq c b'/'

name_tail : ℕ → Bool
name_tail c =
    lower c || digit c || nat_beq c b'_' || nat_beq c b'.' || nat_beq c b':' || nat_beq c b'-'

code_tail : ℕ → Bool
code_tail c = lower c || digit c || nat_beq c b'_' || nat_beq c b'.' || nat_beq c b'-'

unfoldable pub validate_operation_id : String → Result JournalError (Unit {0})
unfolding id_tail head_tail
validate_operation_id value =
    guard (head_tail alphanumeric id_tail 7 127 (codes value)) invalid_operation_id

unfoldable pub validate_action : String → Result JournalError (Unit {0})
unfolding name_tail head_tail
validate_action value = guard (head_tail lower name_tail 1 127 (codes value)) invalid_action

unfoldable pub validate_target : String → Result JournalError (Unit {0})
unfolding target_tail head_tail
validate_target value =
    guard (head_tail alphanumeric target_tail 1 255 (codes value)) invalid_target

unfoldable pub validate_error_code : String → Result JournalError (Unit {0})
unfolding code_tail head_tail
validate_error_code value = guard (head_tail lower code_tail 1 127 (codes value)) invalid_error_code

-- A failed event has a valid error code, and no other event has one.
unfoldable pub check_code : OperationStatus → Option String → Result JournalError (Unit {0})
check_code failed none = err integrity
check_code failed (some code) = validate_error_code code
check_code started none = ok tt
check_code started (some _) = err integrity
check_code succeeded none = ok tt
check_code succeeded (some _) = err integrity

-- `_validate_event_fields`; the result is the instant of `occurred_at`.
unfoldable pub validate_event_fields : EventBody → Result JournalError ℕ
unfolding check_code as_utc
validate_event_fields e = do
  validate_operation_id e.operation_id
  validate_action e.action
  validate_target e.target
  guard (leb 1 e.attempt) integrity
  time ← as_utc integrity e.occurred_at
  check_code e.status e.error_code
  ok time

-- `_initial_state`, `_terminal_state`; `time` is the instant of the event.
unfoldable pub initial_state : EventBody → ℕ → OperationState
initial_state e time = record {
  operation_id = e.operation_id;
  attempt = e.attempt;
  action = e.action;
  target = e.target;
  status = started;
  started_at = time;
  finished_at = none;
  error_code = none;
  last_sequence = e.sequence;
}

unfoldable pub terminal_state : OperationState → EventBody → ℕ → OperationState
terminal_state s e time = record s {
  status = e.status;
  finished_at = some time;
  error_code = e.error_code;
  last_sequence = e.sequence;
}

-- `current.finished_at is None or time < current.finished_at`
abbrev pub is_too_early : Option ℕ → ℕ → Bool
is_too_early none time = true
is_too_early (some finished) time = ltb time finished

-- The transition of a valid event at an operation that has begun.
unfoldable pub next_state : OperationState → EventBody → ℕ → Result JournalError OperationState
unfolding initial_state terminal_state
next_state s e time =
    if not (s.action == e.action && s.target == e.target)
    then err integrity
    else if status_beq e.status started
    then (if not (status_beq s.status failed)
        then err integrity
        else if not (nat_beq e.attempt (s.attempt + 1))
        then err integrity
        else if is_too_early s.finished_at time
        then err integrity
        else ok (initial_state e time))
    else if not (status_beq s.status started && nat_beq e.attempt s.attempt)
    then err integrity
    else if ltb time s.started_at
    then err integrity
    else ok (terminal_state s e time)

-- `_apply_event`, after the fields are checked.
unfoldable pub transition :
    Option OperationState → EventBody → ℕ → Result JournalError OperationState
unfolding next_state initial_state
transition none e time =
    if status_beq e.status started && nat_beq e.attempt 1
    then ok (initial_state e time)
    else err integrity
transition (some s) e time = next_state s e time

unfoldable pub apply_event : Option OperationState → EventBody → Result JournalError OperationState
unfolding transition validate_event_fields
apply_event current e = do time ← validate_event_fields e; transition current e time
