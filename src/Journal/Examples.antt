-- ===== src/Journal/Examples.antt =====
-- src/plaik_core/operation_journal.py: a journal in use, and the theorems at it.
use plaik.Prelude.{
  ℕ, ◌+◌, Option, ◌≡◌, refl, none, some, List, [], ◌∷◌, nat_beq, if◌then◌else◌, string_eq,
}
use plaik.Prelude.Dict.{lookup, insert}
use plaik.Prelude.Results.{ok}
use plaik.Prelude.Time.{aware, as_utc}
use plaik.Journal.Event.{
  OperationEvent, OperationState, started, succeeded, failed, validate_operation_id,
  validate_action, validate_target, validate_error_code, apply_event, initial_state, terminal_state,
}
use plaik.Journal.File.{
  Line, whole, Codec, Environment, written, cut, Log, read_and_verify, new_event, append_line,
}
use plaik.Journal.Operations.{
  transact, begin, begin_checks, begin_decision, retry, retry_decision, id_checks, finish,
  finish_decision, succeed, fail,
}
use plaik.Journal.Chain.{IsChain, NoCollision, read_and_verify-IsChain, head_determines_journal}
use plaik.Journal.Durability.{Recorded}
use plaik.Journal.Calls.{
  verifies, Call, fail_call, retry_call, call, call_all, Extends, call-Recorded, call_all-Extends,
}

-- A line is an event, if it can be decoded, and its number of blanks.
abbrev Raw : Type 0
Raw = Option OperationEvent × ℕ

abbrev codec : Codec Raw
codec = record {
  sign = λ b. if nat_beq b.sequence 1 then "one" else "more";
  encode = λ e. (some e, 0);
  decode = λ r. r.0;
  size = λ r. 200 + r.1;
  decode-encode = λ e. refl;
}

abbrev at : ℕ → Environment
at clock = record { clock = clock; writing = written }

abbrev begun : OperationState
begun = record {
  operation_id = "install-01";
  attempt = 1;
  action = "install";
  target = "catalog";
  status = started;
  started_at = 5;
  finished_at = none;
  error_code = none;
  last_sequence = 1;
}

abbrev first_line : Line Raw
first_line =
    whole (codec.encode (new_event codec [] "install-01" 1 "install" "catalog" started 5 none))

abbrev one_line : List (Line Raw)
one_line = first_line ∷ []

begin_first : begin codec "install-01" "install" "catalog" none (at 5) [] ≡ (ok begun, one_line)
unfolding begin begin_checks transact begin_decision read_and_verify lookup initial_state new_event
    append_line validate_operation_id validate_action validate_target as_utc
begin_first = refl

abbrev one_log : Log
one_log = record {
  events = new_event codec [] "install-01" 1 "install" "catalog" started 5 none ∷ [];
  states = ("install-01", begun) ∷ [];
}

one_line_verifies : read_and_verify codec one_line ≡ ok one_log
unfolding read_and_verify apply_event lookup insert initial_state new_event validate_operation_id
    validate_action validate_target
one_line_verifies = refl

read_and_verify-IsChain_example : IsChain codec one_log.events
read_and_verify-IsChain_example = read_and_verify-IsChain codec one_line one_log one_line_verifies

no_collision : NoCollision codec one_log.events one_log.events
no_collision = (λ _. refl, tt)

-- The same event with a blank in its line.
abbrev blank_line : List (Line Raw)
blank_line =
    whole (some (new_event codec [] "install-01" 1 "install" "catalog" started 5 none), 1) ∷ []

blank_line_verifies : read_and_verify codec blank_line ≡ ok one_log
unfolding read_and_verify apply_event lookup insert initial_state new_event validate_operation_id
    validate_action validate_target
blank_line_verifies = refl

head_determines_journal_example : one_log ≡ one_log
head_determines_journal_example =
    head_determines_journal codec one_line blank_line one_log one_log one_line_verifies
      blank_line_verifies no_collision refl

abbrev broken : OperationState
broken = record begun {
  status = failed;
  finished_at = some 9;
  error_code = some "disk.full";
  last_sequence = 2;
}

abbrev two_lines : List (Line Raw)
two_lines =
    first_line
    ∷ whole (
        codec.encode (
          new_event codec one_log.events "install-01" 1 "install" "catalog" failed 9
            (some "disk.full")))
    ∷ []

fail_first :
    fail codec "install-01" "disk.full" (some (aware 9)) (at 7) one_line ≡ (ok broken, two_lines)
unfolding fail finish id_checks transact finish_decision read_and_verify apply_event lookup insert
    initial_state terminal_state new_event append_line validate_operation_id validate_action
    validate_target validate_error_code as_utc
fail_first = refl

abbrev done : OperationState
done = record begun { status = succeeded; finished_at = some 9; last_sequence = 2 }

abbrev done_lines : List (Line Raw)
done_lines =
    first_line
    ∷ whole (
        codec.encode
          (new_event codec one_log.events "install-01" 1 "install" "catalog" succeeded 9 none))
    ∷ []

succeed_first : succeed codec "install-01" (some (aware 9)) (at 7) one_line ≡ (ok done, done_lines)
unfolding succeed finish id_checks transact finish_decision read_and_verify apply_event lookup
    insert initial_state terminal_state new_event append_line validate_operation_id validate_action
    validate_target as_utc
succeed_first = refl

retry_started : retry codec "install-01" none (at 7) one_line ≡ (ok begun, one_line)
unfolding retry id_checks transact retry_decision read_and_verify apply_event lookup insert
    initial_state new_event validate_operation_id validate_action validate_target as_utc
retry_started = refl

fail_called :
    call codec (fail_call "install-01" "disk.full" (some (aware 9)) (at 7)) one_line
    ≡ (ok broken, two_lines)
unfolding call
fail_called = fail_first

call-Recorded_example : Recorded codec "install-01" one_line broken two_lines
call-Recorded_example =
    call-Recorded codec (fail_call "install-01" "disk.full" (some (aware 9)) (at 7)) one_line
      two_lines broken fail_called

-- A failure, a retry whose line is torn, and a failure that finds it.
abbrev calls : List Call
calls =
    fail_call "install-01" "disk.full" (some (aware 9)) (at 7)
    ∷ retry_call "install-01" (some (aware 10)) (record { clock = 7; writing = cut })
    ∷ fail_call "install-01" "disk.full" (some (aware 11)) (at 7)
    ∷ []

call_all-Extends_example : Extends codec one_line (call_all codec calls one_line)
call_all-Extends_example =
    call_all-Extends codec calls one_line (verifies one_log one_line_verifies)
