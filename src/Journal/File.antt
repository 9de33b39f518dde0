-- ===== src/Journal/File.antt =====
-- src/plaik_core/operation_journal.py: the journal file, its verification and the append.
use plaik.Prelude.{
  ℕ, suc, ◌≡◌, String, Option, none, some, List, [], ◌∷◌, ◌++◌, ltb, leb, nat_beq, ◌==◌, string_eq,
  if◌then◌else◌, length,
}
use plaik.Prelude.Dict.{Dict, lookup, insert}
use plaik.Prelude.Results.{Result, ok, err, guard, ◌>>=◌, ◌>>◌, Method}
use plaik.Prelude.Time.{aware}
use plaik.Journal.Event.{
  JournalError, oversized_event, append_failed, integrity, OperationStatus, EventBody,
  OperationEvent, OperationState, apply_event,
}

-- `GENESIS_HASH`
abbrev pub genesis_hash : String
genesis_hash = "0000000000000000000000000000000000000000000000000000000000000000"

abbrev pub max_operation_record_bytes : ℕ
max_operation_record_bytes = 16384

-- The bytes that the file has between its newlines, or the last ones, with no newline.
pub data Line (Raw : Type 0) : Type 0 where
  whole : Raw → Line Raw
  torn : Line Raw

-- The keyed signature of a body, the line that is written for an event, the event that the bytes of
-- a line are decoded to, if they are, and their number with the newline: JSON, HMAC-SHA256 and the
-- validation of the event's fields. What was written for an event is decoded to it.
pub record Codec (Raw : Type 0) : Type 0 where
  pub sign : EventBody → String
  pub encode : OperationEvent → Raw
  pub decode : Raw → Option OperationEvent
  pub size : Raw → ℕ
  pub decode-encode : (e : OperationEvent) → decode (encode e) ≡ some e

-- How the writing of a line goes: it does, no byte is written, some bytes are, or all are and
-- `fsync` fails.
pub data Writing : Type 0 where
  written unwritten cut unsynced : Writing

-- The reading of the clock, where no time is given, and how a write goes, if there is one.
pub record Environment : Type 0 where
  pub clock : ℕ
  pub writing : Writing

-- The events that were read, the newest first, and the state of each operation.
pub record Log : Type 0 where
  pub events : List OperationEvent
  pub states : Dict String OperationState

abbrev pub empty_log : Log
empty_log = record { events = []; states = [] }

-- `events[-1].event_hash if events else GENESIS_HASH`
abbrev pub head_hash : List OperationEvent → String
head_hash [] = genesis_hash
head_hash (e ∷ _) = e.event_hash

module _ {Raw : Type 0} (codec : Codec Raw) where
  open codec use {sign, encode, decode, size}

  -- `OperationEvent.model_validate(json.loads(line))`
  unfoldable pub decoded : Raw → Result JournalError OperationEvent
  decoded raw = elim (decode raw) [ none ↦ err integrity | some e ↦ ok e ]

  -- The checks of a decoded event.
  unfoldable pub accept_event : Log → OperationEvent → Result JournalError Log
  accept_event log e = do
    guard (nat_beq e.sequence (suc (length log.events))) integrity
    guard (e.previous_hash == head_hash log.events) integrity
    guard (e.event_hash == sign e.body) integrity
    state ← apply_event (lookup e.operation_id log.states) e.body
    ok (record { events = e ∷ log.events; states = insert e.operation_id state log.states })

  -- One round of the loop of `_read_and_verify`.
  unfoldable pub accept : Log → Raw → Result JournalError Log
  unfolding decoded accept_event
  accept log raw = do
    guard (leb (size raw) max_operation_record_bytes) integrity
    e ← decoded raw
    accept_event log e

  unfoldable pub verify_from : Log → List (Line Raw) → Result JournalError Log
  unfolding accept
  verify_from log [] = ok log
  verify_from log (whole raw ∷ lines) = accept log raw >>= λ log'. verify_from log' lines
  verify_from log (torn ∷ lines) = err integrity

  unfoldable pub as_integrity : Result JournalError Log → Result JournalError Log
  as_integrity (ok log) = ok log
  as_integrity (err _) = err integrity

  -- `_read_and_verify`: every failure is an integrity error.
  unfoldable pub read_and_verify : List (Line Raw) → Result JournalError Log
  unfolding verify_from as_integrity
  read_and_verify lines = as_integrity (verify_from empty_log lines)

  -- `_new_event`
  unfoldable pub new_event :
      List OperationEvent
      → String
      → ℕ
      → String
      → String
      → OperationStatus
      → ℕ
      → Option String
      → OperationEvent
  new_event events operation_id attempt action target status time error_code =
      let body : EventBody = record {
        sequence = suc (length events);
        operation_id = operation_id;
        attempt = attempt;
        action = action;
        target = target;
        status = status;
        occurred_at = aware time;
        error_code = error_code;
        previous_hash = head_hash events;
      } in
      record { body = body; event_hash = sign body }

  -- `_append_line`
  unfoldable pub append_line :
      OperationEvent → Writing → Method JournalError (List (Line Raw)) (Unit {0})
  append_line e writing lines =
      if ltb max_operation_record_bytes (size (encode e))
      then (err oversized_event, lines)
      else elim writing [
        | written ↦ (ok tt, lines ++ whole (encode e) ∷ [])
        | unwritten ↦ (err append_failed, lines)
        | cut ↦ (err append_failed, lines ++ torn ∷ [])
        | unsynced ↦ (err append_failed, lines ++ whole (encode e) ∷ [])
      ]
