-- ===== src/Journal/Calls.antt =====
-- src/plaik_core/operation_journal.py, `OperationJournal`: any calls of the operations that write.
use plaik.Prelude.{
  ◌≡◌, refl, sym, ◌∙◌, ap, String, Option, List, [], ◌∷◌, ◌++◌, append-nil, append_assoc, arith,
  inl, inr, none, some, ◌⊎◌, false, Bool-cases, ltb,
}
use plaik.Prelude.Results.{Result, ok, err, Result-cases, Method, checked}
use plaik.Prelude.Time.{DateTime}
use plaik.Journal.Event.{
  JournalError, integrity, OperationEvent, OperationState, succeeded, failed, validate_error_code,
}
use plaik.Journal.File.{
  whole, as_integrity, verify_from, empty_log, Line, torn, Codec, Writing, written, unwritten, cut,
  unsynced, Environment, max_operation_record_bytes, Log, read_and_verify, append_line,
}
use plaik.Journal.Operations.{
  begin_checks, id_checks, begin_decision, retry_decision, finish_decision, Decision, perform,
  transact, begin, retry, finish, succeed, fail,
}
use plaik.Journal.Chain.{read_and_verify_ok}
use plaik.Journal.Sanity.{verify_from-append}
use plaik.Journal.Durability.{Recorded}
use plaik.Journal.Recording.{begin-Recorded, retry-Recorded, succeed-Recorded, fail-Recorded}

-- A call, with its arguments and the reading of the clock.
pub data Call : Type 0 where
  begin_call : String → String → String → Option DateTime → Environment → Call
  retry_call : String → Option DateTime → Environment → Call
  succeed_call : String → Option DateTime → Environment → Call
  fail_call : String → String → Option DateTime → Environment → Call

abbrev pub operation_of : Call → String
operation_of (begin_call k action target now env) = k
operation_of (retry_call k now env) = k
operation_of (succeed_call k now env) = k
operation_of (fail_call k code now env) = k

module _ {Raw : Type 0} (codec : Codec Raw) where
  unfoldable pub call : Call → Method JournalError (List (Line Raw)) OperationState
  unfolding begin retry succeed fail
  call (begin_call k action target now env) = begin codec k action target now env
  call (retry_call k now env) = retry codec k now env
  call (succeed_call k now env) = succeed codec k now env
  call (fail_call k code now env) = fail codec k code now env

  unfoldable pub call_all : List Call → List (Line Raw) → List (Line Raw)
  unfolding call
  call_all [] lines = lines
  call_all (c ∷ calls) lines = call_all calls (call c lines).1

  -- A `begin`, `retry`, `succeed` or `fail` that returns leaves a journal that verifies and that has
  -- the returned state for the operation, and it appends one line at most.
  pub call-Recorded :
      (c : Call) (lines lines' : List (Line Raw)) (s : OperationState)
      → call c lines ≡ (ok s, lines')
      → Recorded codec (operation_of c) lines s lines'
  unfolding call
  call-Recorded (begin_call k action target now env) lines lines' s h =
      begin-Recorded codec k action target now env lines lines' s h
  call-Recorded (retry_call k now env) lines lines' s h =
      retry-Recorded codec k now env lines lines' s h
  call-Recorded (succeed_call k now env) lines lines' s h =
      succeed-Recorded codec k now env lines lines' s h
  call-Recorded (fail_call k code now env) lines lines' s h =
      fail-Recorded codec k code now env lines lines' s h

  -- The call, if its write goes well.
  abbrev with_write : Call → Call
  with_write (begin_call k action target now env) =
      begin_call k action target now (record env { writing = written })
  with_write (retry_call k now env) = retry_call k now (record env { writing = written })
  with_write (succeed_call k now env) = succeed_call k now (record env { writing = written })
  with_write (fail_call k code now env) = fail_call k code now (record env { writing = written })

  abbrev Journal : Type 0
  Journal = Method JournalError (List (Line Raw)) OperationState

  -- However the write goes, the lines that `m` leaves are those that were there, these with a torn
  -- line, or those that it leaves if the write goes well, which is `n`.
  abbrev Leaves : Journal → Journal → Type 0
  Leaves m n =
      (lines : List (Line Raw))
      → ((m lines).1 ≡ lines) ⊎ (((m lines).1 ≡ lines ++ torn ∷ []) ⊎ ((m lines).1 ≡ (n lines).1))

  append-Leaves :
      (w : Writing) (e : OperationEvent) (lines : List (Line Raw))
      → ((append_line codec e w lines).1 ≡ lines)
        ⊎ (((append_line codec e w lines).1 ≡ lines ++ torn ∷ [])
            ⊎ ((append_line codec e w lines).1 ≡ (append_line codec e written lines).1))
  unfolding append_line
  append-Leaves w e lines =
      elim (Bool-cases (ltb max_operation_record_bytes (codec.size (codec.encode e)))) [
        | inl p ↦ rw p (inl refl)
        | inr p ↦ fits w p
      ]
    where
      fits :
          (w : Writing)
          → ltb max_operation_record_bytes (codec.size (codec.encode e)) ≡ false
          → ((append_line codec e w lines).1 ≡ lines)
            ⊎ (((append_line codec e w lines).1 ≡ lines ++ torn ∷ [])
                ⊎ ((append_line codec e w lines).1 ≡ (append_line codec e written lines).1))
      fits written p = inr (inr refl)
      fits unwritten p = rw p (inl refl)
      fits cut p = rw p (inr (inl refl))
      fits unsynced p = rw p (inr (inr refl))

  perform-Leaves :
      (w : Writing) (d : Decision) → Leaves (perform codec w d) (perform codec written d)
  perform-Leaves w (err e) lines = inl refl
  perform-Leaves w (ok (s, none)) lines = inl refl
  perform-Leaves w (ok (s, some e)) lines = append-Leaves w e lines

  transact-Leaves :
      (w : Writing) (decide : Log → Decision)
      → Leaves (transact codec w decide) (transact codec written decide)
  unfolding transact
  transact-Leaves w decide lines = perform-Leaves w _ lines

  checked-Leaves :
      {A : Type 0} (r : Result JournalError A) (f g : A → Journal)
      → ((a : A) → Leaves (f a) (g a))
      → Leaves (checked r f) (checked r g)
  checked-Leaves (ok a) f g k lines = k a lines
  checked-Leaves (err e) f g k lines = inl refl

  call-Leaves : (c : Call) → Leaves (call c) (call (with_write c))
  unfolding call begin retry succeed fail finish
  call-Leaves (begin_call k action target now env) =
      checked-Leaves (begin_checks k action target now env.clock) _ _
        λ time. transact-Leaves env.writing (begin_decision codec k action target time)
  call-Leaves (retry_call k now env) =
      checked-Leaves (id_checks k now env.clock) _ _
        λ time. transact-Leaves env.writing (retry_decision codec k time)
  call-Leaves (succeed_call k now env) =
      checked-Leaves (id_checks k now env.clock) _ _
        λ time. transact-Leaves env.writing (finish_decision codec k succeeded none time)
  call-Leaves (fail_call k code now env) = checked-Leaves (validate_error_code code) _ _ λ u.
      checked-Leaves (id_checks k now env.clock) _ _
        λ time. transact-Leaves env.writing (finish_decision codec k failed (some code) time)

  -- A method that leaves the lines as they are when it raises.
  abbrev Rolls : Journal → Type 0
  Rolls m = (lines : List (Line Raw)) (x : JournalError) → (m lines).0 ≡ err x → (m lines).1 ≡ lines

  perform-Rolls : (d : Decision) → Rolls (perform codec written d)
  unfolding append_line
  perform-Rolls (err e) lines x h = refl
  perform-Rolls (ok (s, none)) lines x h = refl
  perform-Rolls (ok (s, some e)) lines x h =
      elim (Bool-cases (ltb max_operation_record_bytes (codec.size (codec.encode e)))) [
        | inl p ↦ rw p refl
        | inr p ↦ absurd (ground (arith, h, p))
      ]

  transact-Rolls : (decide : Log → Decision) → Rolls (transact codec written decide)
  unfolding transact
  transact-Rolls decide lines x h = perform-Rolls _ lines x h

  checked-Rolls :
      {A : Type 0} (r : Result JournalError A) (f : A → Journal)
      → ((a : A) → Rolls (f a))
      → Rolls (checked r f)
  checked-Rolls (ok a) f k lines x h = k a lines x h
  checked-Rolls (err e) f k lines x h = refl

  call-Rolls : (c : Call) → Rolls (call (with_write c))
  unfolding call begin retry succeed fail finish
  call-Rolls (begin_call k action target now env) =
      checked-Rolls (begin_checks k action target now env.clock) _
        λ time. transact-Rolls (begin_decision codec k action target time)
  call-Rolls (retry_call k now env) =
      checked-Rolls (id_checks k now env.clock) _
        λ time. transact-Rolls (retry_decision codec k time)
  call-Rolls (succeed_call k now env) =
      checked-Rolls (id_checks k now env.clock) _
        λ time. transact-Rolls (finish_decision codec k succeeded none time)
  call-Rolls (fail_call k code now env) = checked-Rolls (validate_error_code code) _ λ u.
      checked-Rolls (id_checks k now env.clock) _
        λ time. transact-Rolls (finish_decision codec k failed (some code) time)

  -- A journal that cannot be verified stays as it is.
  abbrev Stays : Journal → Type 0
  Stays m =
      (lines : List (Line Raw)) (x : JournalError)
      → read_and_verify codec lines ≡ err x
      → (m lines).1 ≡ lines

  transact-Stays : (w : Writing) (decide : Log → Decision) → Stays (transact codec w decide)
  unfolding transact
  transact-Stays w decide lines x h = rw h refl

  checked-Stays :
      {A : Type 0} (r : Result JournalError A) (f : A → Journal)
      → ((a : A) → Stays (f a))
      → Stays (checked r f)
  checked-Stays (ok a) f k lines x h = k a lines x h
  checked-Stays (err e) f k lines x h = refl

  call-Stays : (c : Call) → Stays (call c)
  unfolding call begin retry succeed fail finish
  call-Stays (begin_call k action target now env) =
      checked-Stays (begin_checks k action target now env.clock) _
        λ time. transact-Stays env.writing (begin_decision codec k action target time)
  call-Stays (retry_call k now env) =
      checked-Stays (id_checks k now env.clock) _
        λ time. transact-Stays env.writing (retry_decision codec k time)
  call-Stays (succeed_call k now env) =
      checked-Stays (id_checks k now env.clock) _
        λ time. transact-Stays env.writing (finish_decision codec k succeeded none time)
  call-Stays (fail_call k code now env) = checked-Stays (validate_error_code code) _ λ u.
      checked-Stays (id_checks k now env.clock) _
        λ time. transact-Stays env.writing (finish_decision codec k failed (some code) time)

  -- A journal that verifies, or one that verifies but for a torn line at its end.
  pub data IsKept (lines : List (Line Raw)) : Type 0 where
    verifies : (log : Log) → read_and_verify codec lines ≡ ok log → IsKept lines
    ends_torn :
        (before : List (Line Raw)) (log : Log)
        → read_and_verify codec before ≡ ok log
        → lines ≡ before ++ torn ∷ []
        → IsKept lines

  -- It has the lines of an earlier one, in their places.
  pub record Extends (lines lines' : List (Line Raw)) : Type 0 where
    pub kept : IsKept lines'
    pub rest : List (Line Raw)
    pub appended : lines' ≡ lines ++ rest

  same-Extends :
      (lines lines' : List (Line Raw)) → lines' ≡ lines → IsKept lines → Extends lines lines'
  same-Extends lines lines' same k = record {
    kept = rw same k;
    rest = [];
    appended = same ∙ sym (append-nil lines);
  }

  Recorded-Extends :
      (k : String) (lines lines' : List (Line Raw)) (s : OperationState)
      → Recorded codec k lines s lines'
      → Extends lines lines'
  Recorded-Extends k lines lines' s r = elim r.extends [
    | inl p ↦ record {
      kept = verifies r.log r.verifies;
      rest = [];
      appended = p ∙ sym (append-nil lines);
    }
    | inr (e, p) ↦ record {
      kept = verifies r.log r.verifies;
      rest = whole (codec.encode e) ∷ [];
      appended = p;
    }
  ]

  written-Extends :
      (c : Call) (lines : List (Line Raw)) (log : Log)
      → read_and_verify codec lines ≡ ok log
      → Extends lines (call (with_write c) lines).1
  written-Extends c lines log h =
      let after = (call (with_write c) lines).1 in
      elim (Result-cases (call (with_write c) lines).0) [
        | inr (x, e) ↦ same-Extends lines after (call-Rolls c lines x e) (verifies log h)
        | inl (s, e) ↦
            Recorded-Extends (operation_of (with_write c)) lines after s
              (call-Recorded (with_write c) lines after s (λ i. (e i, after)))
      ]

  torn_unread :
      (lines : List (Line Raw)) (log : Log)
      → read_and_verify codec lines ≡ ok log
      → read_and_verify codec (lines ++ torn ∷ []) ≡ err integrity
  unfolding read_and_verify as_integrity verify_from
  torn_unread lines log h =
      rw (verify_from-append codec empty_log lines log torn (read_and_verify_ok codec lines log h))
        refl

  call-Extends :
      (c : Call) (lines : List (Line Raw)) → IsKept lines → Extends lines (call c lines).1
  call-Extends c lines (verifies log h) = elim (call-Leaves c lines) [
    | inl p ↦ same-Extends lines (call c lines).1 p (verifies log h)
    | inr (inl p) ↦ record { kept = ends_torn lines log h p; rest = torn ∷ []; appended = p }
    | inr (inr p) ↦ rw p (written-Extends c lines log h)
  ]
  call-Extends c lines (ends_torn before log h p) =
      let unread : read_and_verify codec lines ≡ err integrity = rw p (torn_unread before log h) in
      same-Extends lines (call c lines).1 (call-Stays c lines integrity unread)
        (ends_torn before log h p)

  -- From a journal that verifies, or that verifies but for a torn line at its end, any calls, raising
  -- or not and however their writes go, leave one that has the lines which were there, in their
  -- places, and that verifies, or that verifies but for a torn line at its end.
  pub call_all-Extends :
      (calls : List Call) (lines : List (Line Raw))
      → IsKept lines
      → Extends lines (call_all calls lines)
  unfolding call_all
  call_all-Extends [] lines k = same-Extends lines lines refl k
  call_all-Extends (c ∷ calls) lines k =
      let x = call-Extends c lines k in
      let y = call_all-Extends calls (call c lines).1 x.kept in
      record {
        kept = y.kept;
        rest = x.rest ++ y.rest;
        appended =
            y.appended ∙ (ap (λ l. l ++ y.rest) x.appended ∙ append_assoc lines x.rest y.rest);
      }
