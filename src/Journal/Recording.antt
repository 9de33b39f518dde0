-- ===== src/Journal/Recording.antt =====
-- src/plaik_core/operation_journal.py, `OperationJournal`: the operations keep a journal that
-- verifies, and record what they return.
use plaik.Prelude.{
  ℕ, ◌+◌, ◌≡◌, refl, sym, ◌∙◌, ap, String, true, false, Option, none, some, List, arith, string_eq,
  eq_iff, inl, inr, ltb, ◌⊎◌, Option-cases,
}
use plaik.Prelude.Dict.{lookup, Every-lookup}
use plaik.Prelude.Results.{ok, Result-cases}
use plaik.Prelude.Time.{DateTime}
use plaik.Journal.Event.{
  OperationEvent, OperationState, OperationStatus, started, succeeded, failed, status_beq,
  validate_operation_id, validate_action, validate_target, validate_error_code, check_code,
  transition, next_state, initial_state, terminal_state, is_too_early,
}
use plaik.Journal.File.{Line, Codec, Environment, Log, read_and_verify, new_event}
use plaik.Journal.Operations.{
  transact, begin_decision, retry_current, retry_decision, finish_current, finish_decision,
  begin_checks, id_checks, begin, retry, succeed, fail, finish,
}
use plaik.Journal.Sanity.{IsSane, verified-IsSane, Follows, IsSound}
use plaik.Journal.Durability.{Recorded, transact-Recorded, new_event-Follows}

module _ {Raw : Type 0} (codec : Codec Raw) where
  first_transition :
      (log : Log) (k action target : String) (time : ℕ)
      → let e = new_event codec log.events k 1 action target started time none in
        transition none e.body time ≡ ok (initial_state e.body time)
  unfolding transition new_event
  first_transition log k action target time = refl

  retry_transition :
      (log : Log) (k : String) (x : OperationState) (time : ℕ)
      → status_beq x.status started ≡ false
      → status_beq x.status succeeded ≡ false
      → is_too_early x.finished_at time ≡ false
      → let e = new_event codec log.events k (x.attempt + 1) x.action x.target started time none in
        transition (some x) e.body time ≡ ok (initial_state e.body time)
  unfolding transition next_state new_event
  retry_transition log k x time a b c =
      ground (arith, eq_iff x.action x.action, eq_iff x.target x.target)

  finish_transition :
      (log : Log) (k : String) (x : OperationState) (status : OperationStatus)
      (code : Option String) (time : ℕ)
      → status_beq status started ≡ false
      → status_beq x.status started ≡ true
      → ltb time x.started_at ≡ false
      → let e = new_event codec log.events k x.attempt x.action x.target status time code in
        transition (some x) e.body time ≡ ok (terminal_state x e.body time)
  unfolding transition next_state new_event
  finish_transition log k x status code time a b c =
      ground (arith, eq_iff x.action x.action, eq_iff x.target x.target)

  retry_current_cases :
      (x : OperationState) (k : String) (time : ℕ) (log : Log) (s : OperationState)
      (w : Option OperationEvent)
      → let e = new_event codec log.events k (x.attempt + 1) x.action x.target started time none in
        retry_current codec x k time log ≡ ok (s, w)
        → ((s ≡ x) × (w ≡ none))
          ⊎ ((status_beq x.status started ≡ false)
              × (status_beq x.status succeeded ≡ false)
              × (is_too_early x.finished_at time ≡ false)
              × (initial_state e.body time ≡ s)
              × (w ≡ some e))
  unfolding retry_current
  retry_current_cases x k time log s w h = ground arith

  finish_current_cases :
      (x : OperationState) (k : String) (status : OperationStatus) (code : Option String) (time : ℕ)
      (log : Log) (s : OperationState) (w : Option OperationEvent)
      → let e = new_event codec log.events k x.attempt x.action x.target status time code in
        finish_current codec x k status code time log ≡ ok (s, w)
        → ((s ≡ x) × (w ≡ none))
          ⊎ ((status_beq x.status started ≡ true)
              × (ltb time x.started_at ≡ false)
              × (terminal_state x e.body time ≡ s)
              × (w ≡ some e))
  unfolding finish_current
  finish_current_cases x k status code time log s w h = ground arith

  -- A decision that returns the state of the log, or the state after one new event.
  kept-IsSound :
      (log : Log) (k : String) (x s : OperationState) (w : Option OperationEvent)
      → lookup k log.states ≡ some x
      → s ≡ x
      → w ≡ none
      → IsSound codec log k s w
  kept-IsSound log k x s w e p q = record {
    unchanged = λ _. e ∙ ap some (sym p);
    appended = λ f r. absurd (ground arith);
  }

  event-IsSound :
      (log : Log) (k : String) (s : OperationState) (w : Option OperationEvent) (e : OperationEvent)
      → w ≡ some e
      → Follows codec log k e s
      → IsSound codec log k s w
  event-IsSound log k s w e p f = record {
    unchanged = λ q. absurd (ground arith);
    appended = λ g q. let same : e ≡ g = ground arith in rw (← same) f;
  }

  begin-IsSound :
      (k action target : String) (time : ℕ) (log : Log) (s : OperationState)
      (w : Option OperationEvent)
      → validate_operation_id k ≡ ok tt
      → validate_action action ≡ ok tt
      → validate_target target ≡ ok tt
      → begin_decision codec k action target time log ≡ ok (s, w)
      → IsSound codec log k s w
  unfolding begin_decision check_code
  begin-IsSound k action target time log s w a b c h = elim (Option-cases (lookup k log.states)) [
    | inr (x, e) ↦ kept-IsSound log k x s w e (ground arith) (ground arith)
    | inl e ↦
        let new = new_event codec log.events k 1 action target started time none in
        let state : initial_state new.body time ≡ s = ground arith in
        event-IsSound log k s w new (ground arith) (
          rw (← state) (
            new_event-Follows codec log k 1 action target started time none
              (initial_state new.body time) a b c (omega arith) refl
              (rw e (first_transition log k action target time))))
  ]

  retry-IsSound :
      (k : String) (time : ℕ) (log : Log) (s : OperationState) (w : Option OperationEvent)
      → ((x : OperationState) → lookup k log.states ≡ some x → IsSane k x)
      → retry_decision codec k time log ≡ ok (s, w)
      → IsSound codec log k s w
  unfolding retry_decision check_code
  retry-IsSound k time log s w sane h = elim (Option-cases (lookup k log.states)) [
    | inl e ↦ absurd (ground arith)
    | inr (x, e) ↦
        let v = sane x e in
        let h' : retry_current codec x k time log ≡ ok (s, w) = rw (e, retry_decision) at h in
        elim (retry_current_cases x k time log s w h') [
          | inl (p, q) ↦ kept-IsSound log k x s w e p q
          | inr (p, q, r, state, new) ↦ event-IsSound log k s w _ new (
              rw (← state) (
                new_event-Follows codec log k (x.attempt + 1) x.action x.target started time none _
                  v.id_valid v.action_valid v.target_valid (omega arith) refl
                  (rw e (retry_transition log k x time p q r))))
        ]
  ]

  finish-IsSound :
      (k : String) (status : OperationStatus) (code : Option String) (time : ℕ) (log : Log)
      (s : OperationState) (w : Option OperationEvent)
      → ((x : OperationState) → lookup k log.states ≡ some x → IsSane k x)
      → check_code status code ≡ ok tt
      → status_beq status started ≡ false
      → finish_decision codec k status code time log ≡ ok (s, w)
      → IsSound codec log k s w
  unfolding finish_decision
  finish-IsSound k status code time log s w sane c t h = elim (Option-cases (lookup k log.states)) [
    | inl e ↦ absurd (ground arith)
    | inr (x, e) ↦
        let v = sane x e in
        let h' : finish_current codec x k status code time log ≡ ok (s, w) =
          rw (e, finish_decision) at h in
        elim (finish_current_cases x k status code time log s w h') [
          | inl (p, q) ↦ kept-IsSound log k x s w e p q
          | inr (p, q, state, new) ↦ event-IsSound log k s w _ new (
              rw (← state) (
                new_event-Follows codec log k x.attempt x.action x.target status time code _
                  v.id_valid v.action_valid v.target_valid v.attempt_positive c
                  (rw e (finish_transition log k x status code time t p q))))
        ]
  ]

  IsSane-at :
      (lines : List (Line Raw)) (log : Log) (k : String)
      → read_and_verify codec lines ≡ ok log
      → (x : OperationState) → lookup k log.states ≡ some x
      → IsSane k x
  IsSane-at lines log k h x e =
      Every-lookup IsSane k log.states (verified-IsSane codec lines log h) e

  begin_valid :
      (k action target : String) (now : Option DateTime) (clock t : ℕ)
      → begin_checks k action target now clock ≡ ok t
      → (validate_operation_id k ≡ ok tt)
        × (validate_action action ≡ ok tt)
        × (validate_target target ≡ ok tt)
  unfolding begin_checks
  begin_valid k action target now clock t h = ground arith

  -- A `begin` that returns leaves a journal that verifies and that has the returned state for the
  -- operation, and it appends one line at most.
  pub begin-Recorded :
      (k action target : String) (now : Option DateTime) (env : Environment)
      (lines lines' : List (Line Raw)) (s : OperationState)
      → begin codec k action target now env lines ≡ (ok s, lines')
      → Recorded codec k lines s lines'
  unfolding begin
  begin-Recorded k action target now env lines lines' s h =
      elim (Result-cases (begin_checks k action target now env.clock)) [
        | inr (x, e) ↦ absurd (ground arith)
        | inl (t, e) ↦
            let (a, b, c) = begin_valid k action target now env.clock t e in
            transact-Recorded codec k env.writing (begin_decision codec k action target t) lines
              lines' s (λ log s' w _. begin-IsSound k action target t log s' w a b c)
              (let h' : transact codec env.writing (begin_decision codec k action target t) lines
                    ≡ (ok s, lines') =
                  ground arith in
                h')
      ]

  -- A `retry` that returns leaves a journal that verifies and that has the returned state for the
  -- operation, and it appends one line at most.
  pub retry-Recorded :
      (k : String) (now : Option DateTime) (env : Environment) (lines lines' : List (Line Raw))
      (s : OperationState)
      → retry codec k now env lines ≡ (ok s, lines')
      → Recorded codec k lines s lines'
  unfolding retry
  retry-Recorded k now env lines lines' s h = elim (Result-cases (id_checks k now env.clock)) [
    | inr (x, e) ↦ absurd (ground arith)
    | inl (t, e) ↦
        transact-Recorded codec k env.writing (retry_decision codec k t) lines lines' s
          (λ log s' w r. retry-IsSound k t log s' w (IsSane-at lines log k r))
          (let h' : transact codec env.writing (retry_decision codec k t) lines ≡ (ok s, lines') =
              ground arith in
            h')
  ]

  finish-Recorded :
      (k : String) (status : OperationStatus) (code : Option String) (now : Option DateTime)
      (env : Environment) (lines lines' : List (Line Raw)) (s : OperationState)
      → check_code status code ≡ ok tt
      → status_beq status started ≡ false
      → finish codec k status code now env lines ≡ (ok s, lines')
      → Recorded codec k lines s lines'
  unfolding finish
  finish-Recorded k status code now env lines lines' s c d h =
      elim (Result-cases (id_checks k now env.clock)) [
        | inr (x, e) ↦ absurd (ground arith)
        | inl (t, e) ↦
            transact-Recorded codec k env.writing (finish_decision codec k status code t) lines
              lines' s
              (λ log s' w r. finish-IsSound k status code t log s' w (IsSane-at lines log k r) c d)
              (let h' : transact codec env.writing (finish_decision codec k status code t) lines
                    ≡ (ok s, lines') =
                  ground arith in
                h')
      ]

  -- A `succeed` that returns leaves a journal that verifies and that has the returned state for the
  -- operation, and it appends one line at most.
  pub succeed-Recorded :
      (k : String) (now : Option DateTime) (env : Environment) (lines lines' : List (Line Raw))
      (s : OperationState)
      → succeed codec k now env lines ≡ (ok s, lines')
      → Recorded codec k lines s lines'
  unfolding succeed check_code
  succeed-Recorded k now env lines lines' s h =
      finish-Recorded k succeeded none now env lines lines' s refl refl h

  -- A `fail` that returns leaves a journal that verifies and that has the returned state for the
  -- operation, and it appends one line at most.
  pub fail-Recorded :
      (k code : String) (now : Option DateTime) (env : Environment) (lines lines' : List (Line Raw))
      (s : OperationState)
      → fail codec k code now env lines ≡ (ok s, lines')
      → Recorded codec k lines s lines'
  unfolding fail check_code
  fail-Recorded k code now env lines lines' s h = elim (Result-cases (validate_error_code code)) [
    | inr (x, e) ↦ absurd (ground arith)
    | inl (t, e) ↦ finish-Recorded k failed (some code) now env lines lines' s e refl (
        let h' : finish codec k failed (some code) now env lines ≡ (ok s, lines') = ground arith in
        h')
  ]
