-- ===== src/Journal/Sanity.antt =====
-- src/plaik_core/operation_journal.py: what a verified log knows of its operations, and which events
-- may follow it.
use mathlib.Core.Path.{subst}
use plaik.Prelude.{
  ℕ, suc, ◌≡◌, ◌≤◌, sym, ap, String, true, Option, none, some, List, [], ◌∷◌, ◌++◌, arith, length,
  string_eq, eq_iff, inl, inr, leb,
}
use plaik.Prelude.Dict.{lookup, insert, Every, Every-insert}
use plaik.Prelude.Results.{Result, ok, Result-cases}
use plaik.Prelude.Time.{aware, as_utc}
use plaik.Journal.Event.{
  JournalError, EventBody, OperationEvent, OperationState, apply_event, validate_operation_id,
  validate_action, validate_target, validate_event_fields, check_code, transition, next_state,
  initial_state, terminal_state,
}
use plaik.Journal.File.{
  Line, Codec, decoded, accept_event, Log, empty_log, head_hash, accept, verify_from,
  read_and_verify, max_operation_record_bytes,
}
use plaik.Journal.Chain.{Accepted, verify_from_induction, verify_from-FirstLine, read_and_verify_ok}

-- What a verified log knows of the operation under an id.
pub record IsSane (k : String) (s : OperationState) : Type 0 where
  pub id_valid : validate_operation_id k ≡ ok tt
  pub action_valid : validate_action s.action ≡ ok tt
  pub target_valid : validate_target s.target ≡ ok tt
  pub attempt_positive : 1 ≤ s.attempt

fields_sane :
    (e : EventBody) (t : ℕ)
    → validate_event_fields e ≡ ok t
    → (validate_operation_id e.operation_id ≡ ok tt)
      × (validate_action e.action ≡ ok tt)
      × (validate_target e.target ≡ ok tt)
      × (1 ≤ e.attempt)
      × (check_code e.status e.error_code ≡ ok tt)
      × (e.occurred_at ≡ aware t)
unfolding validate_event_fields as_utc
fields_sane e t h = ground arith

pub sane_fields :
    (e : EventBody) (t : ℕ)
    → validate_operation_id e.operation_id ≡ ok tt
    → validate_action e.action ≡ ok tt
    → validate_target e.target ≡ ok tt
    → 1 ≤ e.attempt
    → check_code e.status e.error_code ≡ ok tt
    → e.occurred_at ≡ aware t
    → validate_event_fields e ≡ ok t
unfolding validate_event_fields as_utc
sane_fields e t a b c d f g = ground arith

transition_kept :
    (c : Option OperationState) (e : EventBody) (t : ℕ) (s : OperationState)
    → transition c e t ≡ ok s
    → (s.action ≡ e.action) × (s.target ≡ e.target) × (s.attempt ≡ e.attempt)
unfolding transition next_state initial_state terminal_state
transition_kept none e t s h = ground arith
transition_kept (some c) e t s h =
    ground (arith, eq_iff c.action e.action, eq_iff c.target e.target)

ok_injective : {A : Type 0} {a b : A} → ◌≡◌ {A = Result JournalError A} (ok a) (ok b) → a ≡ b
ok_injective h = ground arith

module _ {Raw : Type 0} (codec : Codec Raw) where
  open codec use {sign, encode, decode, size, decode-encode}

  applied_fields :
      (c : Option OperationState) (e : EventBody) (s : OperationState)
      → apply_event c e ≡ ok s
      → (t : ℕ) × (validate_event_fields e ≡ ok t) × (transition c e t ≡ ok s)
  unfolding apply_event
  applied_fields c e s h = elim (Result-cases (validate_event_fields e)) [
    | inl (t, p) ↦ (t, p, rw p at h)
    | inr (x, p) ↦ absurd (ground arith)
  ]

  IsSane-step :
      (log : Log) (e : OperationEvent) (log' : Log)
      → Accepted codec log e log'
      → Every IsSane log.states
      → Every IsSane log'.states
  IsSane-step log e log' a h =
      let (t, fields, moved) =
        applied_fields (lookup e.operation_id log.states) e.body a.state a.applied in
      let (i, p, q, n, _, _) = fields_sane e.body t fields in
      let (x, y, z) = transition_kept (lookup e.operation_id log.states) e.body t a.state moved in
      rw a.states (
        Every-insert IsSane e.operation_id a.state log.states
          (record {
            id_valid = i;
            action_valid = rw x p;
            target_valid = rw y q;
            attempt_positive = omega (arith, z, n);
          })
          h)

  pub verified-IsSane :
      (lines : List (Line Raw)) (log : Log)
      → read_and_verify codec lines ≡ ok log
      → Every IsSane log.states
  verified-IsSane lines log h =
      verify_from_induction codec (λ l. Every IsSane l.states) IsSane-step empty_log lines log
        (read_and_verify_ok codec lines log h) tt

  pub verify_from-append :
      (log : Log) (lines : List (Line Raw)) (final : Log) (line : Line Raw)
      → verify_from codec log lines ≡ ok final
      → verify_from codec log (lines ++ line ∷ []) ≡ verify_from codec final (line ∷ [])
  unfolding verify_from
  verify_from-append log [] final line h =
      ap (λ l. verify_from codec l (line ∷ [])) (ok_injective h)
  verify_from-append log (first ∷ lines) final line h =
      let f = verify_from-FirstLine codec log first lines final h in
      rw (f.is_whole, f.accepts) (verify_from-append f.next lines final line f.rest)

  -- An event that may follow a log, and the state that it gives its operation.
  pub record Follows (log : Log) (k : String) (e : OperationEvent) (s : OperationState)
      : Type 0 where
    pub of_operation : e.operation_id ≡ k
    pub numbered : e.sequence ≡ suc (length log.events)
    pub bound : e.previous_hash ≡ head_hash log.events
    pub signed : e.event_hash ≡ sign e.body
    pub applied : apply_event (lookup k log.states) e.body ≡ ok s

  pub accept-Follows :
      (log : Log) (k : String) (e : OperationEvent) (s : OperationState)
      → Follows log k e s
      → leb (size (encode e)) max_operation_record_bytes ≡ true
      → accept codec log (encode e)
        ≡ ok (record { events = e ∷ log.events; states = insert k s log.states })
  unfolding accept accept_event decoded
  accept-Follows log k e s f fits =
      let applied : apply_event (lookup e.operation_id log.states) e.body ≡ ok s =
        subst (λ i. apply_event (lookup i log.states) e.body ≡ ok s) (sym f.of_operation)
          f.applied in
      ground (
        arith,
        decode-encode e,
        applied,
        f.of_operation,
        eq_iff e.previous_hash (head_hash log.events),
        eq_iff e.event_hash (sign e.body),
      )

  -- A decision that appends nothing returns the state that the log has.
  pub record IsSound (log : Log) (k : String) (s : OperationState) (w : Option OperationEvent)
      : Type 0 where
    pub unchanged : w ≡ none → lookup k log.states ≡ some s
    pub appended : (e : OperationEvent) → w ≡ some e → Follows log k e s
