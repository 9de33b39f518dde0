-- ===== src/Journal/Chain.antt =====
-- src/plaik_core/operation_journal.py, `_read_and_verify`: what a journal that verifies is.
use mathlib.Core.Path.{subst}
use plaik.Prelude.{
  suc, ◌≡◌, ◌≢◌, refl, sym, ◌∙◌, ap, List, [], ◌∷◌, arith, length, string_eq, eq_iff, inl, inr,
  String, some, leb, Option-cases,
}
use plaik.Prelude.Dict.{Dict, lookup, insert}
use plaik.Prelude.Results.{ok, err, guard, chain_ok, Result-cases}
use plaik.Journal.Event.{integrity, OperationEvent, OperationState, apply_event}
use plaik.Journal.File.{
  Line, whole, torn, Codec, decoded, accept_event, max_operation_record_bytes, Log, empty_log,
  genesis_hash, head_hash, accept, verify_from, as_integrity, read_and_verify,
}

module _ {Raw : Type 0} (codec : Codec Raw) where
  open codec use {sign, decode, size}

  -- Events, the newest first, numbered from 1, each signed and bound to the one before it.
  abbrev pub IsChain : List OperationEvent → Type 0
  IsChain [] = Unit
  IsChain (e ∷ es) =
      (e.sequence ≡ suc (length es))
      × (e.previous_hash ≡ head_hash es)
      × (e.event_hash ≡ sign e.body)
      × IsChain es

  -- An event that the loop accepts, and the log after it.
  pub record Accepted (log : Log) (e : OperationEvent) (log' : Log) : Type 0 where
    pub numbered : e.sequence ≡ suc (length log.events)
    pub bound : e.previous_hash ≡ head_hash log.events
    pub signed : e.event_hash ≡ sign e.body
    pub state : OperationState
    pub applied : apply_event (lookup e.operation_id log.states) e.body ≡ ok state
    pub events : log'.events ≡ e ∷ log.events
    pub states : log'.states ≡ insert e.operation_id state log.states

  pub accept_event-Accepted :
      (log : Log) (e : OperationEvent) (log' : Log)
      → accept_event codec log e ≡ ok log'
      → Accepted log e log'
  unfolding accept_event
  accept_event-Accepted log e log' h =
      elim (Result-cases (apply_event (lookup e.operation_id log.states) e.body)) [
        | inl (s, applied) ↦ record {
          numbered = ground arith;
          bound = ground (arith, eq_iff e.previous_hash (head_hash log.events));
          signed = ground (arith, eq_iff e.event_hash (sign e.body));
          state = s;
          applied = applied;
          events = ground arith;
          states = ground arith;
        }
        | inr (x, failed) ↦ absurd (ground arith)
      ]

  -- A step of the verification of a longer file.
  pub record FirstLine (log : Log) (line : Line Raw) (lines : List (Line Raw)) (final : Log)
      : Type 0 where
    pub raw : Raw
    pub is_whole : line ≡ whole raw
    pub event : OperationEvent
    pub decodes : decode raw ≡ some event
    pub next : Log
    pub accepts_event : accept_event codec log event ≡ ok next
    pub accepts : accept codec log raw ≡ ok next
    pub rest : verify_from codec next lines ≡ ok final

  pub accept_decoded :
      (log next : Log) (raw : Raw)
      → accept codec log raw ≡ ok next
      → (e : OperationEvent) × (decode raw ≡ some e) × (accept_event codec log e ≡ ok next)
  unfolding accept decoded
  accept_decoded log next raw h =
      let (u, a, h1) =
        chain_ok (guard (leb (size raw) max_operation_record_bytes) integrity) _ _ h in
      elim (Option-cases (decode raw)) [
        | inl n ↦ absurd (ground (arith, rw (decoded, n) at h1))
        | inr (e, n) ↦ (e, n, rw (decoded, n) at h1)
      ]

  pub verify_from-FirstLine :
      (log : Log) (line : Line Raw) (lines : List (Line Raw)) (final : Log)
      → verify_from codec log (line ∷ lines) ≡ ok final
      → FirstLine log line lines final
  unfolding verify_from
  verify_from-FirstLine log (whole raw) lines final h = elim (Result-cases (accept codec log raw)) [
    | inl (next, p) ↦
        let (e, d, a) = accept_decoded log next raw p in
        record {
          raw = raw;
          is_whole = refl;
          event = e;
          decodes = d;
          next = next;
          accepts_event = a;
          accepts = p;
          rest = rw p at h;
        }
    | inr (x, p) ↦ absurd (ground arith)
  ]
  verify_from-FirstLine log torn lines final h = absurd (ground arith)

  verified_nil : (log final : Log) → verify_from codec log [] ≡ ok final → log ≡ final
  unfolding verify_from
  verified_nil log final h = ground arith

  -- An invariant of logs that every accepted event keeps holds of a verified log.
  module _ (I : Log → Type 0)
      (step : (log : Log) (e : OperationEvent) (log' : Log)
        → Accepted log e log'
        → I log
        → I log') where
    pub verify_from_induction :
        (log : Log) (lines : List (Line Raw)) (final : Log)
        → verify_from codec log lines ≡ ok final
        → I log
        → I final
    verify_from_induction log [] final h i = subst I (verified_nil log final h) i
    verify_from_induction log (line ∷ lines) final h i =
        let f = verify_from-FirstLine log line lines final h in
        verify_from_induction f.next lines final f.rest
          (step log f.event f.next (accept_event-Accepted log f.event f.next f.accepts_event) i)

  pub read_and_verify_ok :
      (lines : List (Line Raw)) (log : Log)
      → read_and_verify codec lines ≡ ok log
      → verify_from codec empty_log lines ≡ ok log
  unfolding read_and_verify as_integrity
  read_and_verify_ok lines log h = ground arith

  IsChain-step :
      (log : Log) (e : OperationEvent) (log' : Log)
      → Accepted log e log'
      → IsChain log.events
      → IsChain log'.events
  IsChain-step log e log' a c = rw a.events (a.numbered, a.bound, a.signed, c)

  -- The events of a journal that verifies are numbered from 1 without a gap, each bears the key's
  -- signature of its body, and each names the hash of the event before it.
  pub read_and_verify-IsChain :
      (lines : List (Line Raw)) (log : Log)
      → read_and_verify codec lines ≡ ok log
      → IsChain log.events
  read_and_verify-IsChain lines log h =
      verify_from_induction (λ l. IsChain l.events) IsChain-step empty_log lines log
        (read_and_verify_ok lines log h) tt

  -- The states that events lead to, the newest event first.
  after_event : OperationEvent → Dict String OperationState → Dict String OperationState
  after_event e states = elim (apply_event (lookup e.operation_id states) e.body) [
    | ok s ↦ insert e.operation_id s states
    | err x ↦ states
  ]

  replay : List OperationEvent → Dict String OperationState
  replay [] = []
  replay (e ∷ es) = after_event e (replay es)

  replay-step :
      (l : Log) (e : OperationEvent) (l' : Log)
      → Accepted l e l'
      → l.states ≡ replay l.events
      → l'.states ≡ replay l'.events
  unfolding replay after_event
  replay-step l e l' a same =
      let one : insert e.operation_id a.state l.states ≡ after_event e l.states =
        rw (after_event, a.applied) refl in
      a.states ∙ one ∙ ap (λ d. after_event e d) same ∙ ap (λ es. replay es) (sym a.events)

  replayed :
      (lines : List (Line Raw)) (log : Log)
      → read_and_verify codec lines ≡ ok log
      → log.states ≡ replay log.events
  unfolding replay
  replayed lines log h =
      verify_from_induction (λ l. l.states ≡ replay l.events) replay-step empty_log lines log
        (read_and_verify_ok lines log h) refl

  -- Counted back from the heads, no two different bodies have one signature, and where one log is
  -- the longer no signature is the genesis hash.
  abbrev pub NoCollision : List OperationEvent → List OperationEvent → Type 0
  NoCollision [] [] = Unit
  NoCollision [] (f ∷ fs) = f.event_hash ≢ genesis_hash
  NoCollision (e ∷ es) [] = e.event_hash ≢ genesis_hash
  NoCollision (e ∷ es) (f ∷ fs) =
      (e.event_hash ≡ f.event_hash → e.body ≡ f.body) × NoCollision es fs

  same_events :
      (es fs : List OperationEvent)
      → NoCollision es fs
      → IsChain es
      → IsChain fs
      → head_hash es ≡ head_hash fs
      → es ≡ fs
  same_events [] [] n c d h = refl
  same_events [] (f ∷ fs) n c d h = absurd (n (sym h))
  same_events (e ∷ es) [] n c d h = absurd (n h)
  same_events (e ∷ es) (f ∷ fs) n c d h =
      let b = n.0 h in
      let same : e ≡ f = λ i. record { body = b i; event_hash = h i } in
      let before : head_hash es ≡ head_hash fs =
        sym c.1 ∙ ap (λ (x : OperationEvent). x.previous_hash) same ∙ d.1 in
      λ i. same i ∷ same_events es fs n.1 c.3 d.3 before i

  -- Two journals that verify with the same head hash, and whose signatures do not collide, have the
  -- same events in the same order, and the same states of their operations.
  pub head_determines_journal :
      (lines lines' : List (Line Raw)) (log log' : Log)
      → read_and_verify codec lines ≡ ok log
      → read_and_verify codec lines' ≡ ok log'
      → NoCollision log.events log'.events
      → head_hash log.events ≡ head_hash log'.events
      → log ≡ log'
  head_determines_journal lines lines' log log' h k apart same =
      let events =
        same_events log.events log'.events apart (read_and_verify-IsChain lines log h)
          (read_and_verify-IsChain lines' log' k) same in
      let states =
        replayed lines log h ∙ ap (λ es. replay es) events ∙ sym (replayed lines' log' k) in
      λ i. record { events = events i; states = states i }
