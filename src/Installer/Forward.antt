-- ===== src/Installer/Forward.antt =====
-- src/plaik_core/installer.py: an installation goes forward, one state at a time.
use plaik.Prelude.{
  ℕ, suc, ◌≤◌, ◌<◌, ◌≡◌, inl, inr, refl, sym, ◌∙◌, ap, Bool-cases, Bool, true, false, ◌||◌, List,
  [], ◌∷◌, arith, nat_beq, leb, string_eq, if◌then◌else◌,
}
use plaik.Prelude.Results.{Result, ok, err, guard, ◌>>◌}
use plaik.Installer.{
  InstallState, not_started, requirements_checked, configured, database_ready, admin_ready,
  theme_ready, completed, value, install_sequence, InstallError, invalid_transition, member_of,
  InstallStateStore, read, state_beq, index, entry, is_expected, validate_transition, write,
  advance, advance_all,
}

-- The place of a state in the sequence, from 0.
abbrev pub rank : InstallState → ℕ
rank not_started = 0
rank requirements_checked = 1
rank configured = 2
rank database_ready = 3
rank admin_ready = 4
rank theme_ready = 5
rank completed = 6

-- The state that a call for `target` leaves, from `s`.
abbrev pub moved_to : InstallState → InstallState → InstallState
moved_to target s = if nat_beq (rank target) (suc (rank s)) then target else s

-- The call for `target` is accepted in `s`.
abbrev pub is_accepted : InstallState → InstallState → Bool
is_accepted target s = nat_beq (rank target) (rank s) || nat_beq (rank target) (suc (rank s))

decided : InstallState → InstallState → Result InstallError InstallState
unfolding value index entry
decided target s = if state_beq target s then ok s else (do
  guard (is_expected (entry (suc (index s install_sequence)) install_sequence) target)
      invalid_transition
  ok s)

each_state :
    (P : InstallState → Type 0)
    → P not_started
    → P requirements_checked
    → P configured
    → P database_ready
    → P admin_ready
    → P theme_ready
    → P completed
    → (s : InstallState) → P s
each_state P a b c d e f g not_started = a
each_state P a b c d e f g requirements_checked = b
each_state P a b c d e f g configured = c
each_state P a b c d e f g database_ready = d
each_state P a b c d e f g admin_ready = e
each_state P a b c d e f g theme_ready = f
each_state P a b c d e f g completed = g

-- What the code decides of two states, by their ranks.
record Table (target s : InstallState) : Type 0 where
  decision : decided target s ≡ (if is_accepted target s then ok s else err invalid_transition)
  tests : state_beq target s ≡ nat_beq (rank target) (rank s)
  equal : (if nat_beq (rank target) (rank s) then target else s) ≡ s

table : (target s : InstallState) → Table target s
unfolding decided value index entry
table not_started =
    each_state (Table not_started) (record { decision = refl; tests = refl; equal = refl })
      (record { decision = refl; tests = refl; equal = refl })
      (record { decision = refl; tests = refl; equal = refl })
      (record { decision = refl; tests = refl; equal = refl })
      (record { decision = refl; tests = refl; equal = refl })
      (record { decision = refl; tests = refl; equal = refl })
      (record { decision = refl; tests = refl; equal = refl })
table requirements_checked =
    each_state (Table requirements_checked) (record { decision = refl; tests = refl; equal = refl })
      (record { decision = refl; tests = refl; equal = refl })
      (record { decision = refl; tests = refl; equal = refl })
      (record { decision = refl; tests = refl; equal = refl })
      (record { decision = refl; tests = refl; equal = refl })
      (record { decision = refl; tests = refl; equal = refl })
      (record { decision = refl; tests = refl; equal = refl })
table configured =
    each_state (Table configured) (record { decision = refl; tests = refl; equal = refl })
      (record { decision = refl; tests = refl; equal = refl })
      (record { decision = refl; tests = refl; equal = refl })
      (record { decision = refl; tests = refl; equal = refl })
      (record { decision = refl; tests = refl; equal = refl })
      (record { decision = refl; tests = refl; equal = refl })
      (record { decision = refl; tests = refl; equal = refl })
table database_ready =
    each_state (Table database_ready) (record { decision = refl; tests = refl; equal = refl })
      (record { decision = refl; tests = refl; equal = refl })
      (record { decision = refl; tests = refl; equal = refl })
      (record { decision = refl; tests = refl; equal = refl })
      (record { decision = refl; tests = refl; equal = refl })
      (record { decision = refl; tests = refl; equal = refl })
      (record { decision = refl; tests = refl; equal = refl })
table admin_ready =
    each_state (Table admin_ready) (record { decision = refl; tests = refl; equal = refl })
      (record { decision = refl; tests = refl; equal = refl })
      (record { decision = refl; tests = refl; equal = refl })
      (record { decision = refl; tests = refl; equal = refl })
      (record { decision = refl; tests = refl; equal = refl })
      (record { decision = refl; tests = refl; equal = refl })
      (record { decision = refl; tests = refl; equal = refl })
table theme_ready =
    each_state (Table theme_ready) (record { decision = refl; tests = refl; equal = refl })
      (record { decision = refl; tests = refl; equal = refl })
      (record { decision = refl; tests = refl; equal = refl })
      (record { decision = refl; tests = refl; equal = refl })
      (record { decision = refl; tests = refl; equal = refl })
      (record { decision = refl; tests = refl; equal = refl })
      (record { decision = refl; tests = refl; equal = refl })
table completed =
    each_state (Table completed) (record { decision = refl; tests = refl; equal = refl })
      (record { decision = refl; tests = refl; equal = refl })
      (record { decision = refl; tests = refl; equal = refl })
      (record { decision = refl; tests = refl; equal = refl })
      (record { decision = refl; tests = refl; equal = refl })
      (record { decision = refl; tests = refl; equal = refl })
      (record { decision = refl; tests = refl; equal = refl })

-- The value of a state is read as the state.
member_of-value : (s : InstallState) → member_of (value s) install_sequence ≡ ok s
unfolding member_of value
member_of-value =
    each_state (λ s. member_of (value s) install_sequence ≡ ok s) refl refl refl refl refl refl refl

-- States of one value are one state.
pub state_beq_same : (t s : InstallState) → state_beq t s ≡ true → t ≡ s
state_beq_same t s h =
    let k : nat_beq (rank t) (rank s) ≡ true = sym (table t s).tests ∙ h in
    let same : (if nat_beq (rank t) (rank s) then t else s) ≡ s = (table t s).equal in rw k at same

read-write : (s : InstallState) (q : InstallStateStore) → read (write s q) ≡ ok s
unfolding read write
read-write s q = member_of-value s

module _ (q : InstallStateStore) (s : InstallState) (reads : read q ≡ ok s)
    (target : InstallState) where
  validate_transition-decided : validate_transition target q ≡ decided target s
  unfolding validate_transition decided
  validate_transition-decided = rw reads

  -- In a state that can be read, a call for that state or the one after it returns its target and
  -- leaves it; any other call is refused and leaves the state.
  pub advance_lem :
      ((advance target q).0 ≡ (if is_accepted target s then ok target else err invalid_transition))
      × (read (advance target q).1 ≡ ok (moved_to target s))
  unfolding advance
  advance_lem =
      let t = table target s in
      elim (Bool-cases (nat_beq (rank target) (rank s))) [
        | inl e ↦
            let same : target ≡ s = ground (arith, e, t.equal) in
            (
              rw (validate_transition-decided, t.decision, is_accepted, e, t.tests, e)
                  (ap ok (sym same)),
              rw (validate_transition-decided, t.decision, is_accepted, e, t.tests, e)
                  (ground (arith, reads, e, same)),
            )
        | inr e ↦ elim (Bool-cases (nat_beq (rank target) (suc (rank s)))) [
          | inl f ↦ (
            rw (validate_transition-decided, t.decision, is_accepted, e, f, t.tests, e),
            rw (validate_transition-decided, t.decision, is_accepted, e, f, t.tests, e)
                (read-write target q),
          )
          | inr f ↦ (
            rw (validate_transition-decided, t.decision, is_accepted, e, f),
            rw (validate_transition-decided, t.decision, is_accepted, e, f) reads,
          )
        ]
      ]

-- Some call is for the state.
unfoldable pub is_asked : InstallState → List InstallState → Bool
is_asked t [] = false
is_asked t (x ∷ targets) = nat_beq (rank x) (rank t) || is_asked t targets

-- A state can be read; it is not before `s`, and each state after `s` up to it was asked for.
pub record GoesForward (s : InstallState) (targets : List InstallState) (q : InstallStateStore)
    : Type 0 where
  pub state : InstallState
  pub reads : read q ≡ ok state
  pub forward : rank s ≤ rank state
  pub asked : (t : InstallState) → rank s < rank t → rank t ≤ rank state → is_asked t targets ≡ true

or_true : (b : Bool) → (b || true) ≡ true
or_true b = ground arith

-- A state that a call for `x` comes to is that of the call.
moved_to-between :
    (x s t : InstallState)
    → rank s < rank t
    → rank t ≤ rank (moved_to x s)
    → nat_beq (rank x) (rank t) ≡ true
moved_to-between x s t above below = elim (Bool-cases (nat_beq (rank x) (suc (rank s)))) [
  | inl e ↦ let known : rank t ≤ rank x = rw e at below in ground (arith, e, above, known)
  | inr e ↦ let known : rank t ≤ rank s = rw e at below in absurd (omega (arith, above, known))
]

-- Any calls, from a state that can be read, leave a state that can be read and is not before it, and
-- each state on the way was asked for.
pub advance_all-GoesForward :
    (targets : List InstallState) (q : InstallStateStore) (s : InstallState)
    → read q ≡ ok s
    → GoesForward s targets (advance_all targets q)
unfolding advance_all is_asked
advance_all-GoesForward [] q s h = record {
  state = s;
  reads = h;
  forward = omega arith;
  asked = λ t above below. absurd (omega (arith, above, below));
}
advance_all-GoesForward (x ∷ targets) q s h =
    let i =
      advance_all-GoesForward targets (advance x q).1 (moved_to x s) (advance_lem q s h x).1 in
    let onward : rank s ≤ rank (moved_to x s) = ground arith in
    record {
      state = i.state;
      reads = i.reads;
      forward = omega (arith, i.forward, onward);
      asked = λ t above below. elim (Bool-cases (leb (rank t) (rank (moved_to x s)))) [
        | inl e ↦ rw (moved_to-between x s t above (ground (arith, e)))
        | inr e ↦ rw (i.asked t (ground (arith, e)) below) (or_true (nat_beq (rank x) (rank t)))
      ];
    }
