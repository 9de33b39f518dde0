-- ===== src/Installer.antt =====
-- src/plaik_core/installer.py, `InstallStateStore`: the states of an installation, which it passes in
-- order.
pub mod Forward
mod Examples
use plaik.Prelude.{
  ℕ, zero, suc, String, Bool, true, false, Option, none, some, List, [], ◌∷◌, nat_beq, ◌==◌,
  string_eq, if◌then◌else◌,
}
use plaik.Prelude.Results.{Result, ok, err, guard, ◌>>=◌, ◌>>◌, Method}

pub data InstallState : Type 0 where
  not_started requirements_checked configured database_ready admin_ready theme_ready completed :
      InstallState

-- The values of the enumeration.
unfoldable pub value : InstallState → String
value not_started = "not_started"
value requirements_checked = "requirements_checked"
value configured = "configured"
value database_ready = "database_ready"
value admin_ready = "admin_ready"
value theme_ready = "theme_ready"
value completed = "completed"

abbrev pub install_sequence : List InstallState
install_sequence =
    not_started ∷ requirements_checked ∷ configured ∷ database_ready ∷ admin_ready ∷ theme_ready
    ∷ completed ∷ []

pub data InstallError : Type 0 where
  invalid_state invalid_transition : InstallError

-- The member that has the value.
unfoldable pub member_of : String → List InstallState → Result InstallError InstallState
unfolding value
member_of text [] = err invalid_state
member_of text (s ∷ states) = if value s == text then ok s else member_of text states

-- The file holds the text under the key `state`.
pub data InstallFile : Type 0 where
  absent malformed : InstallFile
  document : String → InstallFile

pub record InstallStateStore : Type 0 where
  pub file : InstallFile

unfoldable pub read : InstallStateStore → Result InstallError InstallState
unfolding member_of
read q = elim q.file [
  | absent ↦ ok not_started
  | malformed ↦ err invalid_state
  | document text ↦ member_of text install_sequence
]

abbrev pub state_beq : InstallState → InstallState → Bool
unfolding value
state_beq s t = value s == value t

-- `INSTALL_SEQUENCE.index(state)`
unfoldable pub index : InstallState → List InstallState → ℕ
unfolding value
index s [] = 0
index s (t ∷ states) = let rest = index s states in if state_beq t s then 0 else suc rest

-- `INSTALL_SEQUENCE[n] if n < len(INSTALL_SEQUENCE) else None`
unfoldable pub entry : ℕ → List InstallState → Option InstallState
entry n [] = none
entry zero (s ∷ states) = some s
entry (suc n) (s ∷ states) = entry n states

abbrev pub is_expected : Option InstallState → InstallState → Bool
unfolding value
is_expected none target = false
is_expected (some expected) target = state_beq target expected

unfoldable pub validate_transition :
    InstallState → InstallStateStore → Result InstallError InstallState
unfolding read index entry value
validate_transition target q = do
  current ← read q
  let expected = entry (suc (index current install_sequence)) install_sequence
  if state_beq target current
      then ok current
      else (do guard (is_expected expected target) invalid_transition; ok current)

unfoldable pub write : InstallState → InstallStateStore → InstallStateStore
unfolding value
write s q = record q { file = document (value s) }

abbrev pub settle :
    InstallState
    → Result InstallError InstallState
    → Method InstallError InstallStateStore InstallState
unfolding write value
settle target (err e) q = (err e, q)
settle target (ok current) q =
    if state_beq target current then (ok current, q) else (ok target, write target q)

unfoldable pub advance : InstallState → Method InstallError InstallStateStore InstallState
unfolding validate_transition write value
advance target q = settle target (validate_transition target q) q

-- A caller that advances to each of the states, whatever is raised.
unfoldable pub advance_all : List InstallState → InstallStateStore → InstallStateStore
unfolding advance
advance_all [] q = q
advance_all (s ∷ states) q = advance_all states (advance s q).1
