-- ===== src/Installer/Examples.antt =====
-- src/plaik_core/installer.py: calls of an installation, and the theorems there.
use plaik.Prelude.{◌≡◌, refl, List, [], ◌∷◌}
use plaik.Prelude.Results.{ok, err}
use plaik.Installer.{
  InstallState, not_started, requirements_checked, configured, database_ready, InstallStateStore,
  absent, invalid_transition, read, value, member_of, validate_transition, index, entry, write,
  advance, advance_all,
}
use plaik.Installer.Forward.{advance_lem, GoesForward, advance_all-GoesForward}

abbrev fresh_store : InstallStateStore
fresh_store = record { file = absent }

fresh_store-reads : read fresh_store ≡ ok not_started
unfolding read
fresh_store-reads = refl

advance_lem_example :
    ((advance configured fresh_store).0 ≡ err invalid_transition)
    × (read (advance configured fresh_store).1 ≡ ok not_started)
advance_lem_example = advance_lem fresh_store not_started fresh_store-reads configured

-- The second call skips a state and is refused.
abbrev calls : List InstallState
calls = requirements_checked ∷ database_ready ∷ requirements_checked ∷ configured ∷ []

ends_configured : read (advance_all calls fresh_store) ≡ ok configured
unfolding advance_all advance validate_transition read member_of value index entry write
ends_configured = refl

advance_all-GoesForward_example : GoesForward not_started calls (advance_all calls fresh_store)
advance_all-GoesForward_example =
    advance_all-GoesForward calls fresh_store not_started fresh_store-reads
