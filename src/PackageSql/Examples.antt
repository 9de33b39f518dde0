-- ===== src/PackageSql/Examples.antt =====
-- src/plaik_core/package_sql_recovery.py: the evidence of one participant.
use plaik.Prelude.{◌≡◌, refl, String, true, false, some, [], ◌∷◌}
use plaik.Prelude.Text.{all_codes, head_tail}
use plaik.Prelude.Results.{ok, err}
use plaik.PackageSql.Evidence.{
  preparing, prepared, verify_finished, recovery_error, Naming, Evidence, ParticipantRecord,
  to_evidence, from_evidence, from_evidence-to_evidence, package_prepared_transaction,
  check_migrations, check_evidence, has_duplicate, has_key, all_owned, package_sql_recovery_action,
}

abbrev naming : Naming
naming = record { role_of = λ _. some "plaik_shop"; sha256 = λ _. "ab" }

abbrev digest : String
digest = "00112233445566778899aabbccddeeff00112233445566778899aabbccddeeff"

abbrev plan : ParticipantRecord
plan = record {
  operation_id = "install-01";
  package_id = "shop";
  artifact_sha256 = digest;
  gid = "plaik:pkg:ab";
  owner_role = "plaik_shop";
  migrations = record { owner = "shop"; version = "1"; checksum = digest } ∷ [];
  phase = preparing;
}

abbrev evidence : Evidence
evidence = record {
  participant = record {
    operation_id = "install-01";
    package_id = "shop";
    artifact_sha256 = digest;
    gid = "plaik:pkg:ab";
    owner_role = "plaik_shop";
  };
  migrations = plan.migrations;
  phase = preparing;
}

plan-evidence : to_evidence naming plan ≡ ok evidence
unfolding to_evidence package_prepared_transaction check_migrations check_evidence has_duplicate
    has_key all_owned all_codes head_tail
plan-evidence = refl

from_evidence-to_evidence_example : from_evidence evidence ≡ plan
from_evidence-to_evidence_example = from_evidence-to_evidence naming plan evidence plan-evidence

action_committed :
    package_sql_recovery_action true (some (record evidence { phase = prepared })) false
    ≡ ok verify_finished
unfolding package_sql_recovery_action
action_committed = refl

action_undecided : package_sql_recovery_action true (some evidence) true ≡ err recovery_error
unfolding package_sql_recovery_action
action_undecided = refl
