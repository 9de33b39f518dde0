-- ===== src/PackageSql/Evidence.antt =====
-- src/plaik_core/package_sql_recovery.py: the evidence of a participant, its durable record, and the
-- action that they ask for.
use plaik.Prelude.{
  ℕ, ◌≡◌, ap, sym, ◌∙◌, String, Bool, true, false, ◌&&◌, ◌||◌, not, Option, none, some, List, [],
  ◌∷◌, ◌++◌, arith, leb, nat_beq, ◌==◌, string_eq, eq_iff, if◌then◌else◌, length,
}
use plaik.Prelude.Text.{codes, digit, alphanumeric, all_codes, head_tail}
use plaik.Prelude.Results.{Result, ok, err, guard, ◌>>=◌, ◌>>◌, chain_ok}

pub data SqlError : Type 0 where
  recovery_error value_error : SqlError

pub data Phase : Type 0 where
  preparing prepared finished : Phase

pub data Action : Type 0 where
  no_action rollback_prepared commit_prepared verify_rolled_back verify_finished : Action

-- The package's role in the database, if the package may have one, and the digest of a text, in
-- hex digits.
pub record Naming : Type 0 where
  pub role_of : String → Option String
  pub sha256 : List ℕ → String

pub record Participant : Type 0 where
  pub operation_id : String
  pub package_id : String
  pub artifact_sha256 : String
  pub gid : String
  pub owner_role : String

pub record Migration : Type 0 where
  pub owner : String
  pub version : String
  pub checksum : String

pub record Evidence : Type 0 where
  pub participant : Participant
  pub migrations : List Migration
  pub phase : Phase

-- `PackageSQLParticipantRecord`
pub record ParticipantRecord : Type 0 where
  pub operation_id : String
  pub package_id : String
  pub artifact_sha256 : String
  pub gid : String
  pub owner_role : String
  pub migrations : List Migration
  pub phase : Phase

hex_digit : ℕ → Bool
hex_digit c = digit c || (leb b'a' c && leb c b'f')

-- `^[0-9a-f]{64}$`
abbrev pub is_checksum : String → Bool
unfolding hex_digit all_codes
is_checksum s = nat_beq (length (codes s)) 64 && all_codes hex_digit (codes s)

id_tail : ℕ → Bool
id_tail c = alphanumeric c || nat_beq c b'.' || nat_beq c b'_' || nat_beq c b':' || nat_beq c b'-'

abbrev role_or : Option String → Result SqlError String
role_or none = err value_error
role_or (some role) = ok role

-- `f"{_GID_PREFIX}{digest}"`
abbrev joined : String → String → String
joined String.[] t = t
joined (String.◌∷◌ c s) t = String.◌∷◌ c (joined s t)

abbrev gid_of : Naming → String → String → String → String
gid_of naming operation_id package_id artifact_sha256 =
    joined "plaik:pkg:" (
      naming.sha256 (codes operation_id ++ (0 ∷ (codes package_id ++ (0 ∷ codes artifact_sha256)))))

unfoldable pub package_prepared_transaction :
    Naming → String → String → String → Result SqlError Participant
unfolding id_tail head_tail is_checksum
package_prepared_transaction naming operation_id package_id artifact_sha256 = do
  guard (head_tail alphanumeric id_tail 7 127 (codes operation_id)) value_error
  guard (is_checksum artifact_sha256) value_error
  role ← role_or (naming.role_of package_id)
  ok (record {
    operation_id = operation_id;
    package_id = package_id;
    artifact_sha256 = artifact_sha256;
    gid = gid_of naming operation_id package_id artifact_sha256;
    owner_role = role;
  })

-- `PackageMigrationEvidence.__post_init__`, over the migrations of a record.
unfoldable pub check_migrations : List Migration → Result SqlError (Unit {0})
unfolding is_checksum
check_migrations [] = ok tt
check_migrations (m ∷ migrations) = do
  guard (not (m.owner == "") && not (m.version == "") && is_checksum m.checksum) value_error
  check_migrations migrations

unfoldable pub has_key : Migration → List Migration → Bool
has_key m [] = false
has_key m (n ∷ migrations) = (m.owner == n.owner && m.version == n.version) || has_key m migrations

unfoldable pub has_duplicate : List Migration → Bool
unfolding has_key
has_duplicate [] = false
has_duplicate (m ∷ migrations) = has_key m migrations || has_duplicate migrations

unfoldable pub all_owned : String → List Migration → Bool
all_owned package_id [] = true
all_owned package_id (m ∷ migrations) = m.owner == package_id && all_owned package_id migrations

abbrev is_empty : List Migration → Bool
is_empty [] = true
is_empty (m ∷ migrations) = false

-- `PackageSQLParticipantEvidence.__post_init__`
unfoldable pub check_evidence : Participant → List Migration → Result SqlError (Unit {0})
unfolding has_duplicate all_owned
check_evidence participant migrations = do
  guard (not (is_empty migrations)) value_error
  guard (not (has_duplicate migrations)) value_error
  guard (all_owned participant.package_id migrations) value_error

abbrev pub is_participant : Participant → ParticipantRecord → Bool
is_participant p r = p.gid == r.gid && p.owner_role == r.owner_role

unfoldable pub from_evidence : Evidence → ParticipantRecord
from_evidence e = record {
  operation_id = e.participant.operation_id;
  package_id = e.participant.package_id;
  artifact_sha256 = e.participant.artifact_sha256;
  gid = e.participant.gid;
  owner_role = e.participant.owner_role;
  migrations = e.migrations;
  phase = e.phase;
}

unfoldable pub to_evidence : Naming → ParticipantRecord → Result SqlError Evidence
unfolding package_prepared_transaction check_migrations check_evidence
to_evidence naming r = do
  p ← package_prepared_transaction naming r.operation_id r.package_id r.artifact_sha256
  guard (is_participant p r) recovery_error
  check_migrations r.migrations
  check_evidence p r.migrations
  ok (record { participant = p; migrations = r.migrations; phase = r.phase })

-- `package_sql_recovery_action`
unfoldable pub package_sql_recovery_action : Bool → Option Evidence → Bool → Result SqlError Action
package_sql_recovery_action local_committed none prepared_exists =
    if prepared_exists then err recovery_error else ok no_action
package_sql_recovery_action local_committed (some e) prepared_exists = elim e.phase [
  | preparing ↦
      if local_committed
      then err recovery_error
      else ok (if prepared_exists then rollback_prepared else verify_rolled_back)
  | prepared ↦
      if prepared_exists
      then ok (if local_committed then commit_prepared else rollback_prepared)
      else ok (if local_committed then verify_finished else verify_rolled_back)
  | finished ↦
      if prepared_exists
      then err recovery_error
      else if not local_committed
      then err recovery_error
      else ok verify_finished
]

derived-fields :
    (naming : Naming) (o p a : String) (x : Participant)
    → package_prepared_transaction naming o p a ≡ ok x
    → (x.operation_id ≡ o) × (x.package_id ≡ p) × (x.artifact_sha256 ≡ a)
unfolding package_prepared_transaction
derived-fields naming o p a x h =
    let (u, b, h1) =
      chain_ok (guard (head_tail alphanumeric id_tail 7 127 (codes o)) value_error) _ _ h in
    let (v, c, h2) = chain_ok (guard (is_checksum a) value_error) _ _ h1 in
    let (role, d, h3) = chain_ok (role_or (naming.role_of p)) _ _ h2 in
    (ground (arith, h3), ground (arith, h3), ground (arith, h3))

-- A record that is accepted as evidence is the record of that evidence.
pub from_evidence-to_evidence :
    (naming : Naming) (r : ParticipantRecord) (e : Evidence)
    → to_evidence naming r ≡ ok e
    → from_evidence e ≡ r
unfolding to_evidence from_evidence
from_evidence-to_evidence naming r e h =
    let (p, a, h1) =
      chain_ok (package_prepared_transaction naming r.operation_id r.package_id r.artifact_sha256) _
        _ h in
    let (u, b, h2) = chain_ok (guard (is_participant p r) recovery_error) _ _ h1 in
    let (v, c, h3) = chain_ok (check_migrations r.migrations) _ _ h2 in
    let (w, d, h4) = chain_ok (check_evidence p r.migrations) _ _ h3 in
    let (o, k, s) = derived-fields naming r.operation_id r.package_id r.artifact_sha256 p a in
    let g : p.gid ≡ r.gid = ground (arith, b, eq_iff p.gid r.gid) in
    let f : p.owner_role ≡ r.owner_role = ground (arith, b, eq_iff p.owner_role r.owner_role) in
    let same : record { participant = p; migrations = r.migrations; phase = r.phase } ≡ e =
      ground (arith, h4) in
    ap from_evidence (sym same) ∙ (λ i. record {
      operation_id = o i;
      package_id = k i;
      artifact_sha256 = s i;
      gid = g i;
      owner_role = f i;
      migrations = r.migrations;
      phase = r.phase;
    })
