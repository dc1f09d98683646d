-- ===== src/Commands/ApplyPhase.antt =====
-- src/commands/apply-phase.ts: one phase of a group is executed and recorded.
pub mod Effect
use migraguard.Prelude.{Bool, true, false, not, Option, none, some, find, if◌then◌else◌}
use migraguard.Prelude.Text.{Text, ◌==◌}
use migraguard.Naming.{Phase}
use migraguard.Db.{applied, failed, Database, ExecResult, insert_record}
use migraguard.Scanner.{MigrationFile, Disk}
use migraguard.GroupState.{GroupStateName, derive_group_state, can_advance_to_phase}
use migraguard.Commands.Advance.{phase_file_name, phase_options}

pub record ApplyPhaseOptions : Type 0 where
  pub group : Text
  pub phase : Phase
  pub tag : Option Text
  pub dry_run : Bool

pub data ApplyPhaseError : Type 0 where
  prerequisites_not_complete : GroupStateName → ApplyPhaseError
  phase_file_not_found : Text → ApplyPhaseError
  failed_to_apply : Text → ApplyPhaseError

pub record ApplyPhaseResult : Type 0 where
  pub success : Bool
  pub group : Text
  pub phase : Phase
  pub error : Option ApplyPhaseError

abbrev succeeded : ApplyPhaseOptions → ApplyPhaseResult
succeeded o = record { success = true; group = o.group; phase = o.phase; error = none }

abbrev failed_with : ApplyPhaseOptions → ApplyPhaseError → ApplyPhaseResult
failed_with o e = record { success = false; group = o.group; phase = o.phase; error = some e }

module _ (d : Database) (disk : Disk) where
  -- From `executeSqlFile` on.
  unfoldable pub execute_phase :
      ApplyPhaseOptions → MigrationFile → d.Session → ApplyPhaseResult × d.Session
  execute_phase o file s =
      let checksum = disk.checksum_file file.file_path in
      let (result, s') = d.execute_sql_file file.file_path s in
      let options = phase_options o.group o.phase o.tag in
      if result.success
      then (succeeded o, insert_record d file.file_name checksum applied options s')
      else (
        failed_with o (failed_to_apply result.stderr),
        insert_record d file.file_name checksum failed options s',
      )

  unfoldable pub with_phase_file :
      ApplyPhaseOptions → Option MigrationFile → d.Session → ApplyPhaseResult × d.Session
  unfolding execute_phase
  with_phase_file o none s =
      (failed_with o (phase_file_not_found (phase_file_name o.group o.phase)), s)
  with_phase_file o (some file) s = if o.dry_run then (succeeded o, s) else execute_phase o file s

  unfoldable pub command_apply_phase : ApplyPhaseOptions → d.Session → ApplyPhaseResult × d.Session
  unfolding with_phase_file
  command_apply_phase o s =
      let current = derive_group_state (d.select_rows s) o.group in
      let expected = phase_file_name o.group o.phase in
      if not (can_advance_to_phase current o.phase)
      then (failed_with o (prerequisites_not_complete current.state), s)
      else with_phase_file o (find (λ f. f.file_name == expected) disk.files) s
