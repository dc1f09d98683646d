-- ===== src/Commands/Status.antt =====
-- src/commands/status.ts: the status of each file.
pub mod Predicts
use migraguard.Prelude.{ℕ, Bool, Option, none, some, List, map, if◌then◌else◌, not}
use migraguard.Prelude.Text.{Text, ◌==◌}
use migraguard.Prelude.Maps.{lookup}
use migraguard.Db.{MigrationStatus, MigrationRecord, status_eq, Database}
use migraguard.Scanner.{MigrationFile, Disk}
use migraguard.GroupState.{GroupState, get_latest_record, derive_all_group_states}
use migraguard.Commands.Apply.Run.{records_by_file, records_or_nil}

pub data FileStatus : Type 0 where
  applied pending failed skipped changed : FileStatus

pub record StatusEntry : Type 0 where
  pub file_name : Text
  pub status : FileStatus
  pub checksum : Text
  pub applied_at : Option ℕ

pub record StatusResult : Type 0 where
  pub entries : List StatusEntry
  pub groups : List GroupState

-- The branches over `latestRecord`.
unfoldable pub file_status : Option MigrationRecord → Text → FileStatus
file_status none checksum = pending
file_status (some latest) checksum =
    if status_eq latest.status MigrationStatus.failed
    then failed
    else if status_eq latest.status MigrationStatus.skipped
    then skipped
    else if not (latest.checksum == checksum)
    then changed
    else applied

abbrev applied_at_of : Option MigrationRecord → Option ℕ
applied_at_of none = none
applied_at_of (some latest) = some latest.applied_at

module _ (d : Database) (disk : Disk) (s : d.Session) where
  abbrev pub latest_record_of : MigrationFile → Option MigrationRecord
  latest_record_of f =
      get_latest_record (records_or_nil (lookup f.file_name (records_by_file (d.select_rows s))))

  unfoldable pub status_entry : MigrationFile → StatusEntry
  unfolding file_status
  status_entry f = record {
    file_name = f.file_name;
    status = file_status (latest_record_of f) (disk.checksum_file f.file_path);
    checksum = disk.checksum_file f.file_path;
    applied_at = applied_at_of (latest_record_of f);
  }

  unfoldable pub command_status : StatusResult
  unfolding status_entry
  command_status = record {
    entries = map status_entry disk.files;
    groups = derive_all_group_states (d.select_rows s);
  }
