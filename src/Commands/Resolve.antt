-- ===== src/Commands/Resolve.antt =====
-- src/commands/resolve.ts: a failed migration is marked as skipped.
pub mod Effect
use migraguard.Prelude.{
  Bool, true, false, not, Option, none, some, List, [], ◌∷◌, keep, if◌then◌else◌,
}
use migraguard.Prelude.Text.{Text, ◌==◌}
use migraguard.Db.{
  MigrationStatus, failed, skipped, MigrationRecord, no_options, status_eq, Database, insert_record,
}
use migraguard.GroupState.{get_latest_record}

pub data ResolveResult : Type 0 where
  no_records_found : ResolveResult
  not_failed : MigrationStatus → ResolveResult
  would_resolve : ResolveResult
  resolved : ResolveResult

-- getRecordsForFile: WHERE file_name = $1
abbrev pub of_file : Text → MigrationRecord → Bool
of_file file r = r.file_name == file

module _ (d : Database) where
  unfoldable pub resolve_latest :
      Text → Bool → Option MigrationRecord → d.Session → ResolveResult × d.Session
  resolve_latest file dry_run none s = (no_records_found, s)
  resolve_latest file dry_run (some latest) s =
      if not (status_eq latest.status failed)
      then (not_failed latest.status, s)
      else if dry_run
      then (would_resolve, s)
      else (resolved, insert_record d file latest.checksum skipped no_options s)

  unfoldable pub command_resolve : Text → Bool → d.Session → ResolveResult × d.Session
  unfolding resolve_latest
  command_resolve file dry_run s =
      resolve_latest file dry_run (get_latest_record (keep (of_file file) (d.select_rows s))) s
