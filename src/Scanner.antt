-- ===== src/Scanner.antt =====
-- src/scanner.ts: what a scan of the migration directories returns.
use migraguard.Prelude.{Option, List}
use migraguard.Prelude.Text.{Text}
use migraguard.Naming.{Phase, ParsedFileName, ParsedPhaseFile}
use migraguard.Db.{MigrationClass}

pub record MigrationFile : Type 0 where
  pub file_name : Text
  pub file_path : Text
  pub source_dir : Text
  pub parsed : ParsedFileName
  pub migration_class : MigrationClass
  pub phase : Option Phase
  pub group_name : Option Text
  pub phase_files : Option (List ParsedPhaseFile)

-- The working copy during one command: the result of `scanMigrations` and `checksumFile`.
pub record Disk : Type 0 where
  pub files : List MigrationFile
  pub checksum_file : Text → Text
