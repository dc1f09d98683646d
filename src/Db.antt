-- ===== src/Db.antt =====
-- src/db.ts: the rows of schema_migrations and `insertRecord`. The database itself is a
-- parameter, `Database`, with what the program relies on in `IsDatabase`.
pub mod Laws
use migraguard.Prelude.{
  ℕ, ◌<◌, Bool, true, false, Option, none, some, List, [], ◌∷◌, ◌++◌, ◌≡◌, All, if◌then◌else◌,
}
use migraguard.Prelude.Text.{Text}
use migraguard.Naming.{Phase}

pub data MigrationStatus : Type 0 where
  applied failed skipped running : MigrationStatus

pub data MigrationClass : Type 0 where
  safe expand_contract : MigrationClass

abbrev pub status_eq : MigrationStatus → MigrationStatus → Bool
status_eq applied applied = true
status_eq failed failed = true
status_eq skipped skipped = true
status_eq running running = true
status_eq _ _ = false

-- `appliedAt` and `resolvedAt` are dates in milliseconds.
pub record MigrationRecord : Type 0 where
  pub file_name : Text
  pub checksum : Text
  pub status : MigrationStatus
  pub applied_at : ℕ
  pub resolved_at : Option ℕ
  pub migration_class : MigrationClass
  pub phase : Option Phase
  pub group_name : Option Text
  pub tag : Option Text

pub record InsertRecordOptions : Type 0 where
  pub migration_class : Option MigrationClass
  pub phase : Option Phase
  pub group_name : Option Text
  pub tag : Option Text

-- `options` left undefined
abbrev pub no_options : InsertRecordOptions
no_options = record { migration_class = none; phase = none; group_name = none; tag = none }

-- The values of an INSERT into schema_migrations; `resolved` says that the statement sets
-- resolved_at to CURRENT_TIMESTAMP. applied_at has that default.
pub record MigrationRow : Type 0 where
  pub file_name : Text
  pub checksum : Text
  pub status : MigrationStatus
  pub resolved : Bool
  pub migration_class : MigrationClass
  pub phase : Option Phase
  pub group_name : Option Text
  pub tag : Option Text

abbrev pub class_or_safe : Option MigrationClass → MigrationClass
class_or_safe none = safe
class_or_safe (some c) = c

-- The row that `insertRecord` writes.
abbrev pub new_row : Text → Text → MigrationStatus → InsertRecordOptions → MigrationRow
new_row file_name checksum status options = record {
  file_name = file_name;
  checksum = checksum;
  status = status;
  resolved = status_eq status skipped;
  migration_class = class_or_safe options.migration_class;
  phase = options.phase;
  group_name = options.group_name;
  tag = options.tag;
}

-- A row as a later SELECT gives it back through `mapRow`, if CURRENT_TIMESTAMP was `now`.
abbrev pub stamped : ℕ → MigrationRow → MigrationRecord
stamped now r = record {
  file_name = r.file_name;
  checksum = r.checksum;
  status = r.status;
  applied_at = now;
  resolved_at = if r.resolved then some now else none;
  migration_class = r.migration_class;
  phase = r.phase;
  group_name = r.group_name;
  tag = r.tag;
}

pub record ExecResult : Type 0 where
  pub success : Bool
  pub stderr : Text

-- The server, reached by the driver (rows) and by the command line client (`executeSqlFile`).
pub record Database : Type 1 where
  pub Session : Type 0
  pub select_rows : Session → List MigrationRecord
  pub insert_row : MigrationRow → Session → Session
  pub now : Session → ℕ
  pub execute_sql_file : Text → Session → ExecResult × Session

-- An INSERT appends its row to what SELECT ... ORDER BY applied_at returns, at a time later than
-- that of every row; a migration file does not touch schema_migrations.
pub record IsDatabase (d : Database) : Type 0 where
  pub select-insert :
      (r : MigrationRow) (s : d.Session)
      → d.select_rows (d.insert_row r s) ≡ d.select_rows s ++ stamped (d.now s) r ∷ []
  pub select-execute :
      (path : Text) (s : d.Session) → d.select_rows (d.execute_sql_file path s).1 ≡ d.select_rows s
  pub now_later : (s : d.Session) → All (λ r. r.applied_at < d.now s) (d.select_rows s)

module _ (d : Database) where
  unfoldable pub insert_record :
      Text → Text → MigrationStatus → InsertRecordOptions → d.Session → d.Session
  insert_record file_name checksum status options s =
      d.insert_row (new_row file_name checksum status options) s
