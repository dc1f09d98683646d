-- ===== src/Examples/Memory.antt =====
-- A database in memory that keeps what `IsDatabase` asks for.
use Prim.Native.Nat.{max}
use migraguard.Prelude.{ℕ, suc, ◌≤◌, ◌<◌, refl, not, none, some, List, [], ◌∷◌, ◌++◌, arith, All}
use migraguard.Prelude.Text.{Text}
use migraguard.Prelude.Maps.{has}
use migraguard.Naming.{Phase}
use migraguard.Db.{
  MigrationStatus, MigrationRecord, expand_contract, safe, stamped, Database, IsDatabase,
}

pub record Memory : Type 0 where
  pub rows : List MigrationRecord
  pub broken : List Text  -- the paths whose execution fails

abbrev latest_time : List MigrationRecord → ℕ
latest_time [] = 0
latest_time (r ∷ rs) = max r.applied_at (latest_time rs)

abbrev pub memory : Database
memory = record {
  Session = Memory;
  select_rows = λ s. s.rows;
  insert_row = λ r s. record s { rows = s.rows ++ stamped (suc (latest_time s.rows)) r ∷ [] };
  now = λ s. suc (latest_time s.rows);
  execute_sql_file = λ path s. (record { success = not (has s.broken path); stderr = [] }, s);
}

older :
    (n : ℕ) (rs : List MigrationRecord) → latest_time rs ≤ n → All (λ r. r.applied_at < suc n) rs
older n [] h = tt
older n (r ∷ rs) h = (omega arith, older n rs (omega arith))

older_rows : (rs : List MigrationRecord) → All (λ r. r.applied_at < suc (latest_time rs)) rs
older_rows rs = older (latest_time rs) rs (omega arith)

pub memory-IsDatabase : IsDatabase memory
memory-IsDatabase = record {
  select-insert = λ r s. refl;
  select-execute = λ path s. refl;
  now_later = λ s. older_rows s.rows;
}

-- A row of a phase.
abbrev pub phase_row_at : ℕ → Text → Phase → MigrationStatus → MigrationRecord
phase_row_at time group phase status = record {
  file_name = [];
  checksum = [];
  status = status;
  applied_at = time;
  resolved_at = none;
  migration_class = expand_contract;
  phase = some phase;
  group_name = some group;
  tag = none;
}

-- A row of a safe file.
abbrev pub safe_row_at : ℕ → Text → Text → MigrationStatus → MigrationRecord
safe_row_at time file checksum status = record {
  file_name = file;
  checksum = checksum;
  status = status;
  applied_at = time;
  resolved_at = none;
  migration_class = safe;
  phase = none;
  group_name = none;
  tag = none;
}
