-- ===== src/Commands/Editable.antt =====
-- src/commands/editable.ts: which files may be edited.
pub mod Agrees
use migraguard.Prelude.{
  Bool, true, false, not, Option, none, some, List, [], ◌∷◌, ◌++◌, foldl, map, keep, get_last?,
  if◌then◌else◌,
}
use migraguard.Prelude.Text.{Text, ◌==◌}
use migraguard.Prelude.Maps.{has, lookup}
use migraguard.Db.{failed, MigrationRecord, status_eq}
use migraguard.Scanner.{MigrationFile, Disk}
use migraguard.Metadata.{MetadataJson, is_dag_mode, is_pre_model_since}
use migraguard.Deps.{DependencyGraph, find_leaf_nodes}
use migraguard.GroupState.{get_latest_record}
use migraguard.Commands.Apply.Run.{records_by_file, records_or_nil}

pub data EditReason : Type 0 where
  latest leaf new failed_retryable : EditReason

pub record EditableEntry : Type 0 where
  pub file_name : Text
  pub reason : EditReason

pub record EditableResult : Type 0 where
  pub editable_files : List Text
  pub entries : List EditableEntry

-- What the command reads. `rows` is `none` if the database cannot be reached.
pub record EditableEnv : Type 0 where
  pub disk : Disk
  pub metadata : MetadataJson
  pub config_dag : Bool
  pub graph : DependencyGraph
  pub rows : Option (List MigrationRecord)

-- `editableSet` and `entries`, which grow together.
pub record Editables : Type 0 where
  pub editable_set : List Text
  pub entries : List EditableEntry

-- if (!editableSet.has(f)) { editableSet.add(f); entries.push({ fileName: f, reason }); }
unfoldable pub offer_file : EditReason → Editables → Text → Editables
offer_file reason e f = if has e.editable_set f then e else record {
  editable_set = e.editable_set ++ f ∷ [];
  entries = e.entries ++ record { file_name = f; reason = reason } ∷ [];
}

abbrev pub is_failed_record : Option MigrationRecord → Bool
is_failed_record none = false
is_failed_record (some r) = status_eq r.status failed

-- One file of the loop over the records.
unfoldable pub offer_failed : List MigrationRecord → Editables → MigrationFile → Editables
offer_failed rows e f =
    if has e.editable_set f.file_name
    then e
    else if is_failed_record
        (get_latest_record (records_or_nil (lookup f.file_name (records_by_file rows))))
    then offer_file failed_retryable e f.file_name
    else e

module _ (env : EditableEnv) where
  unfoldable pub offer_leaf : Editables → Text → Editables
  offer_leaf e f = if is_pre_model_since env.metadata f then e else offer_file leaf e f

  -- The leaves, or the last file.
  unfoldable pub first_editables : MigrationFile → Editables
  first_editables last =
      if is_dag_mode env.metadata env.config_dag
      then foldl offer_leaf (record { editable_set = []; entries = [] }) (find_leaf_nodes env.graph)
      else record {
        editable_set = last.file_name ∷ [];
        entries = record { file_name = last.file_name; reason = latest } ∷ [];
      }

  unfoldable pub is_new : MigrationFile → Bool
  is_new f = not (has (map (λ m. m.file) env.metadata.migrations) f.file_name)

  unfoldable pub with_new : Editables → Editables
  with_new e = foldl (λ e f. offer_file new e f.file_name) e (keep is_new env.disk.files)

  -- The rows add the failed files.
  abbrev pub with_rows : Option (List MigrationRecord) → Editables → Editables
  with_rows none e = e
  with_rows (some rows) e = foldl (offer_failed rows) e env.disk.files

  unfoldable pub all_editables : MigrationFile → Editables
  all_editables last = with_rows env.rows (with_new (first_editables last))

  unfoldable pub command_editable : EditableResult
  command_editable = elim (get_last? env.disk.files) [
    | none ↦ record { editable_files = []; entries = [] }
    | some last ↦
        let e = all_editables last in
        record {
          editable_files =
              map (λ f. f.file_name) (keep (λ f. has e.editable_set f.file_name) env.disk.files);
          entries = e.entries;
        }
  ]
