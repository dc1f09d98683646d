-- ===== src/Metadata.antt =====
-- src/metadata.ts: the entries of metadata.json.
pub mod Entries
pub mod Stored
pub mod Since
use migraguard.Prelude.{
  Bool, true, ◌||◌, Option, none, some, List, [], ◌∷◌, ◌++◌, map, find, keep, any, not,
  if◌then◌else◌,
}
use migraguard.Prelude.Text.{Text, ◌==◌, text_lt}
use migraguard.Db.{MigrationClass}

pub record MigrationEntry : Type 0 where
  pub file : Text
  pub checksum : Text
  pub migration_class : Option MigrationClass
  pub group_name : Option Text

pub record BaselineInclude : Type 0 where
  pub file : Text
  pub checksum : Text

pub record BaselineEntry : Type 0 where
  pub date : Text
  pub includes : List BaselineInclude

-- `dag_model` is model === 'dag'.
pub record MetadataJson : Type 0 where
  pub dag_model : Bool
  pub model_since : Option Text
  pub migrations : List MigrationEntry
  pub baselines : Option (List BaselineEntry)

unfoldable pub find_entry : MetadataJson → Text → Option MigrationEntry
find_entry m file = find (λ e. e.file == file) m.migrations

unfoldable pub add_entry : MetadataJson → MigrationEntry → MetadataJson
add_entry m e = record m { migrations = m.migrations ++ e ∷ [] }

unfoldable pub remove_entry : MetadataJson → Text → MetadataJson
remove_entry m file = record m { migrations = keep (λ e. not (e.file == file)) m.migrations }

abbrev pub with_checksum : Text → Text → MigrationEntry → MigrationEntry
with_checksum file checksum e = if e.file == file then record e { checksum = checksum } else e

unfoldable pub update_entry : MetadataJson → Text → Text → MetadataJson
update_entry m file checksum = record m {
  migrations = map (with_checksum file checksum) m.migrations;
}

-- The configuration or the metadata asks for the DAG model.
unfoldable pub is_dag_mode : MetadataJson → Bool → Bool
is_dag_mode m config_dag = config_dag || m.dag_model

-- An empty `modelSince` counts as none.
unfoldable pub is_pre_model_since : MetadataJson → Text → Bool
is_pre_model_since m file = if not m.dag_model then true else elim m.model_since [
  | none ↦ true
  | some since ↦ if since == [] then true else text_lt file since
]

abbrev pub baselines_of : Option (List BaselineEntry) → List BaselineEntry
baselines_of none = []
baselines_of (some bs) = bs

unfoldable pub is_baselined_file : MetadataJson → Text → Bool
is_baselined_file m file =
    any (λ b. any (λ inc. inc.file == file) b.includes) (baselines_of m.baselines)
