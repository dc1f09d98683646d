-- ===== src/Commands/Squash/Run.antt =====
-- src/commands/squash.ts: `dagSquash` and `commandSquash`.
use migraguard.Prelude.{
  Bool, false, not, ◌||◌, none, some, List, [], ◌∷◌, map, keep, length, if◌then◌else◌, ltb, nat_eq,
}
use migraguard.Prelude.Maps.{has}
use migraguard.Scanner.{MigrationFile}
use migraguard.Metadata.{MetadataJson, is_dag_mode}
use migraguard.Deps.{DependencyGraph}
use migraguard.Commands.Squash.{Folder, SquashEnv, Squashed, squash_group}
use migraguard.Commands.Squash.Components.{find_connected_components}

-- What the command reads. The folder and the saved metadata are what it changes.
pub record SquashInput : Type 0 where
  pub env : SquashEnv
  pub config_dag : Bool
  pub dry_run : Bool
  pub files : List MigrationFile
  pub graph : DependencyGraph

abbrev unchanged_state : MetadataJson → Folder → Squashed
unchanged_state saved folder = record { folder = folder; metadata = saved; threw = false }

-- saveMetadata(config, updated), which a throw before it leaves out
abbrev saved_unless_threw : MetadataJson → Squashed → Squashed
saved_unless_threw saved s = if s.threw then record s { metadata = saved } else s

-- The loop of dagSquash; `current` is `currentMeta`.
unfoldable squash_groups : SquashEnv → List (List MigrationFile) → Squashed → Squashed
unfolding squash_group
squash_groups env [] current = current
squash_groups env (group ∷ groups) current =
    let next = squash_group env group current.metadata current.folder in
    let rest = squash_groups env groups next in if next.threw then next else rest

unfoldable dag_squash : SquashInput → List MigrationFile → MetadataJson → Folder → Squashed
unfolding squash_groups find_connected_components
dag_squash input new_files saved folder =
    elim (find_connected_components input.env new_files input.graph) [
      | none ↦ unchanged_state saved folder
      | some groups ↦
          let squashable = keep (λ g. not (ltb (length g) 2)) groups in
          saved_unless_threw saved
            (squash_groups input.env squashable (unchanged_state saved folder))
    ]

unfoldable pub new_files_of : List MigrationFile → MetadataJson → List MigrationFile
new_files_of files saved =
    keep (λ f. not (has (map (λ m. m.file) saved.migrations) f.file_name)) files

unfoldable pub command_squash : SquashInput → MetadataJson → Folder → Squashed
unfolding dag_squash squash_group new_files_of
command_squash input saved folder =
    let new_files = new_files_of input.files saved in
    if nat_eq (length new_files) 0 || input.dry_run
    then unchanged_state saved folder
    else if is_dag_mode saved input.config_dag
    then dag_squash input new_files saved folder
    else if nat_eq (length new_files) 1
    then unchanged_state saved folder
    else saved_unless_threw saved (squash_group input.env new_files saved folder)
