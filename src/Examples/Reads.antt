-- ===== src/Examples/Reads.antt =====
-- The commands that only read, on the files and rows of the runs of `apply`.
use migraguard.Prelude.{
  ◌≡◌, ◌↔◌, refl, true, false, ◌&&◌, ◌||◌, none, some, List, [], ◌∷◌, map, if◌then◌else◌, All,
}
use migraguard.Prelude.Text.{codes, ◌==◌}
use migraguard.Prelude.Maps.{has, lookup, insert}
use migraguard.Naming.{expand}
use migraguard.Db.{MigrationStatus, MigrationRecord, safe, insert_record}
use migraguard.Metadata.{MetadataJson, is_dag_mode}
use migraguard.GroupState.{
  get_latest_record, derive_group_state, derive_all_group_states, group_names,
}
use migraguard.Deps.Build.{table, view, BuildEnv, build_dependency_graph_from_files}
use migraguard.Deps.Build.Edges.{JoinsFiles, built_edges_join}
use migraguard.Commands.Apply.{empty_result, process_file}
use migraguard.Commands.Apply.Run.{job_of, apply_loop, visit_name, records_by_file, file_map}
use migraguard.Commands.Apply.Command.{command_apply}
use migraguard.Commands.Check.{CheckEnv, command_check}
use migraguard.Commands.Check.Passes.{IsConsistent, check_passes}
use migraguard.Commands.Editable.{EditableEnv, command_editable}
use migraguard.Commands.Editable.Agrees.{starts_editable, named_new, failed_in, has-editable_files}
use migraguard.Commands.Gate.{command_gate}
use migraguard.Commands.Gate.Conditions.{Condition, holds}
use migraguard.Commands.Gate.Passes.{contract_of, gate_passes}
use migraguard.Commands.GroupStatus.{found_groups, group_not_found, command_group_status}
use migraguard.Commands.GroupStatus.Agrees.{group_status_agrees}
use migraguard.Commands.Status.{status_entry}
use migraguard.Commands.Status.Predicts.{announced, is_done, status_predicts, status_after_apply}
use migraguard.Examples.Memory.{Memory, memory, memory-IsDatabase, phase_row_at, safe_row_at}
use migraguard.Examples.ApplyRuns.{env, disk, options, blank, linear, safe_file}

-- The file a is recorded with the checksum that it has, and b is new.
abbrev metadata : MetadataJson
metadata = record {
  dag_model = false;
  model_since = none;
  migrations =
      record { file = codes "a"; checksum = codes "a"; migration_class = none; group_name = none }
      ∷ [];
  baselines = none;
}

abbrev check_env : CheckEnv
check_env = record {
  disk = disk;
  metadata = metadata;
  config_dag = false;
  graph = record { files = []; edges = [] };
}

check_passes_example : ((command_check check_env).errors ≡ []) ↔ IsConsistent check_env
check_passes_example = check_passes check_env

-- The file a has the row of a failure.
abbrev failed_rows : List MigrationRecord
failed_rows = safe_row_at 1 (codes "a") (codes "a") MigrationStatus.failed ∷ []

abbrev editable_env : EditableEnv
editable_env = record {
  disk = disk;
  metadata = metadata;
  config_dag = false;
  graph = record { files = []; edges = [] };
  rows = some failed_rows;
}

has-editable_files_example : has (command_editable editable_env).editable_files (codes "a") ≡ (
    has (map (λ f. f.file_name) disk.files) (codes "a")
    && (starts_editable editable_env (safe_file (codes "b")) (codes "a")
        || (named_new editable_env (codes "a") disk.files
            || failed_in editable_env (some failed_rows) (codes "a"))))
has-editable_files_example =
    has-editable_files editable_env (safe_file (codes "b")) (codes "a") refl

status_predicts_example :
    process_file memory (job_of linear (safe_file (codes "a"))) empty_result blank
    ≡ announced memory
        (status_entry memory disk blank (safe_file (codes "a"))).status
        (job_of linear (safe_file (codes "a")))
        empty_result
        blank
status_predicts_example =
    status_predicts memory linear blank (safe_file (codes "a")) empty_result refl

status_after_apply_example :
    All
      (λ f.
        f.migration_class ≡ safe
        → is_done
            (status_entry memory disk (command_apply memory env options blank).session f).status
          ≡ true)
      disk.files
unfolding command_apply is_dag_mode apply_loop visit_name process_file insert_record file_map
    records_by_file lookup insert has get_latest_record ◌==◌
status_after_apply_example =
    status_after_apply memory env memory-IsDatabase refl (refl, (refl, tt)) options blank refl refl

abbrev required : List Condition
required = record { name = codes "g"; state = codes "expand_applied" } ∷ []

abbrev forbidden : List Condition
forbidden = record { name = codes "g"; state = codes "backfill_running" } ∷ []

abbrev expanded : Memory
expanded = record {
  rows = phase_row_at 1 (codes "g") expand MigrationStatus.applied ∷ [];
  broken = [];
}

gate_passes_example :
    ((command_gate memory (contract_of required forbidden) expanded).pass ≡ true) ↔ (
      All (λ c. holds (derive_all_group_states expanded.rows) c ≡ true) required
      × All (λ c. holds (derive_all_group_states expanded.rows) c ≡ false) forbidden)
unfolding ◌==◌
gate_passes_example = gate_passes memory required forbidden expanded (refl, tt) (refl, tt)

group_status_agrees_example : command_group_status memory expanded (some (codes "g")) ≡ (
    if has (group_names expanded.rows) (codes "g")
    then found_groups (derive_group_state expanded.rows (codes "g") ∷ [])
    else group_not_found (codes "g"))
unfolding ◌==◌
group_status_agrees_example = group_status_agrees memory expanded (codes "g") refl

-- The file a creates a table, and b refers to it.
abbrev build_env : BuildEnv
build_env = record {
  files = disk.files;
  analyze_file = λ f. record {
    creates = record { object_type = table; name = codes "t" } ∷ [];
    references = record { object_type = view; name = codes "t" } ∷ [];
  };
  explicit_deps = λ f. [];
  config_deps = [];
}

built_edges_join_example :
    let g = build_dependency_graph_from_files build_env in All (JoinsFiles g.files) g.edges
built_edges_join_example = built_edges_join build_env
