-- ===== src/Examples/ApplyRuns.antt =====
-- Runs of `apply` over two safe files.
use migraguard.Prelude.{
  ◌≡◌, refl, Bool, true, false, none, some, List, [], ◌∷◌, ◌++◌, keep, if◌then◌else◌,
}
use migraguard.Prelude.Text.{Text, codes, ◌==◌}
use migraguard.Prelude.Maps.{has, lookup, insert}
use migraguard.Db.{MigrationRecord, applied, safe, no_options, insert_record}
use migraguard.Scanner.{MigrationFile, Disk}
use migraguard.Metadata.{is_dag_mode}
use migraguard.GroupState.{get_latest_record}
use migraguard.Commands.Resolve.{of_file}
use migraguard.Commands.Apply.{
  FileJob, ok, error, empty_result, push_error, ancestor_revert, process_file,
}
use migraguard.Commands.Apply.Run.{
  LoopContext, Progress, job_of, after_process, apply_loop, visit_name, records_by_file, file_map,
}
use migraguard.Commands.Apply.Command.{
  ApplyOptions, ApplyEnv, command_apply, has_drift, apply_from_baseline,
}
use migraguard.Commands.Apply.Dry.{apply_dry}
use migraguard.Commands.Apply.Snapshot.{names}
use migraguard.Commands.Apply.Success.{AllSettled, IsIdle, apply_settles, apply_twice}
use migraguard.Commands.Apply.Decisions.{is_settled, locked_file, revert_refused}
use migraguard.Commands.Apply.Stops.{error_stops}
use migraguard.Commands.Apply.Blocking.{failure_blocks}
use migraguard.Examples.Memory.{Memory, memory, memory-IsDatabase, safe_row_at}
use migraguard.Examples.Graphs.{chain, c-Depends_on_a}

abbrev pub safe_file : Text → MigrationFile
safe_file name = record {
  file_name = name;
  file_path = name;
  source_dir = [];
  parsed = record {
    full_name = name;
    prefix = [];
    timestamp = [];
    description = [];
    sort_key = [];
  };
  migration_class = safe;
  phase = none;
  group_name = none;
  phase_files = none;
}

abbrev pub disk : Disk
disk = record {
  files = safe_file (codes "a") ∷ safe_file (codes "b") ∷ [];
  checksum_file = λ path. path;
}

abbrev pub env : ApplyEnv memory
env = record {
  disk = disk;
  metadata = record { dag_model = false; model_since = none; migrations = []; baselines = none };
  config_dag = false;
  graph = record { files = []; edges = [] };
  schema_path = codes "schema.sql";
  schema_file = none;
  dump_schema = λ s. [];
}

abbrev pub options : ApplyOptions
options = record { with_drift_check = false; from_baseline = false; tag = none; dry_run = false }

abbrev pub blank : Memory
blank = record { rows = []; broken = [] }

apply_settles_example : AllSettled memory env (command_apply memory env options blank).session
unfolding command_apply is_dag_mode apply_loop visit_name process_file insert_record file_map
    records_by_file lookup insert has get_latest_record ◌==◌
apply_settles_example =
    apply_settles memory env memory-IsDatabase refl (refl, (refl, tt)) options blank refl refl

apply_twice_example :
    IsIdle memory env
      (command_apply memory env options (command_apply memory env options blank).session)
      (command_apply memory env options blank).session
unfolding command_apply is_dag_mode apply_loop visit_name process_file insert_record file_map
    records_by_file lookup insert has get_latest_record ◌==◌
apply_twice_example =
    apply_twice memory env memory-IsDatabase refl (refl, (refl, tt)) options options blank refl refl
      (refl, (refl, tt)) refl refl

abbrev job : Text → List MigrationRecord → Bool → FileJob
job checksum records editable = record {
  file_path = codes "a";
  file_name = codes "a";
  file_records = records;
  latest_record = get_latest_record records;
  current_checksum = checksum;
  is_editable = editable;
  insert_opts = no_options;
}

-- The file a had the checksum 1, then 2.
abbrev pub two_rows : List MigrationRecord
two_rows =
    safe_row_at 1 (codes "a") (codes "1") applied
    ∷ safe_row_at 2 (codes "a") (codes "2") applied
    ∷ []

locked_file_example :
    let out = process_file memory (job (codes "3") two_rows false) empty_result blank in
    (out.2 ≡ blank)
    × (out.0 ≡ (
        if is_settled (safe_row_at 2 (codes "a") (codes "2") applied) (codes "3")
        then ok
        else error))
unfolding get_latest_record
locked_file_example =
    locked_file memory (job (codes "3") two_rows false) empty_result blank
      (safe_row_at 2 (codes "a") (codes "2") applied) refl refl

revert_refused_example :
    process_file memory (job (codes "1") two_rows true) empty_result blank
    ≡ (error, push_error (codes "a") (ancestor_revert (codes "a")) empty_result, blank)
unfolding get_latest_record ◌==◌
revert_refused_example =
    revert_refused memory (job (codes "1") two_rows true) empty_result blank
      (safe_row_at 2 (codes "a") (codes "2") applied) refl refl refl refl refl refl

abbrev pub linear : LoopContext
linear = record {
  disk = disk;
  graph = none;
  all_records = [];
  latest_file_name = codes "b";
  tag = none;
}

-- A session in which the execution of a fails.
abbrev broken_a : Progress memory
broken_a = record {
  result = empty_result;
  blocked_set = [];
  session = record { rows = []; broken = codes "a" ∷ [] };
}

error_stops_example :
    apply_loop memory linear
      (names (safe_file (codes "a") ∷ [] ++ safe_file (codes "b") ∷ []))
      broken_a
    ≡ apply_loop memory linear (names (safe_file (codes "a") ∷ [])) broken_a
unfolding apply_loop visit_name process_file file_map lookup insert has ◌==◌ records_by_file
    get_latest_record
error_stops_example =
    error_stops memory memory-IsDatabase linear refl (safe_file (codes "a") ∷ [])
      (safe_file (codes "b") ∷ []) broken_a (refl, tt) refl (λ e. cc)

abbrev in_graph : LoopContext
in_graph = record linear { graph = some chain }

failure_blocks_example :
    let after =
      (after_process memory in_graph (safe_file (codes "a")) [] (
        process_file memory
          (job_of in_graph (safe_file (codes "a")))
          empty_result
          broken_a.session)).1 in
    (keep
        (of_file (codes "c"))
        (memory.select_rows (apply_loop memory in_graph (codes "b" ∷ []) after).session)
      ≡ keep (of_file (codes "c")) (memory.select_rows after.session))
    × (has (apply_loop memory in_graph (codes "b" ∷ []) after).blocked_set (codes "c") ≡ true)
unfolding job_of process_file has ◌==◌ records_by_file lookup insert get_latest_record
failure_blocks_example =
    failure_blocks memory memory-IsDatabase in_graph chain refl (codes "c") (safe_file (codes "a"))
      broken_a (codes "b" ∷ []) refl c-Depends_on_a

abbrev dry_options : ApplyOptions
dry_options = record options { dry_run = true; from_baseline = true }

apply_dry_example : (command_apply memory env dry_options blank).session ≡ (
    if has_drift memory env false blank
    then blank
    else if true
    then (apply_from_baseline memory env none empty_result blank).1
    else blank)
apply_dry_example = apply_dry memory env dry_options refl blank
