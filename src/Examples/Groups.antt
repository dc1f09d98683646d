-- ===== src/Examples/Groups.antt =====
-- The life of one group, recorded by `advance`, `apply-phase` and `resolve`.
use migraguard.Prelude.{◌≡◌, ◌≤◌, refl, true, false, none, some, [], ◌∷◌, ◌++◌, if◌then◌else◌}
use migraguard.Prelude.Text.{Text, codes, ◌==◌}
use migraguard.Naming.{expand, backfill, switch, contract}
use migraguard.Db.{MigrationStatus, expand_contract}
use migraguard.Scanner.{MigrationFile, Disk}
use migraguard.GroupState.{
  get_latest_record, latest_record_for_phase, derive_group_state, compute_state, is_group_open,
}
use migraguard.GroupState.History.{IsOrderly}
use migraguard.GroupState.Machine.{statuses, set_status, progress}
use migraguard.Commands.Advance.{AdvanceOptions, AdvanceStatus, command_advance}
use migraguard.Commands.Advance.Effect.{group_in, advance_refines, advance_monotone}
use migraguard.Commands.Advance.Reopen.{advance_reopens}
use migraguard.Commands.ApplyPhase.{ApplyPhaseOptions, command_apply_phase}
use migraguard.Commands.ApplyPhase.Effect.{outcome, apply_phase_refines}
use migraguard.Commands.Resolve.{command_resolve, resolved}
use migraguard.Commands.Resolve.Effect.{resolve_failed, latest_of, resolve_row}
use migraguard.Commands.Histories.{start, after, advanced, History-IsOrderly}
use migraguard.Examples.Memory.{Memory, memory, memory-IsDatabase, phase_row_at, safe_row_at}

abbrev group : Text
group = codes "g"

abbrev expanded_group : Memory
expanded_group = record {
  rows = phase_row_at 1 group expand MigrationStatus.applied ∷ [];
  broken = [];
}

abbrev start_backfill : AdvanceOptions
start_backfill = record {
  group = group;
  phase = backfill;
  status = AdvanceStatus.running;
  tag = none;
  dry_run = false;
}

advance_refines_example :
    ((command_advance memory start_backfill expanded_group).0.success ≡ true)
    × (statuses (group_in memory (command_advance memory start_backfill expanded_group).1 group)
        ≡ set_status backfill MigrationStatus.running
            (statuses (group_in memory expanded_group group)))
    × ((g : Text)
        → (group == g) ≡ false
        → group_in memory (command_advance memory start_backfill expanded_group).1 g
          ≡ group_in memory expanded_group g)
unfolding derive_group_state latest_record_for_phase get_latest_record compute_state ◌==◌
advance_refines_example =
    advance_refines memory memory-IsDatabase start_backfill expanded_group refl refl

-- A switch before its backfill has completed.
abbrev waiting_group : Memory
waiting_group = record {
  rows =
      phase_row_at 1 group expand MigrationStatus.applied
      ∷ phase_row_at 2 group backfill MigrationStatus.running
      ∷ [];
  broken = [];
}

abbrev finish_switch : AdvanceOptions
finish_switch = record start_backfill { phase = switch; status = AdvanceStatus.completed }

advance_monotone_example :
    progress (group_in memory expanded_group group).state
    ≤ progress
        (group_in memory (command_advance memory start_backfill expanded_group).1 group).state
unfolding derive_group_state latest_record_for_phase get_latest_record compute_state ◌==◌
advance_monotone_example =
    advance_monotone memory memory-IsDatabase start_backfill expanded_group refl refl refl

abbrev completed_group : Memory
completed_group = record {
  rows =
      phase_row_at 1 group expand MigrationStatus.applied
      ∷ phase_row_at 2 group contract MigrationStatus.applied
      ∷ [];
  broken = [];
}

abbrev fail_contract : AdvanceOptions
fail_contract = record start_backfill { phase = contract; status = AdvanceStatus.failed }

advance_reopens_example :
    is_group_open (group_in memory (command_advance memory fail_contract completed_group).1 group)
    ≡ true
unfolding derive_group_state latest_record_for_phase get_latest_record compute_state ◌==◌
advance_reopens_example =
    advance_reopens memory memory-IsDatabase fail_contract completed_group refl refl refl refl refl

abbrev file_of : Text → MigrationFile
file_of name = record {
  file_name = name;
  file_path = name;
  source_dir = [];
  parsed = record {
    full_name = name;
    prefix = [];
    timestamp = [];
    description = [];
    sort_key = [];
  };
  migration_class = expand_contract;
  phase = some backfill;
  group_name = some group;
  phase_files = none;
}

abbrev disk : Disk
disk = record { files = file_of (codes "g/2_backfill.sql") ∷ []; checksum_file = λ path. path }

abbrev run_backfill : ApplyPhaseOptions
run_backfill = record { group = group; phase = backfill; tag = none; dry_run = false }

abbrev backfill_breaks : Memory
backfill_breaks = record expanded_group { broken = codes "g/2_backfill.sql" ∷ [] }

apply_phase_refines_example :
    ((command_apply_phase memory disk run_backfill backfill_breaks).0.success
      ≡ (memory.execute_sql_file (codes "g/2_backfill.sql") backfill_breaks).0.success)
    × (statuses
          (group_in memory (command_apply_phase memory disk run_backfill backfill_breaks).1 group)
        ≡ set_status backfill
            (outcome memory memory-IsDatabase disk run_backfill backfill_breaks
              (file_of (codes "g/2_backfill.sql")))
            (statuses (group_in memory backfill_breaks group)))
    × ((g : Text)
        → (group == g) ≡ false
        → group_in memory (command_apply_phase memory disk run_backfill backfill_breaks).1 g
          ≡ group_in memory backfill_breaks g)
unfolding derive_group_state latest_record_for_phase get_latest_record compute_state ◌==◌
apply_phase_refines_example =
    apply_phase_refines memory memory-IsDatabase disk run_backfill backfill_breaks
      (file_of (codes "g/2_backfill.sql")) refl refl refl

abbrev file : Text
file = codes "a.sql"

abbrev failed_file : Memory
failed_file = record {
  rows = safe_row_at 1 file (codes "c1") MigrationStatus.failed ∷ [];
  broken = [];
}

resolve_failed_example :
    ((command_resolve memory file false failed_file).0 ≡ resolved)
    × ((command_resolve memory file false failed_file).1.rows
        ≡ failed_file.rows
          ++ resolve_row memory memory-IsDatabase file failed_file
              (safe_row_at 1 file (codes "c1") MigrationStatus.failed)
            ∷ [])
    × ((g : Text)
        → latest_of memory (command_resolve memory file false failed_file).1 g ≡ (
            if file == g
            then some (
                resolve_row memory memory-IsDatabase file failed_file
                  (safe_row_at 1 file (codes "c1") MigrationStatus.failed))
            else latest_of memory failed_file g))
unfolding get_latest_record ◌==◌
resolve_failed_example =
    resolve_failed memory memory-IsDatabase file failed_file
      (safe_row_at 1 file (codes "c1") MigrationStatus.failed) refl refl

History-IsOrderly_example :
    IsOrderly (memory.select_rows (command_advance memory start_backfill expanded_group).1)
History-IsOrderly_example =
    History-IsOrderly memory memory-IsDatabase {s = expanded_group}
      (after start (advanced start_backfill refl)) refl
