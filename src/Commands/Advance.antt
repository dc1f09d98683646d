-- ===== src/Commands/Advance.antt =====
-- src/commands/advance.ts: an external executor records the progress of a phase.
pub mod Effect
pub mod Reopen
use migraguard.Prelude.{
  ◌+◌, Bool, true, false, not, ◌&&◌, Option, none, some, List, [], ◌∷◌, ◌++◌, find, if◌then◌else◌,
}
use migraguard.Prelude.Text.{Text, codes}
use migraguard.Naming.{Phase, phase_order, phase_name}
use migraguard.Db.{
  MigrationStatus, MigrationRecord, InsertRecordOptions, expand_contract, Database, insert_record,
}
use migraguard.GroupState.{
  GroupStateName, in_phase, in_group, derive_group_state, can_advance_to_phase,
}

pub data AdvanceStatus : Type 0 where
  running completed failed : AdvanceStatus

-- STATUS_MAP
abbrev pub status_map : AdvanceStatus → MigrationStatus
status_map AdvanceStatus.running = MigrationStatus.running
status_map AdvanceStatus.completed = MigrationStatus.applied
status_map AdvanceStatus.failed = MigrationStatus.failed

pub record AdvanceOptions : Type 0 where
  pub group : Text
  pub phase : Phase
  pub status : AdvanceStatus
  pub tag : Option Text
  pub dry_run : Bool

-- `newState` is the derived state, or the text `phase:status` of a dry run.
pub data NewState : Type 0 where
  derived : GroupStateName → NewState
  announced : Phase → AdvanceStatus → NewState

pub data AdvanceError : Type 0 where
  prerequisites_not_complete : AdvanceError

pub record AdvanceResult : Type 0 where
  pub success : Bool
  pub previous_state : GroupStateName
  pub new_state : NewState
  pub error : Option AdvanceError

-- `${group}/${phaseNum}_${phase}.sql`
abbrev pub phase_file_name : Text → Phase → Text
phase_file_name group phase =
    group
    ++ codes "/"
    ++ ((48 + phase_order phase) ∷ [])
    ++ codes "_"
    ++ phase_name phase
    ++ codes ".sql"

abbrev file_name_or : Text → Option MigrationRecord → Text
file_name_or name none = name
file_name_or name (some r) = r.file_name

unfoldable pub find_phase_file_name : Text → Phase → List MigrationRecord → Text
find_phase_file_name group phase records =
    file_name_or (phase_file_name group phase)
      (find (λ r. in_group group r && in_phase phase r) records)

-- The options of a row of a group's phase.
abbrev pub phase_options : Text → Phase → Option Text → InsertRecordOptions
phase_options group phase tag = record {
  migration_class = some expand_contract;
  phase = some phase;
  group_name = some group;
  tag = tag;
}

module _ (d : Database) where
  unfoldable pub command_advance : AdvanceOptions → d.Session → AdvanceResult × d.Session
  command_advance o s =
      let records = d.select_rows s in
      let current = derive_group_state records o.group in
      let previous = current.state in
      let name = find_phase_file_name o.group o.phase records in
      let s' =
        insert_record d name [] (status_map o.status) (phase_options o.group o.phase o.tag) s in
      let new_state = (derive_group_state (d.select_rows s') o.group).state in
      if not (can_advance_to_phase current o.phase)
      then (
        record {
          success = false;
          previous_state = previous;
          new_state = derived previous;
          error = some prerequisites_not_complete;
        },
        s,
      )
      else if o.dry_run
      then (
        record {
          success = true;
          previous_state = previous;
          new_state = announced o.phase o.status;
          error = none;
        },
        s,
      )
      else (
        record {
          success = true;
          previous_state = previous;
          new_state = derived new_state;
          error = none;
        },
        s',
      )
