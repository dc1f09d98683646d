-- ===== src/GroupState.antt =====
-- src/group-state.ts: the state of an expand/contract group, derived from its rows.
pub mod Latest
pub mod Record
pub mod Machine
pub mod History
use migraguard.Prelude.{
  ℕ, Bool, true, false, not, ◌&&◌, ◌||◌, Option, none, some, List, [], ◌∷◌, map, foldl, ltb, keep,
  if◌then◌else◌,
}
use migraguard.Prelude.Text.{Text, ◌==◌}
use migraguard.Prelude.Maps.{add}
use migraguard.Naming.{Phase, expand, backfill, switch, contract, phase_eq}
use migraguard.Db.{MigrationStatus, applied, failed, skipped, running, MigrationRecord, status_eq}

pub data GroupStateName : Type 0 where
  not_applied expand_applied backfill_running backfill_failed backfill_completed : GroupStateName
  switch_applied contract_ready contract_completed : GroupStateName

pub record PhaseRecord : Type 0 where
  pub file_name : Text
  pub status : MigrationStatus
  pub applied_at : ℕ

pub record GroupPhases : Type 0 where
  pub expand_rec : Option PhaseRecord
  pub backfill_rec : Option PhaseRecord
  pub switch_rec : Option PhaseRecord
  pub contract_rec : Option PhaseRecord

pub record GroupState : Type 0 where
  pub group_name : Text
  pub state : GroupStateName
  pub phases : GroupPhases

-- one step of `reduce`: r.appliedAt > latest.appliedAt ? r : latest
abbrev pub later_of : MigrationRecord → MigrationRecord → MigrationRecord
later_of latest r = if ltb latest.applied_at r.applied_at then r else latest

-- `getLatestRecord` of the commands, and the reduce of `latestRecordForPhase`
unfoldable pub get_latest_record : List MigrationRecord → Option MigrationRecord
get_latest_record [] = none
get_latest_record (r ∷ records) = some (foldl later_of r records)

abbrev pub in_phase : Phase → MigrationRecord → Bool
in_phase phase r = elim r.phase [ none ↦ false | some p ↦ phase_eq p phase ]

abbrev pub in_group : Text → MigrationRecord → Bool
in_group group r = elim r.group_name [ none ↦ false | some g ↦ g == group ]

unfoldable pub latest_record_for_phase : List MigrationRecord → Phase → Option MigrationRecord
latest_record_for_phase records phase = get_latest_record (keep (in_phase phase) records)

abbrev pub to_phase_record : MigrationRecord → PhaseRecord
to_phase_record r = record { file_name = r.file_name; status = r.status; applied_at = r.applied_at }

-- rec && rec.status === status
abbrev pub has_status : MigrationStatus → Option MigrationRecord → Bool
has_status status none = false
has_status status (some r) = status_eq r.status status

unfoldable pub compute_state :
    Option MigrationRecord
    → Option MigrationRecord
    → Option MigrationRecord
    → Option MigrationRecord
    → GroupStateName
compute_state e b s c =
    if not (has_status applied e)
    then not_applied
    else if has_status applied c
    then contract_completed
    else if has_status applied s
    then contract_ready
    else if has_status running b
    then backfill_running
    else if has_status failed b
    then backfill_failed
    else if has_status applied b
    then backfill_completed
    else expand_applied

abbrev pub or_null : Option MigrationRecord → Option PhaseRecord
or_null none = none
or_null (some r) = some (to_phase_record r)

unfoldable pub derive_group_state : List MigrationRecord → Text → GroupState
derive_group_state records group =
    let group_records = keep (in_group group) records in
    let e = latest_record_for_phase group_records expand in
    let b = latest_record_for_phase group_records backfill in
    let s = latest_record_for_phase group_records switch in
    let c = latest_record_for_phase group_records contract in
    record {
      group_name = group;
      state = compute_state e b s c;
      phases = record {
        expand_rec = or_null e;
        backfill_rec = or_null b;
        switch_rec = or_null s;
        contract_rec = or_null c;
      };
    }

-- if (r.groupName) groupNames.add(r.groupName): the empty string is not added
abbrev pub add_group_name : List Text → MigrationRecord → List Text
add_group_name names r = elim r.group_name [
  | none ↦ names
  | some g ↦ if g == [] then names else add g names
]

unfoldable pub group_names : List MigrationRecord → List Text
group_names = foldl add_group_name []

unfoldable pub derive_all_group_states : List MigrationRecord → List GroupState
derive_all_group_states records = map (derive_group_state records) (group_names records)

abbrev pub state_eq : GroupStateName → GroupStateName → Bool
state_eq not_applied not_applied = true
state_eq expand_applied expand_applied = true
state_eq backfill_running backfill_running = true
state_eq backfill_failed backfill_failed = true
state_eq backfill_completed backfill_completed = true
state_eq switch_applied switch_applied = true
state_eq contract_ready contract_ready = true
state_eq contract_completed contract_completed = true
state_eq _ _ = false

abbrev pub is_open_state : GroupStateName → Bool
is_open_state state = not (state_eq state contract_completed) && not (state_eq state not_applied)

unfoldable pub is_group_open : GroupState → Bool
is_group_open g = is_open_state g.state

-- rec?.status === 'applied'
abbrev pub is_applied : Option PhaseRecord → Bool
is_applied none = false
is_applied (some r) = status_eq r.status applied

-- rec && rec.status !== 'applied'
abbrev pub is_unfinished : Option PhaseRecord → Bool
is_unfinished none = false
is_unfinished (some r) = not (status_eq r.status applied)

unfoldable pub is_phase_complete : GroupState → Phase → Bool
is_phase_complete g expand = is_applied g.phases.expand_rec
is_phase_complete g backfill = is_applied g.phases.backfill_rec
is_phase_complete g switch = is_applied g.phases.switch_rec
is_phase_complete g contract = is_applied g.phases.contract_rec

unfoldable pub can_advance_to_phase : GroupState → Phase → Bool
can_advance_to_phase g expand = true
can_advance_to_phase g backfill = is_applied g.phases.expand_rec
can_advance_to_phase g switch =
    if not (is_applied g.phases.expand_rec)
    then false
    else if is_unfinished g.phases.backfill_rec
    then false
    else true
can_advance_to_phase g contract =
    if not (is_applied g.phases.expand_rec)
    then false
    else if is_unfinished g.phases.backfill_rec
    then false
    else if is_unfinished g.phases.switch_rec
    then false
    else true
