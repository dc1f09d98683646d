-- ===== src/Commands/GroupStatus.antt =====
-- src/commands/group-status.ts: the states of one group or of all.
pub mod Agrees
use migraguard.Prelude.{Bool, not, ◌&&◌, Option, none, some, List, [], ◌∷◌, any, if◌then◌else◌}
use migraguard.Prelude.Text.{Text, ◌==◌}
use migraguard.Db.{Database}
use migraguard.GroupState.{
  GroupState, not_applied, state_eq, in_group, derive_group_state, derive_all_group_states,
}

pub data GroupStatusResult : Type 0 where
  found_groups : List GroupState → GroupStatusResult
  group_not_found : Text → GroupStatusResult

module _ (d : Database) (s : d.Session) where
  -- The branch with a group's name.
  unfoldable pub one_group : Text → GroupStatusResult
  one_group group =
      let state = derive_group_state (d.select_rows s) group in
      if state_eq state.state not_applied && not (any (in_group group) (d.select_rows s))
      then group_not_found group
      else found_groups (state ∷ [])

  unfoldable pub command_group_status : Option Text → GroupStatusResult
  unfolding one_group
  command_group_status none = found_groups (derive_all_group_states (d.select_rows s))
  command_group_status (some group) =
      if group == []
      then found_groups (derive_all_group_states (d.select_rows s))
      else one_group group
