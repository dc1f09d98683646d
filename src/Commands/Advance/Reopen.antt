-- ===== src/Commands/Advance/Reopen.antt =====
-- `commandAdvance` on a group that has completed.
use mathlib.Core.Path.{subst, subst₂}
use migraguard.Prelude.{◌≡◌, true, false, ap, sym, ◌∙◌, arith}
use migraguard.Naming.{contract}
use migraguard.Db.{Database, IsDatabase, failed}
use migraguard.GroupState.{is_group_open, is_open_state, contract_completed}
use migraguard.GroupState.Machine.{
  Statuses, statuses, set_status, may_enter, state_of, state-eq-state_of,
}
use migraguard.Commands.Advance.{AdvanceOptions, status_map, AdvanceStatus, command_advance}
use migraguard.Commands.Advance.Effect.{group_in, advance_refines}

contract_failed-reopens :
    (m : Statuses)
    → may_enter m contract ≡ true
    → state_of m ≡ contract_completed
    → is_open_state (state_of (set_status contract failed m)) ≡ true
contract_failed-reopens m h e = ground arith

module _ (d : Database) (laws : IsDatabase d) (o : AdvanceOptions) (s : d.Session) where
  -- For a database that keeps `IsDatabase`. An advance of contract to failed, no dry run, of a
  -- group whose derived state is contract_completed and whose statuses let contract in, makes the
  -- group open.
  pub advance_reopens :
      o.phase ≡ contract
      → o.status ≡ AdvanceStatus.failed
      → o.dry_run ≡ false
      → may_enter (statuses (group_in d s o.group)) contract ≡ true
      → (group_in d s o.group).state ≡ contract_completed
      → is_group_open (group_in d (command_advance d o s).1 o.group) ≡ true
  unfolding is_group_open
  advance_reopens p st k h e =
      let enter = subst (λ x. may_enter (statuses (group_in d s o.group)) x ≡ true) (sym p) h in
      let (_, sets, _) = advance_refines d laws o s enter k in
      let m = statuses (group_in d s o.group) in
      let set : statuses (group_in d (command_advance d o s).1 o.group)
          ≡ set_status contract failed m =
        subst₂
          (λ x y.
            statuses (group_in d (command_advance d o s).1 o.group) ≡ set_status x (status_map y) m)
          p st sets in
      subst (λ x. is_open_state x ≡ true)
        (sym
          (state-eq-state_of (d.select_rows (command_advance d o s).1) o.group ∙ ap state_of set))
        (contract_failed-reopens m h (sym (state-eq-state_of (d.select_rows s) o.group) ∙ e))
