-- ===== src/Commands/Advance/Effect.antt =====
-- `commandAdvance` on the abstract view of a group.
use mathlib.Core.Path.{subst₂}
use migraguard.Prelude.{◌≤◌, ◌≡◌, refl, true, false, [], ◌∷◌, ◌++◌, ◌∙◌, sym, ap}
use migraguard.Prelude.Text.{Text, ◌==◌, eq_refl}
use migraguard.Db.{
  MigrationRecord, applied, skipped, status_eq, stamped, new_row, Database, IsDatabase,
  insert_record,
}
use migraguard.GroupState.{GroupState, derive_group_state, can_advance_to_phase}
use migraguard.GroupState.Record.{derive_group_state-other}
use migraguard.GroupState.Machine.{
  statuses, set_status, get_status, may_enter, is, state_of, state-eq-state_of,
  can_advance-eq-may_enter, statuses-snoc, progress, progress-set_status,
}
use migraguard.Commands.Advance.{
  AdvanceOptions, AdvanceStatus, status_map, command_advance, phase_options, find_phase_file_name,
}

-- The group as the rows of a session show it.
abbrev pub group_in : (d : Database) → d.Session → Text → GroupState
group_in d s g = derive_group_state (d.select_rows s) g

-- The row that a recorded advance adds.
abbrev pub advance_row : (d : Database) → AdvanceOptions → d.Session → MigrationRecord
advance_row d o s = stamped (d.now s) (
    new_row (find_phase_file_name o.group o.phase (d.select_rows s)) [] (status_map o.status)
      (phase_options o.group o.phase o.tag))

status_map-ne_skipped : (st : AdvanceStatus) → status_eq (status_map st) skipped ≡ false
status_map-ne_skipped AdvanceStatus.running = refl
status_map-ne_skipped _ = refl

module _ (d : Database) (laws : IsDatabase d) (o : AdvanceOptions) (s : d.Session) where
  -- The rows after an advance that is recorded.
  pub select_rows-advance :
      can_advance_to_phase (group_in d s o.group) o.phase ≡ true
      → o.dry_run ≡ false
      → ((command_advance d o s).0.success ≡ true)
        × (d.select_rows (command_advance d o s).1 ≡ d.select_rows s ++ advance_row d o s ∷ [])
  unfolding command_advance insert_record
  select_rows-advance h k = rw (h, k) (refl, laws.select-insert _ s)

  -- For a database that keeps `IsDatabase`. If the statuses of the group let the phase in, an
  -- advance that is no dry run succeeds. It sets the latest status of that phase of the group, and
  -- leaves every other group as it was.
  pub advance_refines :
      may_enter (statuses (group_in d s o.group)) o.phase ≡ true
      → o.dry_run ≡ false
      → ((command_advance d o s).0.success ≡ true)
        × (statuses (group_in d (command_advance d o s).1 o.group)
            ≡ set_status o.phase (status_map o.status) (statuses (group_in d s o.group)))
        × ((g : Text)
            → (o.group == g) ≡ false
            → group_in d (command_advance d o s).1 g ≡ group_in d s g)
  advance_refines h k =
      let (done, rows) = select_rows-advance (can_advance-eq-may_enter _ _ ∙ h) k in
      (
        done,
        rw rows (
            statuses-snoc (d.select_rows s) (advance_row d o s) o.group o.phase (laws.now_later s)
              (eq_refl o.group) refl),
        λ g e. rw rows (derive_group_state-other (d.select_rows s) (advance_row d o s) g e),
      )

  -- For a database that keeps `IsDatabase`. An advance that is no dry run, of a phase that may be
  -- entered and is not applied yet, does not lower the rank of the state of the group.
  pub advance_monotone :
      may_enter (statuses (group_in d s o.group)) o.phase ≡ true
      → o.dry_run ≡ false
      → is applied (get_status o.phase (statuses (group_in d s o.group))) ≡ false
      → progress (group_in d s o.group).state
        ≤ progress (group_in d (command_advance d o s).1 o.group).state
  advance_monotone h k n =
      let (_, sets, _) = advance_refines h k in
      let before = state-eq-state_of (d.select_rows s) o.group in
      let after = state-eq-state_of (d.select_rows (command_advance d o s).1) o.group in
      subst₂ (λ a b. progress a ≤ progress b) (sym before) (sym (after ∙ ap state_of sets))
        (progress-set_status (statuses (group_in d s o.group)) o.phase (status_map o.status) h n
          (status_map-ne_skipped o.status))
