-- ===== src/Commands/ApplyPhase/Effect.antt =====
-- `commandApplyPhase` on the abstract view of a group.
use migraguard.Prelude.{
  ◌≡◌, refl, true, false, Option, some, [], ◌∷◌, ◌++◌, ◌∙◌, find, if◌then◌else◌, arith, Bool-cases,
  Option-cases, inl, inr,
}
use migraguard.Prelude.Text.{Text, ◌==◌, eq_refl}
use migraguard.Db.{
  MigrationRecord, MigrationStatus, applied, failed, stamped, new_row, Database, IsDatabase,
}
use migraguard.Db.Laws.{select-execute_insert, now_later_execute}
use migraguard.Scanner.{MigrationFile, Disk}
use migraguard.GroupState.Record.{derive_group_state-other}
use migraguard.GroupState.Machine.{
  statuses, set_status, may_enter, can_advance-eq-may_enter, statuses-snoc,
}
use migraguard.Commands.Advance.{phase_options, phase_file_name}
use migraguard.Commands.Advance.Effect.{group_in}
use migraguard.Commands.ApplyPhase.{ApplyPhaseOptions, execute_phase, command_apply_phase}

module _ (d : Database) (laws : IsDatabase d) (disk : Disk) (o : ApplyPhaseOptions)
    (s : d.Session) where
  -- The file of the phase, as `files.find` finds it.
  abbrev pub phase_file : Option MigrationFile
  phase_file = find (λ f. f.file_name == phase_file_name o.group o.phase) disk.files

  -- The status that an execution is recorded with.
  abbrev pub outcome : MigrationFile → MigrationStatus
  outcome file = if (d.execute_sql_file file.file_path s).0.success then applied else failed

  abbrev pub phase_row : MigrationFile → MigrationRecord
  phase_row file = stamped (d.now (d.execute_sql_file file.file_path s).1) (
      new_row file.file_name (disk.checksum_file file.file_path) (outcome file)
        (phase_options o.group o.phase o.tag))

  pub select_rows-execute_phase :
      (file : MigrationFile)
      → ((execute_phase d disk o file s).0.success
          ≡ (d.execute_sql_file file.file_path s).0.success)
        × (d.select_rows (execute_phase d disk o file s).1 ≡ d.select_rows s ++ phase_row file ∷ [])
  unfolding execute_phase
  select_rows-execute_phase file =
      elim (Bool-cases (d.execute_sql_file file.file_path s).0.success) [
        | inl done ↦ rw done (refl, select-execute_insert d laws _ _ _ _ _ s)
        | inr wrong ↦ rw wrong (refl, select-execute_insert d laws _ _ _ _ _ s)
      ]

  select_rows-apply_phase :
      (file : MigrationFile)
      → may_enter (statuses (group_in d s o.group)) o.phase ≡ true
      → phase_file ≡ some file
      → o.dry_run ≡ false
      → command_apply_phase d disk o s ≡ execute_phase d disk o file s
  unfolding command_apply_phase
  select_rows-apply_phase file h found k =
      rw (can_advance-eq-may_enter (group_in d s o.group) o.phase ∙ h) (rw found (rw k))

  -- For a database that keeps `IsDatabase`. If the statuses of the group let the phase in, its
  -- file is found, and it is no dry run, the command succeeds exactly if the execution of the file
  -- does, and the phase gets the status `applied` or `failed` by it. Every other group stays as it
  -- was.
  pub apply_phase_refines :
      (file : MigrationFile)
      → may_enter (statuses (group_in d s o.group)) o.phase ≡ true
      → phase_file ≡ some file
      → o.dry_run ≡ false
      → ((command_apply_phase d disk o s).0.success
          ≡ (d.execute_sql_file file.file_path s).0.success)
        × (statuses (group_in d (command_apply_phase d disk o s).1 o.group)
            ≡ set_status o.phase (outcome file) (statuses (group_in d s o.group)))
        × ((g : Text)
            → (o.group == g) ≡ false
            → group_in d (command_apply_phase d disk o s).1 g ≡ group_in d s g)
  apply_phase_refines file h found k =
      let (done, rows) = select_rows-execute_phase file in
      rw (select_rows-apply_phase file h found k) (
        done,
        rw rows (
            statuses-snoc (d.select_rows s) (phase_row file) o.group o.phase
              (now_later_execute d laws file.file_path s) (eq_refl o.group) refl),
        λ g e. rw rows (derive_group_state-other (d.select_rows s) (phase_row file) g e),
      )

  -- A dry run changes nothing.
  pub apply_phase_dry : o.dry_run ≡ true → (command_apply_phase d disk o s).1 ≡ s
  unfolding command_apply_phase
  apply_phase_dry k = ground (arith, Option-cases phase_file)
