-- ===== src/Commands/Apply/Dry.antt =====
-- src/commands/apply.ts: `commandApply` in a dry run.
use migraguard.Prelude.{
  ◌≡◌, refl, true, if◌then◌else◌, Bool-cases, Option-cases, inl, inr, get_last?,
}
use migraguard.Db.{Database}
use migraguard.Commands.Apply.{ApplyResult, empty_result}
use migraguard.Commands.Apply.Command.{
  ApplyOptions, ApplyEnv, apply_files, apply_from_baseline, has_drift, command_apply,
}

module _ (d : Database) (env : ApplyEnv d) (o : ApplyOptions) (dry : o.dry_run ≡ true) where
  apply_files-dry :
      (result : ApplyResult) (s : d.Session) → (apply_files d env o (result, s)).session ≡ s
  unfolding apply_files
  apply_files-dry result s = elim (Option-cases (get_last? env.disk.files)) [
    | inl nothing ↦ rw (nothing, apply_files) refl
    | inr (last, found) ↦ rw (found, apply_files) (rw dry refl)
  ]

  -- A dry run leaves the session as it is, unless it is to start from the baseline and the drift check lets
  -- it: then it leaves the session that `applyFromBaseline` leaves.
  pub apply_dry :
      (s : d.Session)
      → (command_apply d env o s).session ≡ (
          if has_drift d env o.with_drift_check s
          then s
          else if o.from_baseline
          then (apply_from_baseline d env o.tag empty_result s).1
          else s)
  unfolding command_apply
  apply_dry s = elim (Bool-cases (has_drift d env o.with_drift_check s)) [
    | inl drift ↦ rw drift refl
    | inr in_sync ↦ elim (Bool-cases o.from_baseline) [
      | inl base ↦ rw in_sync (rw base (apply_files-dry _ _))
      | inr plain ↦ rw in_sync (rw plain (apply_files-dry empty_result s))
    ]
  ]
