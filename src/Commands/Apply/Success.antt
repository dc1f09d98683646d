-- ===== src/Commands/Apply/Success.antt =====
-- src/commands/apply.ts: runs of `commandApply` without an error, in the linear model.
use mathlib.Core.Path.{subst}
use migraguard.Prelude.{
  ◌≡◌, refl, sym, ap, ◌∙◌, Bool, false, not, ◌&&◌, Option, none, some, List, [], ◌∷◌, get_last?,
  All, All-intro, All-zip, Bool-cases, Option-cases, get_last?-eq_none, inl, inr, ap-if, if_false,
}
use migraguard.Prelude.Text.{Text}
use migraguard.Prelude.Maps.{Distinct}
use migraguard.Db.{safe, Database, IsDatabase}
use migraguard.Scanner.{MigrationFile}
use migraguard.Commands.Resolve.Effect.{latest_of}
use migraguard.Commands.Apply.{ApplyResult, empty_result}
use migraguard.Commands.Apply.Run.{LoopContext, Progress, apply_loop}
use migraguard.Commands.Apply.Command.{
  ApplyOptions, ApplyEnv, ApplyOutcome, is_empty, dag, finish_apply, has_drift, apply_files,
  command_apply,
}
use migraguard.Commands.Apply.Outcome.{IsSettled}
use migraguard.Commands.Apply.Snapshot.{names, lookup-file_map}
use migraguard.Commands.Apply.Linear.{apply_loop-Ran}
use migraguard.Commands.Apply.Rerun.{visit-All-skips}

All-of_nil {ℓ κ} : {A : Type ℓ} (P : A → Type κ) (xs : List A) → xs ≡ [] → All P xs
All-of_nil P [] h = tt
All-of_nil P (x ∷ xs) h = cc

module _ (d : Database) (env : ApplyEnv d) where
  -- Every safe file is settled in the rows of a session.
  abbrev pub AllSettled : d.Session → Type 0
  AllSettled s =
      All
        (λ f.
          f.migration_class ≡ safe
          → IsSettled (latest_of d s f.file_name) (env.disk.checksum_file f.file_path))
        env.disk.files

  -- Nothing was executed, recorded or reported.
  abbrev pub IsIdle : ApplyOutcome d → d.Session → Type 0
  IsIdle out s = (out.session ≡ s) × (out.result.applied_files ≡ []) × (out.result.errors ≡ [])

  finish_apply-keeps :
      (drift : Bool) (result : ApplyResult) (s : d.Session)
      → ((finish_apply d env drift result s).result ≡ result)
        × ((finish_apply d env drift result s).session ≡ s)
  unfolding finish_apply
  finish_apply-keeps drift result s =
      let b = is_empty result.errors && (drift && not (is_empty result.applied_files)) in
      (
        ap-if {A = ApplyOutcome d} (λ o. o.result) b _ _ result refl refl,
        ap-if {A = ApplyOutcome d} (λ o. o.session) b _ _ s refl refl,
      )

  -- The loop's context in the linear model.
  abbrev linear_context : Option Text → MigrationFile → d.Session → LoopContext
  linear_context tag last s = record {
    disk = env.disk;
    graph = none;
    all_records = d.select_rows s;
    latest_file_name = last.file_name;
    tag = tag;
  }

  abbrev linear_run : Option Text → MigrationFile → ApplyResult → d.Session → Progress d
  linear_run tag last result s =
      apply_loop d (linear_context tag last s) (names env.disk.files)
        (record { result = result; blocked_set = []; session = s })

  module _ (laws : IsDatabase d) (linear : dag d env ≡ false)
      (distinct : Distinct (names env.disk.files)) where
    apply_files-run :
        (o : ApplyOptions) (last : MigrationFile) (result : ApplyResult) (s : d.Session)
        → get_last? env.disk.files ≡ some last
        → o.dry_run ≡ false
        → ((apply_files d env o (result, s)).result ≡ (linear_run o.tag last result s).result)
          × ((apply_files d env o (result, s)).session ≡ (linear_run o.tag last result s).session)
    unfolding apply_files
    apply_files-run o last result s found real =
        rw (found, apply_files)
          (rw real (
            rw linear (
              finish_apply-keeps o.with_drift_check (linear_run o.tag last result s).result
                (linear_run o.tag last result s).session)))

    apply_files-settles :
        (o : ApplyOptions) (result : ApplyResult) (s : d.Session)
        → o.dry_run ≡ false
        → (apply_files d env o (result, s)).result.errors ≡ []
        → AllSettled (apply_files d env o (result, s)).session
    apply_files-settles o result s real no_errors = elim (Option-cases (get_last? env.disk.files)) [
      | inl nothing ↦ All-of_nil _ env.disk.files (get_last?-eq_none env.disk.files nothing)
      | inr (last, found) ↦
          let (same_result, same_session) = apply_files-run o last result s found real in
          let ran =
            apply_loop-Ran d laws (linear_context o.tag last s) refl env.disk.files
              (record { result = result; blocked_set = []; session = s }) distinct
              (lookup-file_map env.disk.files distinct) in
          subst AllSettled (sym same_session) (
            ran.settled (sym (ap (λ r. r.errors) same_result) ∙ no_errors) refl
              (All-intro _ env.disk.files (λ f. refl)))
    ]

    -- For a database that keeps `IsDatabase`. Linear model, no two files of one name. If a run
    -- that is no dry run reports no error, then the latest record of every safe file was not left
    -- failed: it is a skipped one, or has the checksum of the file.
    pub apply_settles :
        (o : ApplyOptions) (s : d.Session)
        → o.dry_run ≡ false
        → (command_apply d env o s).result.errors ≡ []
        → AllSettled (command_apply d env o s).session
    unfolding command_apply
    apply_settles o s real no_errors = elim (Bool-cases (has_drift d env o.with_drift_check s)) [
      | inl drift ↦ cc (rw drift at no_errors)
      | inr in_sync ↦ elim (Bool-cases o.from_baseline) [
        | inl base ↦
            rw in_sync
              (rw base (apply_files-settles o _ _ real (rw base at (rw in_sync at no_errors))))
        | inr plain ↦ rw in_sync (
            rw plain
              (apply_files-settles o empty_result s real (rw plain at (rw in_sync at no_errors))))
      ]
    ]

    apply_files-IsIdle :
        (o : ApplyOptions) (s : d.Session)
        → All (λ f. f.migration_class ≡ safe) env.disk.files
        → AllSettled s
        → IsIdle (apply_files d env o (empty_result, s)) s
    unfolding apply_files
    apply_files-IsIdle o s all_safe settled = elim (Option-cases (get_last? env.disk.files)) [
      | inl nothing ↦ rw (nothing, apply_files) (refl, refl, refl)
      | inr (last, found) ↦ elim (Bool-cases o.dry_run) [
        | inl dry ↦ rw (found, apply_files) (rw dry (refl, refl, refl))
        | inr real ↦
            let (same_result, same_session) = apply_files-run o last empty_result s found real in
            let idle =
              visit-All-skips d (linear_context o.tag last s) refl env.disk.files
                (record { result = empty_result; blocked_set = []; session = s })
                (lookup-file_map env.disk.files distinct) all_safe refl refl
                (All-zip _ _ env.disk.files settled all_safe) in
            (
              same_session ∙ ap (λ p. p.session) idle,
              ap (λ r. r.applied_files) (same_result ∙ ap (λ p. p.result) idle),
              ap (λ r. r.errors) (same_result ∙ ap (λ p. p.result) idle),
            )
      ]
    ]

    command_apply-plain :
        (o : ApplyOptions) (s : d.Session)
        → o.with_drift_check ≡ false
        → o.from_baseline ≡ false
        → command_apply d env o s ≡ apply_files d env o (empty_result, s)
    unfolding command_apply has_drift
    command_apply-plain o s no_check no_base =
        if_false (has_drift d env o.with_drift_check s) _ _ (ap (λ b. has_drift d env b s) no_check)
        ∙ if_false o.from_baseline _ _ no_base

    -- For a database that keeps `IsDatabase`. Linear model, no two files of one name, all of them
    -- safe. After a run that reported no error, a second run without the drift check and the
    -- baseline executes nothing and records nothing: the session is unchanged, no file is applied
    -- and no error is reported.
    pub apply_twice :
        (o o' : ApplyOptions) (s : d.Session)
        → o.dry_run ≡ false
        → (command_apply d env o s).result.errors ≡ []
        → All (λ f. f.migration_class ≡ safe) env.disk.files
        → o'.with_drift_check ≡ false
        → o'.from_baseline ≡ false
        → IsIdle
            (command_apply d env o' (command_apply d env o s).session)
            (command_apply d env o s).session
    apply_twice o o' s real no_errors all_safe no_check no_base =
        subst (λ out. IsIdle out (command_apply d env o s).session)
          (sym (command_apply-plain o' (command_apply d env o s).session no_check no_base))
          (apply_files-IsIdle o' (command_apply d env o s).session all_safe
            (apply_settles o s real no_errors))
