-- ===== src/Commands/Status/Predicts.antt =====
-- src/commands/status.ts and src/commands/apply.ts: the status of a file, and what `apply` does with it.
use mathlib.Core.Path.{subst}
use mathlib.Core.Option.{some-injective}
use migraguard.Prelude.{
  [], ◌≡◌, refl, sym, ap, ◌∙◌, Bool, true, false, Option, none, some, arith, if◌then◌else◌, All,
  All-map,
}
use migraguard.Prelude.Text.{Text}
use migraguard.Prelude.Maps.{lookup, Distinct}
use migraguard.Db.{MigrationStatus, MigrationRecord, safe, Database, IsDatabase}
use migraguard.Scanner.{MigrationFile}
use migraguard.GroupState.{get_latest_record}
use migraguard.Commands.Apply.{
  FileJob, FileAction, ok, error, ApplyResult, push_skipped, push_error, failed_to_apply,
  retry_failed, unresolved, execute_and_record, process_recorded, process_latest, process_file,
}
use migraguard.Commands.Apply.Run.{LoopContext, job_of, records_by_file, records_or_nil}
use migraguard.Commands.Apply.Command.{ApplyOptions, ApplyEnv, dag, command_apply}
use migraguard.Commands.Apply.Outcome.{IsSettled}
use migraguard.Commands.Apply.Snapshot.{names, lookup-records_by_file}
use migraguard.Commands.Apply.Success.{apply_settles}
use migraguard.Commands.Status.{
  FileStatus, applied, pending, failed, skipped, changed, file_status, latest_record_of,
  status_entry,
}

-- What `apply` does with a file of each status.
abbrev pub announced :
    (d : Database)
    → FileStatus
    → FileJob
    → ApplyResult
    → d.Session
    → FileAction × ApplyResult × d.Session
announced d pending j result s = execute_and_record d failed_to_apply j result s
announced d applied j result s = (ok, push_skipped j.file_name result, s)
announced d skipped j result s = (ok, push_skipped j.file_name result, s)
announced d failed j result s =
    if j.is_editable
    then execute_and_record d retry_failed j result s
    else (error, push_error j.file_name (unresolved j.file_name) result, s)
announced d changed j result s = elim j.latest_record [
  | none ↦ (ok, result, s)
  | some latest ↦ process_recorded d j latest result s
]

-- A file that is applied or was resolved.
abbrev pub is_done : FileStatus → Bool
is_done applied = true
is_done skipped = true
is_done _ = false

module _ (d : Database) (j : FileJob) (result : ApplyResult) (s : d.Session) where
  announces-latest :
      (latest : MigrationRecord) (st : MigrationStatus)
      → latest.status ≡ st
      → j.latest_record ≡ some latest
      → process_latest d j (some latest) result s
        ≡ announced d (file_status (some latest) j.current_checksum) j result s
  unfolding process_latest file_status process_recorded
  announces-latest latest MigrationStatus.failed e l = ground arith
  announces-latest latest MigrationStatus.skipped e l = ground arith
  announces-latest latest _ e l = ground arith

  announces :
      (o : Option MigrationRecord)
      → j.latest_record ≡ o
      → process_latest d j o result s ≡ announced d (file_status o j.current_checksum) j result s
  unfolding process_latest file_status
  announces none l = refl
  announces (some latest) l = announces-latest latest latest.status refl l

module _ (d : Database) (c : LoopContext) (s : d.Session) where
  -- The status of a file tells what `apply` does with it, if its rows were read at the same session: a
  -- pending file is executed; an applied or resolved one is passed over; a failed one is executed again
  -- if it may be edited, and is an error if not; a changed one is tested for a revert and for tampering.
  pub status_predicts :
      (f : MigrationFile) (result : ApplyResult)
      → c.all_records ≡ d.select_rows s
      → process_file d (job_of c f) result s
        ≡ announced d (status_entry d c.disk s f).status (job_of c f) result s
  unfolding process_file status_entry
  status_predicts f result rows =
      announces d (job_of c f) result s (job_of c f).latest_record refl
      ∙ ap
          (λ rs.
            announced d
              (file_status
                (get_latest_record (records_or_nil (lookup f.file_name (records_by_file rs))))
                (c.disk.checksum_file f.file_path))
              (job_of c f) result s)
          rows

settled-done :
    (o : Option MigrationRecord) (checksum : Text)
    → IsSettled o checksum
    → is_done (file_status o checksum) ≡ true
unfolding file_status
settled-done none checksum (r, e, _, _) = cc
settled-done (some latest) checksum (r, e, fine, same) =
    subst (λ (q : MigrationRecord). is_done (file_status (some q) checksum) ≡ true)
      (sym (some-injective latest r e)) (ground arith)

module _ (d : Database) (env : ApplyEnv d) (laws : IsDatabase d) (linear : dag d env ≡ false)
    (distinct : Distinct (names env.disk.files)) where
  -- For a database that keeps `IsDatabase`. Linear model, no two files of one name: after a run of
  -- `apply` that is no dry run and reports no error, the status of every safe file is applied or
  -- skipped.
  pub status_after_apply :
      (o : ApplyOptions) (s : d.Session)
      → o.dry_run ≡ false
      → (command_apply d env o s).result.errors ≡ []
      → All
          (λ f.
            f.migration_class ≡ safe
            → is_done (status_entry d env.disk (command_apply d env o s).session f).status ≡ true)
          env.disk.files
  unfolding status_entry
  status_after_apply o s real no_errors =
      let after = (command_apply d env o s).session in
      All-map _ _ env.disk.files
        (λ f settled is_safe.
          settled-done (latest_record_of d env.disk after f) (env.disk.checksum_file f.file_path) (
            subst (λ rs. IsSettled (get_latest_record rs) (env.disk.checksum_file f.file_path))
              (sym (lookup-records_by_file (d.select_rows after) f.file_name)) (settled is_safe)))
        (apply_settles d env laws linear distinct o s real no_errors)
