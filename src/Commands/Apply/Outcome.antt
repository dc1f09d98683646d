-- ===== src/Commands/Apply/Outcome.antt =====
-- src/commands/apply.ts: the rows, the result and the errors after `processFile`.
use migraguard.Prelude.{
  ◌≡◌, refl, sym, ◌∙◌, Bool, true, false, ◌||◌, Option, some, List, [], ◌∷◌, ◌++◌, keep,
  if◌then◌else◌, arith, Bool-cases, inl, inr, keep-append, Option-cases,
}
use mathlib.Core.Path.{subst}
use mathlib.Core.List.{append-nil}
use migraguard.Prelude.Text.{Text, ◌==◌, eq_refl}
use migraguard.Prelude.Maps.{has}
use migraguard.Db.{
  MigrationStatus, applied, failed, skipped, running, status_eq, MigrationRecord, stamped, new_row,
  Database, IsDatabase, insert_record,
}
use migraguard.Db.Laws.{select-execute_insert, now_later_execute}
use migraguard.GroupState.Record.{get_latest_record-keep_snoc}
use migraguard.Commands.Resolve.{of_file}
use migraguard.Commands.Resolve.Effect.{latest_of}
use migraguard.Commands.Apply.{
  ApplyResult, ApplyError, FileAction, ok, error, FileJob, push_skipped, push_error,
  execute_and_record, process_recorded, process_latest, process_file, get_past_checksums,
  failed_to_apply, retry_failed, reapply_failed, unresolved,
}

-- The latest record of a file says that it needs no execution: it was resolved, or it did not fail
-- and has the checksum of the file.
abbrev pub IsSettled : Option MigrationRecord → Text → Type 0
IsSettled latest checksum =
    (r : MigrationRecord) × (latest ≡ some r)
    × (status_eq r.status failed ≡ false)
    × ((status_eq r.status skipped || (r.checksum == checksum)) ≡ true)

or_right : (a b : Bool) → b ≡ true → (a || b) ≡ true
or_right a b h = ground arith

module _ (d : Database) (laws : IsDatabase d) where
  -- What holds of the action, result and session that a job ends with.
  pub record Outcome (j : FileJob) (result : ApplyResult) (s : d.Session)
      (out : FileAction × ApplyResult × d.Session) : Type 0 where
    pub others :
        (g : Text)
        → (j.file_name == g) ≡ false
        → keep (of_file g) (d.select_rows out.2) ≡ keep (of_file g) (d.select_rows s)
    pub settled :
        out.0 ≡ ok
        → j.latest_record ≡ latest_of d s j.file_name
        → IsSettled (latest_of d out.2 j.file_name) j.current_checksum
    pub errors_ok : out.0 ≡ ok → out.1.errors ≡ result.errors
    pub errors_error : out.0 ≡ error → (e : ApplyError) × (out.1.errors ≡ result.errors ++ e ∷ [])

  -- A row of one file does not show among those of another.
  keep-of_file-snoc :
      (rs : List MigrationRecord) (r : MigrationRecord) (g : Text)
      → (r.file_name == g) ≡ false
      → keep (of_file g) (rs ++ r ∷ []) ≡ keep (of_file g) rs
  keep-of_file-snoc rs r g h = rw keep-append (rw h (rw append-nil))

  module _ (j : FileJob) (result : ApplyResult) (s : d.Session) where
    abbrev ran : d.Session
    ran = (d.execute_sql_file j.file_path s).1

    abbrev row : MigrationStatus → MigrationRecord
    row st = stamped (d.now ran) (new_row j.file_name j.current_checksum st j.insert_opts)

    select_rows-run :
        (st : MigrationStatus)
        → d.select_rows (insert_record d j.file_name j.current_checksum st j.insert_opts ran)
          ≡ d.select_rows s ++ row st ∷ []
    select_rows-run st = select-execute_insert d laws _ _ _ st _ s

    latest_of-run :
        (st : MigrationStatus)
        → latest_of d
            (insert_record d j.file_name j.current_checksum st j.insert_opts ran)
            j.file_name
          ≡ some (row st)
    latest_of-run st = rw (select_rows-run st) (
        get_latest_record-keep_snoc (of_file j.file_name) (d.select_rows s) (row st)
          (now_later_execute d laws j.file_path s)
        ∙ rw (eq_refl j.file_name) refl)

    execute-Outcome :
        (err : Text → Text → ApplyError) → Outcome j result s (execute_and_record d err j result s)
    unfolding execute_and_record
    execute-Outcome err = elim (Bool-cases (d.execute_sql_file j.file_path s).0.success) [
      | inl good ↦ rw good (record {
        others = λ g h. rw (select_rows-run applied) (keep-of_file-snoc _ (row applied) g h);
        settled = λ _ _. (row applied, latest_of-run applied, refl, eq_refl j.current_checksum);
        errors_ok = λ _. refl;
        errors_error = λ e. cc;
      })
      | inr bad ↦ rw bad (record {
        others = λ g h. rw (select_rows-run failed) (keep-of_file-snoc _ (row failed) g h);
        settled = λ e. cc;
        errors_ok = λ e. cc;
        errors_error = λ _. (err j.file_name (d.execute_sql_file j.file_path s).0.stderr, refl);
      })
    ]

    -- A file that is passed over: its latest record, which is the one in the rows, is settled.
    skip-Outcome :
        IsSettled j.latest_record j.current_checksum
        → Outcome j result s (ok, push_skipped j.file_name result, s)
    skip-Outcome h = record {
      others = λ g _. refl;
      settled = λ _ e. subst (λ o. IsSettled o j.current_checksum) e h;
      errors_ok = λ _. refl;
      errors_error = λ e. cc;
    }

    refuse-Outcome :
        (e : ApplyError) → Outcome j result s (error, push_error j.file_name e result, s)
    refuse-Outcome e = record {
      others = λ g _. refl;
      settled = λ p. cc;
      errors_ok = λ p. cc;
      errors_error = λ _. (e, refl);
    }

    if-Outcome :
        (b : Bool) (x y : FileAction × ApplyResult × d.Session)
        → (b ≡ true → Outcome j result s x)
        → (b ≡ false → Outcome j result s y)
        → Outcome j result s (if b then x else y)
    if-Outcome true x y t f = t refl
    if-Outcome false x y t f = f refl

    recorded-Outcome :
        (latest : MigrationRecord)
        → j.latest_record ≡ some latest
        → status_eq latest.status failed ≡ false
        → Outcome j result s (process_recorded d j latest result s)
    unfolding process_recorded
    recorded-Outcome latest e st =
        if-Outcome (latest.checksum == j.current_checksum) _ _
          (λ same. skip-Outcome (latest, e, st, or_right _ _ same))
          (λ _.
            if-Outcome (has (get_past_checksums j.file_records) j.current_checksum) _ _
              (λ _. refuse-Outcome _)
              (λ _.
                if-Outcome j.is_editable _ _ (λ _. execute-Outcome reapply_failed)
                  (λ _. refuse-Outcome _)))

    latest-Outcome :
        (latest : MigrationRecord) (st : MigrationStatus)
        → j.latest_record ≡ some latest
        → latest.status ≡ st
        → Outcome j result s (process_latest d j (some latest) result s)
    unfolding process_latest
    latest-Outcome latest applied e q = rw q (recorded-Outcome latest e (rw q))
    latest-Outcome latest running e q = rw q (recorded-Outcome latest e (rw q))
    latest-Outcome latest skipped e q = rw q (skip-Outcome (latest, e, rw q, rw q))
    latest-Outcome latest failed e q = rw q (
        if-Outcome j.is_editable (execute_and_record d retry_failed j result s)
          (error, push_error j.file_name (unresolved j.file_name) result, s)
          (λ _. execute-Outcome retry_failed) (λ _. refuse-Outcome (unresolved j.file_name)))

    pub process_file-Outcome : Outcome j result s (process_file d j result s)
    unfolding process_file process_latest
    process_file-Outcome = elim (Option-cases j.latest_record) [
      | inl e ↦
          subst (λ o. Outcome j result s (process_latest d j o result s)) (sym e)
            (execute-Outcome failed_to_apply)
      | inr (latest, e) ↦
          subst (λ o. Outcome j result s (process_latest d j o result s)) (sym e)
            (latest-Outcome latest latest.status e refl)
    ]
