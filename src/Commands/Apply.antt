-- ===== src/Commands/Apply.antt =====
-- src/commands/apply.ts: `processFile`, which decides for one file.
pub mod Run
pub mod Command
pub mod Outcome
pub mod Snapshot
pub mod Linear
pub mod Rerun
pub mod Success
pub mod Decisions
pub mod Blocking
pub mod Stops
pub mod Dry
use migraguard.Prelude.{
  Bool, true, false, Option, none, some, List, [], ◌∷◌, ◌++◌, foldl, map, ltb, if◌then◌else◌,
}
use migraguard.Prelude.Text.{Text, ◌==◌}
use migraguard.Prelude.Maps.{has}
use migraguard.Db.{
  MigrationStatus, applied, failed, skipped, running, MigrationRecord, InsertRecordOptions,
  Database, ExecResult, insert_record,
}

pub data ApplyError : Type 0 where
  schema_drift : ApplyError
  no_schema_file : ApplyError
  baseline_failed : Text → ApplyError
  failed_to_apply : Text → Text → ApplyError
  retry_failed : Text → Text → ApplyError
  unresolved : Text → ApplyError
  ancestor_revert : Text → ApplyError
  reapply_failed : Text → Text → ApplyError
  tampering : Text → ApplyError

-- The lists are in the order of the pushes. `failed_file` is the source's `failed`.
pub record ApplyResult : Type 0 where
  pub applied_files : List Text
  pub skipped_files : List Text
  pub failed_file : Option Text
  pub blocked : List Text
  pub errors : List ApplyError

abbrev pub empty_result : ApplyResult
empty_result = record {
  applied_files = [];
  skipped_files = [];
  failed_file = none;
  blocked = [];
  errors = [];
}

pub data FileAction : Type 0 where
  ok error : FileAction

abbrev pub push_applied : Text → ApplyResult → ApplyResult
push_applied f r = record r { applied_files = r.applied_files ++ f ∷ [] }

abbrev pub push_skipped : Text → ApplyResult → ApplyResult
push_skipped f r = record r { skipped_files = r.skipped_files ++ f ∷ [] }

abbrev pub push_blocked : Text → ApplyResult → ApplyResult
push_blocked f r = record r { blocked = r.blocked ++ f ∷ [] }

abbrev first_failed : Option Text → Text → Option Text
first_failed none f = some f
first_failed (some g) f = some g

-- result.failed = result.failed ?? fileName; result.errors.push(…)
abbrev pub push_error : Text → ApplyError → ApplyResult → ApplyResult
push_error f e r = record r {
  failed_file = first_failed r.failed_file f;
  errors = r.errors ++ e ∷ [];
}

-- The reduce of `getLatestRecord`, with the records that it passes over.
abbrev pub split_step :
    MigrationRecord × List MigrationRecord
    → MigrationRecord
    → MigrationRecord × List MigrationRecord
split_step (latest, others) r =
    if ltb latest.applied_at r.applied_at
    then (r, others ++ latest ∷ [])
    else (latest, others ++ r ∷ [])

-- The checksums of all records but the object that is the latest one.
unfoldable pub get_past_checksums : List MigrationRecord → List Text
get_past_checksums [] = []
get_past_checksums (r ∷ rs) = map (λ q. q.checksum) (foldl split_step (r, []) rs).1

-- The arguments of `processFile` but the state that it changes.
pub record FileJob : Type 0 where
  pub file_path : Text
  pub file_name : Text
  pub file_records : List MigrationRecord
  pub latest_record : Option MigrationRecord
  pub current_checksum : Text
  pub is_editable : Bool
  pub insert_opts : InsertRecordOptions

module _ (d : Database) where
  -- The three places that execute a file differ in the error that they report.
  unfoldable pub execute_and_record :
      (Text → Text → ApplyError)
      → FileJob
      → ApplyResult
      → d.Session
      → FileAction × ApplyResult × d.Session
  execute_and_record err j result s =
      let (run, s') = d.execute_sql_file j.file_path s in
      if run.success
      then (
        ok,
        push_applied j.file_name result,
        insert_record d j.file_name j.current_checksum applied j.insert_opts s',
      )
      else (
        error,
        push_error j.file_name (err j.file_name run.stderr) result,
        insert_record d j.file_name j.current_checksum failed j.insert_opts s',
      )

  -- From the test of `latestRecord.checksum` on.
  unfoldable pub process_recorded :
      FileJob → MigrationRecord → ApplyResult → d.Session → FileAction × ApplyResult × d.Session
  unfolding execute_and_record
  process_recorded j latest result s =
      if latest.checksum == j.current_checksum
      then (ok, push_skipped j.file_name result, s)
      else if has (get_past_checksums j.file_records) j.current_checksum
      then (error, push_error j.file_name (ancestor_revert j.file_name) result, s)
      else if j.is_editable
      then execute_and_record reapply_failed j result s
      else (error, push_error j.file_name (tampering j.file_name) result, s)

  unfoldable pub process_latest :
      FileJob
      → Option MigrationRecord
      → ApplyResult
      → d.Session
      → FileAction × ApplyResult × d.Session
  unfolding process_recorded
  process_latest j none result s = execute_and_record failed_to_apply j result s
  process_latest j (some latest) result s = elim latest.status [
    | skipped ↦ (ok, push_skipped j.file_name result, s)
    | failed ↦
        if j.is_editable
        then execute_and_record retry_failed j result s
        else (error, push_error j.file_name (unresolved j.file_name) result, s)
    | applied ↦ process_recorded j latest result s
    | running ↦ process_recorded j latest result s
  ]

  unfoldable pub process_file :
      FileJob → ApplyResult → d.Session → FileAction × ApplyResult × d.Session
  unfolding process_latest
  process_file j result s = process_latest j j.latest_record result s
