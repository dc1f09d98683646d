-- ===== src/Commands/Apply/Command.antt =====
-- src/commands/apply.ts: `commandApply` around its loop, and `applyFromBaseline`.
use migraguard.Prelude.{
  Bool, true, false, not, ◌&&◌, Option, none, some, List, [], ◌∷◌, ◌++◌, foldl, map, get_last?,
  if◌then◌else◌,
}
use migraguard.Prelude.Text.{Text, ◌==◌}
use migraguard.Db.{applied, Database, insert_record}
use migraguard.Scanner.{MigrationFile, Disk}
use migraguard.Metadata.{MetadataJson, BaselineInclude, BaselineEntry, baselines_of, is_dag_mode}
use migraguard.Deps.{DependencyGraph}
use migraguard.Deps.Topological.{topological_sort}
use migraguard.Commands.Apply.{
  ApplyResult, ApplyError, schema_drift, no_schema_file, baseline_failed, empty_result,
  push_applied,
}
use migraguard.Commands.Apply.Run.{LoopContext, tag_options, apply_loop}

pub record ApplyOptions : Type 0 where
  pub with_drift_check : Bool
  pub from_baseline : Bool
  pub tag : Option Text
  pub dry_run : Bool

-- What the command reads. `graph` is the result of `buildDependencyGraph`; `schema_file` is the
-- text of schema.sql, if that file exists.
pub record ApplyEnv (d : Database) : Type 0 where
  pub disk : Disk
  pub metadata : MetadataJson
  pub config_dag : Bool
  pub graph : DependencyGraph
  pub schema_path : Text
  pub schema_file : Option Text
  pub dump_schema : d.Session → Text

-- `schema_written` is the text that the command writes to schema.sql at its end.
pub record ApplyOutcome (d : Database) : Type 0 where
  pub result : ApplyResult
  pub schema_written : Option Text
  pub session : d.Session

abbrev pub push_plain_error : ApplyError → ApplyResult → ApplyResult
push_plain_error e r = record r { errors = r.errors ++ e ∷ [] }

abbrev pub is_empty {ℓ} : {A : Type ℓ} → List A → Bool
is_empty [] = true
is_empty (x ∷ xs) = false

module _ (d : Database) where
  unfoldable pub record_include :
      Option Text → ApplyResult × d.Session → BaselineInclude → ApplyResult × d.Session
  record_include tag (result, s) inc = (
    push_applied inc.file result,
    insert_record d inc.file inc.checksum applied (tag_options tag) s,
  )

  unfoldable pub record_baseline :
      Option Text → ApplyResult × d.Session → BaselineEntry → ApplyResult × d.Session
  unfolding record_include
  record_baseline tag state baseline = foldl (record_include tag) state baseline.includes

module _ (d : Database) (env : ApplyEnv d) where
  unfoldable pub apply_from_baseline :
      Option Text → ApplyResult → d.Session → ApplyResult × d.Session
  unfolding record_baseline
  apply_from_baseline tag result s = elim env.schema_file [
    | none ↦ (push_plain_error no_schema_file result, s)
    | some text ↦
        let (run, s') = d.execute_sql_file env.schema_path s in
        if not run.success
        then (push_plain_error (baseline_failed run.stderr) result, s')
        else foldl (record_baseline d tag) (result, s') (baselines_of env.metadata.baselines)
  ]

  abbrev pub dag : Bool
  dag = is_dag_mode env.metadata env.config_dag

  abbrev or_files : Option (List Text) → List Text
  or_files none = map (λ f. f.file_name) env.disk.files
  or_files (some sorted) = sorted

  -- `orderedFileNames`
  unfoldable pub ordered_file_names : List Text
  ordered_file_names =
      if dag then or_files (topological_sort env.graph) else map (λ f. f.file_name) env.disk.files

  unfoldable pub context_of : Option Text → MigrationFile → d.Session → LoopContext
  context_of tag last s = record {
    disk = env.disk;
    graph = if dag then some env.graph else none;
    all_records = d.select_rows s;
    latest_file_name = last.file_name;
    tag = tag;
  }

  -- The part behind `finally`.
  unfoldable pub finish_apply : Bool → ApplyResult → d.Session → ApplyOutcome d
  finish_apply drift_check result s =
      if is_empty result.errors && (drift_check && not (is_empty result.applied_files))
      then record { result = result; schema_written = some (env.dump_schema s); session = s }
      else record { result = result; schema_written = none; session = s }

  -- The drift check fails if schema.sql exists and differs from the dump.
  unfoldable pub has_drift : Bool → d.Session → Bool
  has_drift drift_check s =
      drift_check
      && elim env.schema_file [ none ↦ false | some saved ↦ not (saved == env.dump_schema s) ]

  -- An outcome by a `return` inside `try`: nothing is written.
  abbrev returned : ApplyResult × d.Session → ApplyOutcome d
  returned (result, s) = record { result = result; schema_written = none; session = s }

  -- From `scanMigrations` on, with the result so far.
  unfoldable pub apply_files : ApplyOptions → ApplyResult × d.Session → ApplyOutcome d
  unfolding ordered_file_names context_of finish_apply
  apply_files o (result, s) = elim (get_last? env.disk.files) [
    | none ↦ returned (result, s)
    | some last ↦
        if o.dry_run
        then returned (result, s)
        else let p =
            apply_loop d (context_of o.tag last s) ordered_file_names
              (record { result = result; blocked_set = []; session = s }) in
          finish_apply o.with_drift_check p.result p.session
  ]

  unfoldable pub command_apply : ApplyOptions → d.Session → ApplyOutcome d
  unfolding apply_files apply_from_baseline has_drift
  command_apply o s =
      if has_drift o.with_drift_check s
      then returned (push_plain_error schema_drift empty_result, s)
      else if o.from_baseline
      then apply_files o (apply_from_baseline o.tag empty_result s)
      else apply_files o (empty_result, s)
