-- ===== src/Commands/Editable/Agrees.antt =====
-- src/commands/editable.ts: the files that the command lists.
use migraguard.Prelude.{
  ◌≡◌, refl, ap, ◌∙◌, Bool, true, false, not, ◌&&◌, ◌||◌, Option, none, some, List, [], ◌∷◌, foldl,
  map, keep, any, get_last?, arith, if◌then◌else◌,
}
use migraguard.Prelude.Text.{Text, ◌==◌, eq_iff, eq_sound}
use migraguard.Prelude.Maps.{has, has-append, lookup}
use migraguard.Db.{MigrationRecord}
use migraguard.Scanner.{MigrationFile}
use migraguard.Metadata.{is_dag_mode, is_pre_model_since}
use migraguard.Metadata.Since.{reaches_since, not-is_pre_model_since}
use migraguard.Deps.Leaves.{depended_on, has-find_leaf_nodes}
use migraguard.Deps.{find_leaf_nodes}
use migraguard.GroupState.{get_latest_record}
use migraguard.Commands.Apply.Run.{records_by_file, records_or_nil}
use migraguard.Commands.Editable.{
  EditReason, failed_retryable, new, leaf, Editables, EditableEnv, offer_file, offer_failed,
  is_failed_record, offer_leaf, first_editables, is_new, with_new, with_rows, all_editables,
  command_editable,
}

has-offer_file :
    (r : EditReason) (e : Editables) (f g : Text)
    → has (offer_file r e f).editable_set g ≡ (has e.editable_set g || (f == g))
unfolding offer_file has
has-offer_file r e f g = ground (arith, has-append e.editable_set (f ∷ []) g, eq_iff f g)

-- The latest of the rows of the file is a failed one.
abbrev pub is_failed : List MigrationRecord → MigrationFile → Bool
is_failed rows f =
    is_failed_record
      (get_latest_record (records_or_nil (lookup f.file_name (records_by_file rows))))

has-offer_failed :
    (rows : List MigrationRecord) (e : Editables) (f : MigrationFile) (g : Text)
    → has (offer_failed rows e f).editable_set g
      ≡ (has e.editable_set g || ((f.file_name == g) && is_failed rows f))
unfolding offer_failed
has-offer_failed rows e f g =
    ground (arith, has-offer_file failed_retryable e f.file_name g, eq_iff f.file_name g)

has-offer_all_failed :
    (rows : List MigrationRecord) (fs : List MigrationFile) (e : Editables) (g : Text)
    → has (foldl (offer_failed rows) e fs).editable_set g
      ≡ (has e.editable_set g || any (λ f. (f.file_name == g) && is_failed rows f) fs)
has-offer_all_failed rows [] e g = ground arith
has-offer_all_failed rows (f ∷ fs) e g =
    ground
      (arith, has-offer_all_failed rows fs (offer_failed rows e f) g, has-offer_failed rows e f g)

module _ (env : EditableEnv) where
  has-offer_leaf :
      (e : Editables) (f g : Text)
      → has (offer_leaf env e f).editable_set g
        ≡ (has e.editable_set g || ((f == g) && not (is_pre_model_since env.metadata g)))
  unfolding offer_leaf
  has-offer_leaf e f g = ground (
    arith,
    has-offer_file leaf e f g,
    eq_sound f g,
    ap (is_pre_model_since env.metadata) {x = f} {y = g},
  )

  has-offer_leaves :
      (leaves : List Text) (e : Editables) (g : Text)
      → has (foldl (offer_leaf env) e leaves).editable_set g
        ≡ (has e.editable_set g || (has leaves g && not (is_pre_model_since env.metadata g)))
  unfolding has
  has-offer_leaves [] e g = ground arith
  has-offer_leaves (f ∷ leaves) e g =
      ground (arith, has-offer_leaves leaves (offer_leaf env e f) g, has-offer_leaf e f g)

  abbrev offer_news : Editables → List MigrationFile → Editables
  offer_news e fs = foldl (λ e f. offer_file new e f.file_name) e (keep (is_new env) fs)

  -- The file is not in the metadata.
  abbrev pub named_new : Text → List MigrationFile → Bool
  named_new g = any (λ f. (f.file_name == g) && is_new env f)

  -- A file that is kept or not, before the rest of the files.
  new-case :
      (f : MigrationFile) (fs : List MigrationFile) (e : Editables) (g : Text) (b : Bool)
      → has (offer_news (offer_file new e f.file_name) fs).editable_set g
        ≡ (has (offer_file new e f.file_name).editable_set g || named_new g fs)
      → has (offer_news e fs).editable_set g ≡ (has e.editable_set g || named_new g fs)
      → has
          (foldl
            (λ e f. offer_file new e f.file_name)
            e
            (if b then f ∷ keep (is_new env) fs else keep (is_new env) fs)).editable_set
          g
        ≡ (has e.editable_set g || (((f.file_name == g) && b) || named_new g fs))
  new-case f fs e g true kept left = ground (arith, kept, has-offer_file new e f.file_name g)
  new-case f fs e g false kept left = ground (arith, left)

  has-offer_new :
      (fs : List MigrationFile) (e : Editables) (g : Text)
      → has (foldl (λ e f. offer_file new e f.file_name) e (keep (is_new env) fs)).editable_set g
        ≡ (has e.editable_set g || any (λ f. (f.file_name == g) && is_new env f) fs)
  has-offer_new [] e g = ground arith
  has-offer_new (f ∷ fs) e g =
      new-case f fs e g (is_new env f) (has-offer_new fs (offer_file new e f.file_name) g)
        (has-offer_new fs e g)

  -- The last file in the linear model; in the DAG model the files of the graph to which no edge leads, if
  -- the metadata name the DAG model and a `modelSince` that is not empty and not behind the file.
  abbrev pub starts_editable : MigrationFile → Text → Bool
  starts_editable last g =
      if is_dag_mode env.metadata env.config_dag
      then (has env.graph.files g && not (depended_on env.graph.edges g))
        && reaches_since env.metadata g
      else last.file_name == g

  -- The rows are there, and the file failed.
  abbrev pub failed_in : Option (List MigrationRecord) → Text → Bool
  failed_in none g = false
  failed_in (some rows) g = any (λ f. (f.file_name == g) && is_failed rows f) env.disk.files

  has-first_editables :
      (last : MigrationFile) (g : Text)
      → has (first_editables env last).editable_set g ≡ starts_editable last g
  unfolding first_editables has
  has-first_editables last g = ground (
    arith,
    has-offer_leaves (find_leaf_nodes env.graph) (record { editable_set = []; entries = [] }) g,
    has-find_leaf_nodes env.graph g,
    not-is_pre_model_since env.metadata g,
  )

  rows-case :
      (o : Option (List MigrationRecord)) (e : Editables) (g : Text)
      → has (with_rows env o e).editable_set g ≡ (has e.editable_set g || failed_in o g)
  rows-case none e g = ground arith
  rows-case (some rows) e g = has-offer_all_failed rows env.disk.files e g

  has-all_editables :
      (last : MigrationFile) (g : Text)
      → has (all_editables env last).editable_set g
        ≡ (starts_editable last g || (named_new g env.disk.files || failed_in env.rows g))
  unfolding all_editables with_new
  has-all_editables last g = ground (
    arith,
    rows-case env.rows (with_new env (first_editables env last)) g,
    has-offer_new env.disk.files (first_editables env last) g,
    has-first_editables last g,
  )

  has-names_kept :
      (p : Text → Bool) (fs : List MigrationFile) (g : Text)
      → has (map (λ f. f.file_name) (keep (λ f. p f.file_name) fs)) g
        ≡ (has (map (λ f. f.file_name) fs) g && p g)
  unfolding has
  has-names_kept p [] g = refl
  has-names_kept p (f ∷ fs) g =
      ground (arith, has-names_kept p fs g, eq_sound f.file_name g, ap p {x = f.file_name} {y = g})

  -- If there are files, the command lists a file exactly if it is on disk and may be edited: it is the
  -- last file in the linear model; or in the DAG model a file of the graph to which no edge leads, and
  -- only if the metadata, not just the configuration, name the DAG model, and a modelSince that is not
  -- empty and not behind the file; or it is not in the metadata; or the rows were read and its latest
  -- one is a failed one.
  pub has-editable_files :
      (last : MigrationFile) (g : Text)
      → get_last? env.disk.files ≡ some last
      → has (command_editable env).editable_files g ≡ (
          has (map (λ f. f.file_name) env.disk.files) g
          && (starts_editable last g || (named_new g env.disk.files || failed_in env.rows g)))
  unfolding command_editable
  has-editable_files last g found =
      rw (found, command_editable)
        (has-names_kept (has (all_editables env last).editable_set) env.disk.files g
          ∙ ap (λ b. has (map (λ f. f.file_name) env.disk.files) g && b) (has-all_editables last g))
