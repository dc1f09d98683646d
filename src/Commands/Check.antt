-- ===== src/Commands/Check.antt =====
-- src/commands/check.ts: metadata.json against the files on disk.
pub mod Groups
pub mod Errors
pub mod Expected
pub mod Passes
use migraguard.Prelude.{
  ℕ, Bool, true, false, not, ◌&&◌, ◌||◌, Option, none, some, List, [], ◌∷◌, ◌++◌, foldl, map, keep,
  any, length, get_last?, ltb, if◌then◌else◌,
}
use migraguard.Prelude.Text.{Text, ◌==◌, text_lt}
use migraguard.Prelude.Maps.{has, add, lookup, insert}
use migraguard.Naming.{Phase, expand, phase_eq}
use migraguard.Db.{MigrationClass, safe, expand_contract}
use migraguard.Scanner.{MigrationFile, Disk}
use migraguard.Metadata.{
  MigrationEntry, BaselineEntry, BaselineInclude, MetadataJson, baselines_of, is_dag_mode,
  is_pre_model_since,
}
use migraguard.Deps.{DependencyGraph, find_leaf_nodes}
use migraguard.Commands.Apply.Run.{class_eq, is_truthy}

pub data CheckError : Type 0 where
  several_new_files : ℕ → CheckError
  new_file : Text → CheckError
  before_last_recorded : Text → CheckError
  checksum_mismatch : Text → Text → Text → CheckError
  missing_from_disk : Text → CheckError
  baselined_on_disk : Text → CheckError
  missing_expand : Text → CheckError

pub record CheckResult : Type 0 where
  pub ok : Bool
  pub errors : List CheckError

-- What the command reads. `graph` is the result of `buildDependencyGraph`.
pub record CheckEnv : Type 0 where
  pub disk : Disk
  pub metadata : MetadataJson
  pub config_dag : Bool
  pub graph : DependencyGraph

-- for (const x of xs) …: the errors of each round, in order
abbrev pub collect {ℓ} : {A : Type ℓ} → (A → List CheckError) → List A → List CheckError
collect f [] = []
collect f (x ∷ xs) = f x ++ collect f xs

-- `metadataMap`: of two entries of one file the later one stays
unfoldable pub metadata_map : MetadataJson → List (Text × Text)
metadata_map m = foldl (λ acc e. insert e.file e.checksum acc) [] m.migrations

abbrev pub is_some {ℓ} : {A : Type ℓ} → Option A → Bool
is_some none = false
is_some (some x) = true

abbrev pub is_recorded : MetadataJson → MigrationFile → Bool
is_recorded m f = is_some (lookup f.file_name (metadata_map m))

-- The names of `baselinedFiles`.
unfoldable pub baselined_files : MetadataJson → List Text
baselined_files m =
    foldl (λ names b. foldl (λ names inc. add inc.file names) names b.includes) []
      (baselines_of m.baselines)

abbrev pub add_phase : Phase → Option (List Phase) → List Phase
add_phase p none = p ∷ []
add_phase p (some ps) = if any (λ q. phase_eq q p) ps then ps else ps ++ p ∷ []

-- The group and the phase of a file that has both, as the code asks for them.
abbrev pub group_phase : MigrationFile → Option (Text × Phase)
group_phase f =
    if class_eq f.migration_class expand_contract && is_truthy f.group_name
    then elim f.group_name [
      | none ↦ none
      | some g ↦ elim f.phase [ none ↦ none | some p ↦ some (g, p) ]
    ]
    else none

abbrev pub add_to_group :
    Option (Text × Phase) → List (Text × List Phase) → List (Text × List Phase)
add_to_group none m = m
add_to_group (some (g, p)) m = insert g (add_phase p (lookup g m)) m

-- `groupFiles`
unfoldable pub group_files : List MigrationFile → List (Text × List Phase)
group_files = foldl (λ m f. add_to_group (group_phase f) m) []

module _ (env : CheckEnv) where
  abbrev pub check_dag : Bool
  check_dag = is_dag_mode env.metadata env.config_dag

  abbrev pub recorded_files : List MigrationFile
  recorded_files = keep (is_recorded env.metadata) env.disk.files

  abbrev pub new_files : List MigrationFile
  new_files = keep (λ f. not (is_recorded env.metadata f)) env.disk.files

  abbrev pub last_name : Option MigrationFile → List Text
  last_name none = []
  last_name (some f) = f.file_name ∷ []

  -- `editableSet`
  unfoldable pub editable_set : List Text
  editable_set =
      if check_dag
      then keep (λ f. not (is_pre_model_since env.metadata f)) (find_leaf_nodes env.graph)
      else last_name (get_last? env.disk.files)

  abbrev pub new_safe_files : List MigrationFile
  new_safe_files = keep (λ f. class_eq f.migration_class safe) new_files

  -- 1.
  abbrev pub several_errors : List CheckError
  several_errors =
      if not check_dag && ltb 1 (length new_safe_files)
      then several_new_files (length new_safe_files)
        ∷ map (λ f. new_file f.file_name) new_safe_files
      else []

  abbrev pub before_last : Text → MigrationFile → List CheckError
  before_last key f =
      if text_lt f.parsed.sort_key key then before_last_recorded f.file_name ∷ [] else []

  -- 2.
  abbrev pub insertion_errors : List CheckError
  insertion_errors = if check_dag then [] else elim (get_last? recorded_files) [
    | none ↦ []
    | some last ↦ collect (before_last last.parsed.sort_key) new_files
  ]

  abbrev pub mismatch : MigrationFile → Option Text → List CheckError
  mismatch f none = []
  mismatch f (some expected) =
      if expected == []
      then []
      else if env.disk.checksum_file f.file_path == expected
      then []
      else if has editable_set f.file_name
      then []
      else checksum_mismatch f.file_name expected (env.disk.checksum_file f.file_path) ∷ []

  -- 3.
  abbrev pub checksum_errors : List CheckError
  checksum_errors =
      collect (λ f. mismatch f (lookup f.file_name (metadata_map env.metadata))) recorded_files

  abbrev pub file_names : List Text
  file_names = map (λ f. f.file_name) env.disk.files

  -- 4.
  abbrev pub missing_errors : List CheckError
  missing_errors =
      collect (λ e. if has file_names e.file then [] else missing_from_disk e.file ∷ [])
        env.metadata.migrations

  -- 5.
  abbrev pub baseline_errors : List CheckError
  baseline_errors =
      collect (λ file. if has file_names file then baselined_on_disk file ∷ [] else [])
        (baselined_files env.metadata)

  -- 6.
  abbrev pub group_errors : List CheckError
  group_errors =
      collect
        (λ (entry : Text × List Phase).
          if any (λ q. phase_eq q expand) entry.1 then [] else missing_expand entry.0 ∷ [])
        (group_files env.disk.files)

  abbrev none_in : List CheckError → Bool
  none_in [] = true
  none_in (e ∷ es) = false

  unfoldable pub check_errors : List CheckError
  check_errors =
      several_errors
      ++ (insertion_errors
          ++ (checksum_errors ++ (missing_errors ++ (baseline_errors ++ group_errors))))

  unfoldable pub command_check : CheckResult
  command_check = record { ok = none_in check_errors; errors = check_errors }
