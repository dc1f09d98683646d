-- ===== src/Commands/Apply/Run.antt =====
-- src/commands/apply.ts: `commandApply`, the loop over the files and what surrounds it.
use migraguard.Prelude.{
  Bool, true, false, not, ◌&&◌, Option, none, some, List, [], ◌∷◌, ◌++◌, foldl, map, keep, any,
  find, if◌then◌else◌,
}
use migraguard.Prelude.Text.{Text, ◌==◌}
use migraguard.Prelude.Maps.{has, add, lookup, insert}
use migraguard.Naming.{Phase, expand, backfill, phase_eq}
use migraguard.Db.{
  MigrationRecord, MigrationClass, safe, expand_contract, InsertRecordOptions, no_options, Database,
}
use migraguard.Scanner.{MigrationFile, Disk}
use migraguard.GroupState.{
  get_latest_record, derive_all_group_states, is_group_open, can_advance_to_phase,
}
use migraguard.Deps.{DependencyGraph, find_leaf_nodes}
use migraguard.Deps.Dependents.{find_transitive_dependents}
use migraguard.Commands.Apply.{
  ApplyResult, FileAction, ok, error, push_skipped, push_blocked, FileJob, process_file,
}

abbrev pub records_or_nil : Option (List MigrationRecord) → List MigrationRecord
records_or_nil none = []
records_or_nil (some rs) = rs

abbrev pub record_for_file :
    List (Text × List MigrationRecord) → MigrationRecord → List (Text × List MigrationRecord)
record_for_file m r = insert r.file_name (records_or_nil (lookup r.file_name m) ++ r ∷ []) m

-- `recordsByFile`
unfoldable pub records_by_file : List MigrationRecord → List (Text × List MigrationRecord)
records_by_file = foldl record_for_file []

-- `fileMap`: of two files of one name the later one stays
unfoldable pub file_map : List MigrationFile → List (Text × MigrationFile)
file_map = foldl (λ m f. insert f.file_name f m) []

-- What the loop reads and does not change. `graph` is there in the DAG model only; the source
-- sets `dag`, `graph` and `leafSet` together.
pub record LoopContext : Type 0 where
  pub disk : Disk
  pub graph : Option DependencyGraph
  pub all_records : List MigrationRecord
  pub latest_file_name : Text
  pub tag : Option Text

pub record Progress (d : Database) : Type 0 where
  pub result : ApplyResult
  pub blocked_set : List Text
  pub session : d.Session

-- if (name): a string that is there and not empty
abbrev pub is_truthy : Option Text → Bool
is_truthy none = false
is_truthy (some g) = not (g == [])

abbrev pub class_eq : MigrationClass → MigrationClass → Bool
class_eq safe safe = true
class_eq expand_contract expand_contract = true
class_eq _ _ = false

abbrev pub is_phase : Phase → MigrationFile → Bool
is_phase p f = elim f.phase [ none ↦ false | some q ↦ phase_eq q p ]

-- `gs && !canAdvanceToPhase(gs, file.phase)` for the group's state in the current rows
abbrev pub must_wait : List MigrationRecord → Text → Phase → Bool
must_wait records group phase =
    elim (find (λ g. g.group_name == group) (derive_all_group_states records)) [
      | none ↦ false
      | some g ↦ not (can_advance_to_phase g phase)
    ]

abbrev pub group_waits : List MigrationRecord → MigrationFile → Bool
group_waits records f = elim f.group_name [
  | none ↦ false
  | some group ↦ elim f.phase [
    | none ↦ false
    | some phase ↦
        not (group == []) && (not (phase_eq phase expand) && must_wait records group phase)
  ]
]

-- `openGroups`
abbrev pub open_groups : List MigrationRecord → List Text
open_groups records = map (λ g. g.group_name) (keep is_group_open (derive_all_group_states records))

abbrev pub in_open_group : List Text → Option MigrationFile → Bool
in_open_group groups none = false
in_open_group groups (some f) = elim f.group_name [
  | none ↦ false
  | some g ↦ not (g == []) && has groups g
]

-- `blockedByOpen`
abbrev pub depends_on_open : LoopContext → DependencyGraph → Text → Bool
depends_on_open c g file_name =
    any
      (λ e.
        (e.from == file_name)
        && in_open_group (open_groups c.all_records) (lookup e.to (file_map c.disk.files)))
      g.edges

abbrev pub has_no_group : MigrationFile → Bool
has_no_group f = elim f.group_name [ none ↦ true | some g ↦ false ]

abbrev pub blocked_by_open : LoopContext → MigrationFile → Text → Bool
blocked_by_open c f file_name = elim c.graph [
  | none ↦ false
  | some g ↦ class_eq f.migration_class safe && (has_no_group f && depends_on_open c g file_name)
]

abbrev pub is_editable : LoopContext → MigrationFile → Bool
is_editable c f = elim c.graph [
  | none ↦ f.file_name == c.latest_file_name
  | some g ↦ has (find_leaf_nodes g) f.file_name
]

-- `options?.tag ? { tag } : undefined`
abbrev pub tag_options : Option Text → InsertRecordOptions
tag_options tag = if is_truthy tag then record no_options { tag = tag } else no_options

abbrev pub insert_options : LoopContext → MigrationFile → InsertRecordOptions
insert_options c f =
    if class_eq f.migration_class expand_contract
    then record {
      migration_class = some expand_contract;
      phase = f.phase;
      group_name = f.group_name;
      tag = c.tag;
    }
    else tag_options c.tag

abbrev pub job_of : LoopContext → MigrationFile → FileJob
job_of c f =
    let file_records = records_or_nil (lookup f.file_name (records_by_file c.all_records)) in
    record {
      file_path = f.file_path;
      file_name = f.file_name;
      file_records = file_records;
      latest_record = get_latest_record file_records;
      current_checksum = c.disk.checksum_file f.file_path;
      is_editable = is_editable c f;
      insert_opts = insert_options c f;
    }

-- true: the loop is left by `break`
abbrev pub Visited : Database → Type 0
Visited d = Bool × Progress d

module _ (d : Database) (c : LoopContext) where
  -- After `processFile`: an error blocks the dependents, or ends the loop.
  unfoldable pub after_process :
      MigrationFile → List Text → FileAction × ApplyResult × d.Session → Visited d
  after_process f blocked_set (ok, result, s) =
      (false, record { result = result; blocked_set = blocked_set; session = s })
  after_process f blocked_set (error, result, s) = elim c.graph [
    | none ↦ (true, record { result = result; blocked_set = blocked_set; session = s })
    | some g ↦ (
      false,
      record {
        result = result;
        blocked_set =
            foldl (λ set dep. add dep set) blocked_set (find_transitive_dependents g f.file_name);
        session = s;
      },
    )
  ]

  unfoldable pub visit_file : MigrationFile → Text → Progress d → Visited d
  unfolding after_process
  visit_file f file_name p =
      if has p.blocked_set file_name
      then (false, record p { result = push_blocked file_name p.result })
      else if class_eq f.migration_class expand_contract && is_phase backfill f
      then (false, record p { result = push_skipped file_name p.result })
      else if class_eq f.migration_class expand_contract && group_waits (d.select_rows p.session) f
      then (false, record p { result = push_skipped file_name p.result })
      else if blocked_by_open c f file_name
      then (false, record p { result = push_blocked file_name p.result })
      else after_process f p.blocked_set (process_file d (job_of c f) p.result p.session)

  unfoldable pub visit_name : Text → Progress d → Visited d
  unfolding visit_file
  visit_name file_name p = elim (lookup file_name (file_map c.disk.files)) [
    | none ↦ (false, p)
    | some f ↦ visit_file f file_name p
  ]

  unfoldable pub apply_loop : List Text → Progress d → Progress d
  apply_loop [] p = p
  apply_loop (file_name ∷ rest) p =
      let visited = visit_name file_name p in
      elim visited.0 [ true ↦ visited.1 | false ↦ apply_loop rest visited.1 ]
