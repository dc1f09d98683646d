-- ===== src/Lint/Rules/Timeouts.antt =====
-- src/rules: the rules that keep variables from statement to statement.
use migraguard.Prelude.{
  Bool, true, false, not, ◌&&◌, ◌||◌, none, some, List, [], ◌∷◌, ◌++◌, foldl, map, flat_map, keep,
  if◌then◌else◌,
}
use migraguard.Prelude.Text.{Text, codes, ◌==◌}
use migraguard.Prelude.Maps.{has, add}
use migraguard.Ast.{Json, Value, get, truthy, items_at, text_at}
use migraguard.Lint.Visitors.{RuleReport}
use migraguard.Lint.Engine.{Handler, LintRule}
use migraguard.Lint.Rules.Parts.{report, in_quotes, is_subtype}

-- `flagged`
abbrev pub FlagHandler : Type 0
FlagHandler = Handler Bool

abbrev check_timeout : FlagHandler
check_timeout stmt ctx flagged =
    if not ctx.lock_timeout_set && not flagged
    then (
      report (codes "DDL appears before SET lock_timeout")
          (codes "Add SET lock_timeout = '5s'; before DDL statements"),
      true,
    )
    else ([], flagged)

-- if (!node.concurrent) …
abbrev unless_concurrent : {S : Type 0} → Handler S → Handler S
unless_concurrent handler stmt ctx s =
    if not (truthy (get (codes "concurrent") stmt)) then handler stmt ctx s else ([], s)

abbrev pub require_lock_timeout : LintRule
require_lock_timeout = record {
  id = codes "require-lock-timeout";
  applicable_phases = none;
  State = Bool;
  start = false;
  handlers =
      (codes "CreateStmt", check_timeout)
      ∷ (codes "IndexStmt", unless_concurrent check_timeout)
      ∷ (codes "AlterTableStmt", check_timeout)
      ∷ (codes "DropStmt", check_timeout)
      ∷ [];
}

-- `set` and `flagged`
pub record StatementTimeout : Type 0 where
  pub set : Bool
  pub flagged : Bool

abbrev check_statement : Handler StatementTimeout
check_statement stmt ctx s =
    if not s.set && not s.flagged
    then (
      report (codes "DDL appears before SET statement_timeout")
          (codes "Add SET statement_timeout = '30s'; before DDL statements"),
      record { set = s.set; flagged = true },
    )
    else ([], s)

abbrev note_timeout : Handler StatementTimeout
note_timeout stmt ctx s = (
  [],
  record {
    set = (text_at (codes "name") stmt == codes "statement_timeout") || s.set;
    flagged = s.flagged;
  },
)

abbrev pub require_statement_timeout : LintRule
require_statement_timeout = record {
  id = codes "require-statement-timeout";
  applicable_phases = none;
  State = StatementTimeout;
  start = record { set = false; flagged = false };
  handlers =
      (codes "VariableSetStmt", note_timeout)
      ∷ (codes "CreateStmt", check_statement)
      ∷ (codes "IndexStmt", unless_concurrent check_statement)
      ∷ (codes "AlterTableStmt", check_statement)
      ∷ (codes "DropStmt", check_statement)
      ∷ [];
}

pub record Timeouts : Type 0 where
  pub lock_timeout_set : Bool
  pub stmt_timeout_set : Bool
  pub lock_timeout_reset : Bool
  pub stmt_timeout_reset : Bool

abbrev note_variable : Handler Timeouts
note_variable stmt ctx s =
    let is_lock = text_at (codes "name") stmt == codes "lock_timeout" in
    let is_stmt = text_at (codes "name") stmt == codes "statement_timeout" in
    let all = text_at (codes "kind") stmt == codes "VAR_RESET_ALL" in
    if (text_at (codes "kind") stmt == codes "VAR_RESET") || all
    then (
      [],
      record {
        lock_timeout_set = s.lock_timeout_set;
        stmt_timeout_set = s.stmt_timeout_set;
        lock_timeout_reset = is_lock || all || s.lock_timeout_reset;
        stmt_timeout_reset = is_stmt || all || s.stmt_timeout_reset;
      },
    )
    else (
      [],
      record {
        lock_timeout_set = is_lock || s.lock_timeout_set;
        stmt_timeout_set = is_stmt || s.stmt_timeout_set;
        lock_timeout_reset = s.lock_timeout_reset;
        stmt_timeout_reset = s.stmt_timeout_reset;
      },
    )

abbrev report_open : Handler Timeouts
report_open stmt ctx s = (
  (if s.lock_timeout_set && not s.lock_timeout_reset
        then report (codes "SET lock_timeout without RESET lock_timeout")
            (codes "Add RESET lock_timeout; at the end of the file")
        else [])
      ++ (if s.stmt_timeout_set && not s.stmt_timeout_reset
          then report (codes "SET statement_timeout without RESET statement_timeout")
              (codes "Add RESET statement_timeout; at the end of the file")
          else []),
  s,
)

abbrev pub require_reset_timeouts : LintRule
require_reset_timeouts = record {
  id = codes "require-reset-timeouts";
  applicable_phases = none;
  State = Timeouts;
  start = record {
    lock_timeout_set = false;
    stmt_timeout_set = false;
    lock_timeout_reset = false;
    stmt_timeout_reset = false;
  };
  handlers = (codes "VariableSetStmt", note_variable) ∷ (codes "_End", report_open) ∷ [];
}

-- `tablesNeedingAnalyze`
abbrev note_index : Handler (List Text)
note_index stmt ctx tables =
    let name = text_at (codes "relname") (get (codes "relation") stmt) in
    ([], if name == [] then tables else add name tables)

abbrev analyzed_name : Json → Text
analyzed_name rel =
    text_at (codes "relname") (get (codes "relation") (get (codes "VacuumRelation") (some rel)))

-- set.delete(name)
abbrev without : List Text → Text → List Text
without tables name = if name == [] then tables else keep (λ t. not (t == name)) tables

abbrev note_analyze : Handler (List Text)
note_analyze stmt ctx tables =
    ([], foldl without tables (map analyzed_name (items_at (codes "rels") stmt)))

abbrev report_table : Text → List RuleReport
report_table table =
    report
      (codes "CREATE INDEX on " ++ in_quotes table ++ codes " without subsequent ANALYZE " ++ table)
      (codes "Add ANALYZE " ++ table ++ codes "; after index creation to update planner statistics")

abbrev pub require_analyze_after_index : LintRule
require_analyze_after_index = record {
  id = codes "require-analyze-after-index";
  applicable_phases = none;
  State = List Text;
  start = [];
  handlers =
      (codes "IndexStmt", note_index)
      ∷ (codes "VacuumStmt", note_analyze)
      ∷ (codes "_End", λ stmt ctx tables. (flat_map report_table tables, tables))
      ∷ [];
}

-- `notValidConstraints`, with what the commands before report.
abbrev note_constraint : Text → List Text → Value → List Text
note_constraint table seen cmd =
    let constr = get (codes "Constraint") (get (codes "def") cmd) in
    let name = text_at (codes "conname") constr in
    if is_subtype (codes "AT_AddConstraint") cmd
      && truthy constr
      && truthy (get (codes "skip_validation") constr)
      && not (name == [])
    then add (table ++ codes "." ++ name) seen
    else seen

abbrev report_validation : Text → List Text → Value → List RuleReport
report_validation table seen cmd =
    let name = text_at (codes "name") cmd in
    if is_subtype (codes "AT_ValidateConstraint") cmd
      && not (name == [])
      && has seen (table ++ codes "." ++ name)
    then report
        (codes "VALIDATE CONSTRAINT " ++ in_quotes name ++ codes " in same file as NOT VALID")
        (codes
          "Move VALIDATE CONSTRAINT to a separate migration to control timing and avoid long locks during high traffic")
    else []

-- One round of the loop over the commands.
abbrev validate_cmd : Text → List RuleReport × List Text → Json → List RuleReport × List Text
validate_cmd table (reports, seen) j =
    let cmd = get (codes "AlterTableCmd") (some j) in
    let noted = note_constraint table seen cmd in
    (reports ++ report_validation table noted cmd, noted)

abbrev validate_cmds : Handler (List Text)
validate_cmds stmt ctx seen =
    foldl (validate_cmd (text_at (codes "relname") (get (codes "relation") stmt))) ([], seen)
      (items_at (codes "cmds") stmt)

abbrev pub ban_validate_constraint_same_file : LintRule
ban_validate_constraint_same_file = record {
  id = codes "ban-validate-constraint-same-file";
  applicable_phases = none;
  State = List Text;
  start = [];
  handlers = (codes "AlterTableStmt", validate_cmds) ∷ [];
}
