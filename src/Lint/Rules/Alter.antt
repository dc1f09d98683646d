-- ===== src/Lint/Rules/Alter.antt =====
-- src/rules: the rules on ALTER TABLE.
use migraguard.Prelude.{Bool, not, ◌&&◌, ◌||◌, none, some, List, [], ◌∷◌, ◌++◌, any, if◌then◌else◌}
use migraguard.Prelude.Text.{Text, codes, ◌==◌}
use migraguard.Ast.{Json, Value, get, truthy, items_at, text_at}
use migraguard.Lint.Visitors.{RuleReport}
use migraguard.Lint.Engine.{LintRule}
use migraguard.Lint.Rules.Parts.{
  report, stateless, shown, named_or, relation_name, in_quotes, if_named, for_alter_cmds,
  is_subtype, is_subtype_number,
}

-- A rule on each command of an ALTER TABLE; the first argument is the statement.
abbrev on_alter_cmds : Text → (Value → Value → List RuleReport) → LintRule
on_alter_cmds id check =
    stateless id none ((codes "AlterTableStmt", λ stmt ctx. for_alter_cmds (check stmt) stmt) ∷ [])

-- A constraint of the column is of the kind.
abbrev has_constraint : Text → Value → Bool
has_constraint kind col =
    any (λ (c : Json). text_at (codes "contype") (get (codes "Constraint") (some c)) == kind)
      (items_at (codes "constraints") col)

abbrev added_column : Value → List RuleReport
added_column col =
    if has_constraint (codes "CONSTR_NOTNULL") col
      && not (has_constraint (codes "CONSTR_DEFAULT") col)
    then report
        (codes "Adding NOT NULL column "
          ++ in_quotes (named_or (codes "colname") (codes "(unknown)") col)
          ++ codes " without DEFAULT")
        (codes
          "Add a DEFAULT value or add the column as nullable first, then backfill, then set NOT NULL")
    else []

abbrev adds_column : Value → List RuleReport
adds_column cmd =
    let col = get (codes "ColumnDef") (get (codes "def") cmd) in
    if (is_subtype (codes "AT_AddColumn") cmd || is_subtype_number 0 cmd) && truthy col
    then added_column col
    else []

abbrev pub adding_not_nullable_field : LintRule
adding_not_nullable_field =
    on_alter_cmds (codes "adding-not-nullable-field") (λ stmt cmd. adds_column cmd)

abbrev pub ban_alter_column_type : LintRule
ban_alter_column_type = on_alter_cmds (codes "ban-alter-column-type") (λ stmt cmd.
    if is_subtype (codes "AT_AlterColumnType") cmd
    then report
        (codes "ALTER COLUMN TYPE on "
          ++ in_quotes (relation_name stmt)
          ++ codes "."
          ++ shown (codes "name") cmd)
        (codes
          "Type changes may rewrite the table. Use add-column → backfill → swap → drop-column instead")
    else [])

abbrev pub ban_drop_column : LintRule
ban_drop_column = on_alter_cmds (codes "ban-drop-column") (λ stmt cmd.
    if is_subtype (codes "AT_DropColumn") cmd
    then report
        (codes "DROP COLUMN "
          ++ in_quotes (shown (codes "name") cmd)
          ++ codes " on "
          ++ in_quotes (relation_name stmt))
        (codes
          "DROP COLUMN is irreversible. Consider deprecating the column first, then dropping in a later migration")
    else [])

abbrev pub ban_set_not_null : LintRule
ban_set_not_null = on_alter_cmds (codes "ban-set-not-null") (λ stmt cmd.
    if is_subtype (codes "AT_SetNotNull") cmd
    then report
        (codes "SET NOT NULL on "
          ++ in_quotes (relation_name stmt)
          ++ codes "."
          ++ shown (codes "name") cmd)
        (codes
          "Use ADD CONSTRAINT ... CHECK (col IS NOT NULL) NOT VALID, then VALIDATE in a separate migration, then SET NOT NULL")
    else [])

-- The constraint that a command adds.
abbrev constraint_of : Value → Value
constraint_of cmd = get (codes "Constraint") (get (codes "def") cmd)

abbrev unvalidated : Value → List RuleReport
unvalidated constr =
    let kind = text_at (codes "contype") constr in
    if ((kind == codes "CONSTR_FOREIGN") || (kind == codes "CONSTR_CHECK"))
      && not (truthy (get (codes "skip_validation") constr))
    then report
        (codes "ADD CONSTRAINT "
          ++ if_named (codes "\"") (text_at (codes "conname") constr) (codes "\" ")
          ++ codes "without NOT VALID")
        (codes
          "Use NOT VALID to avoid a full table scan that blocks writes, then VALIDATE CONSTRAINT separately")
    else []

abbrev pub constraint_missing_not_valid : LintRule
constraint_missing_not_valid = on_alter_cmds (codes "constraint-missing-not-valid") (λ stmt cmd.
    if (is_subtype (codes "AT_AddConstraint") cmd || is_subtype_number 14 cmd)
      && truthy (constraint_of cmd)
    then unvalidated (constraint_of cmd)
    else [])

-- The command adds a constraint of the kind without an index that is there.
abbrev adds_without_index : Text → Value → Bool
adds_without_index kind cmd =
    is_subtype (codes "AT_AddConstraint") cmd
    && truthy (constraint_of cmd)
    && (text_at (codes "contype") (constraint_of cmd) == kind)
    && not (truthy (get (codes "indexname") (constraint_of cmd)))

abbrev pub require_pk_via_concurrent_index : LintRule
require_pk_via_concurrent_index =
    on_alter_cmds (codes "require-pk-via-concurrent-index") (λ stmt cmd.
      if adds_without_index (codes "CONSTR_PRIMARY") cmd
      then report (codes "PRIMARY KEY added directly on " ++ in_quotes (relation_name stmt)) (
          codes
            "CREATE UNIQUE INDEX CONCURRENTLY first, then ADD CONSTRAINT ... PRIMARY KEY USING INDEX")
      else [])

abbrev pub require_unique_via_concurrent_index : LintRule
require_unique_via_concurrent_index =
    on_alter_cmds (codes "require-unique-via-concurrent-index") (λ stmt cmd.
      if adds_without_index (codes "CONSTR_UNIQUE") cmd
      then report
          (codes "UNIQUE constraint "
            ++ if_named (codes "\"") (text_at (codes "conname") (constraint_of cmd)) (codes "\" ")
            ++ codes "added directly")
          (codes "Create a UNIQUE index CONCURRENTLY first, then ADD CONSTRAINT ... USING INDEX")
      else [])
