-- ===== src/Lint/Rules/Phases.antt =====
-- src/rules: the rules that apply to the files of one phase.
use migraguard.Prelude.{not, ◌||◌, some, [], ◌∷◌, ◌++◌, if◌then◌else◌}
use migraguard.Prelude.Text.{Text, codes, ◌==◌}
use migraguard.Naming.{expand, backfill, contract}
use migraguard.Ast.{get, truthy, text_at}
use migraguard.Lint.Engine.{LintRule}
use migraguard.Lint.Rules.Parts.{Check, report, stateless, named_or, for_alter_cmds, is_subtype}

abbrev elsewhere : Text
elsewhere = codes "DDL changes belong in the expand or contract phase, not backfill"

abbrev pub backfill_ban_ddl : LintRule
backfill_ban_ddl = stateless (codes "backfill-ban-ddl") (some (backfill ∷ [])) (
    (
      codes "CreateStmt",
      λ stmt ctx. report (codes "CREATE TABLE is not allowed in backfill phase") elsewhere,
    )
    ∷ (
      codes "AlterTableStmt",
      λ stmt ctx. report (codes "ALTER TABLE is not allowed in backfill phase") elsewhere,
    )
    ∷ (
      codes "IndexStmt",
      λ stmt ctx.
          report (codes "CREATE INDEX is not allowed in backfill phase")
            (codes "DDL changes belong in the expand phase, not backfill"),
    )
    ∷ (
      codes "DropStmt",
      λ stmt ctx.
          report (codes "DROP is not allowed in backfill phase")
            (codes "DDL changes belong in the contract phase, not backfill"),
    )
    ∷ [])

abbrev pub backfill_requires_where_clause : LintRule
backfill_requires_where_clause =
    stateless (codes "backfill-requires-where-clause") (some (backfill ∷ [])) (
      (
        codes "UpdateStmt",
        λ stmt ctx.
            if not (truthy (get (codes "whereClause") stmt))
            then report (codes "UPDATE without WHERE clause in backfill phase")
                (codes "Add a WHERE clause to ensure backfill is incremental and idempotent")
            else [],
      )
      ∷ (
        codes "DeleteStmt",
        λ stmt ctx.
            if not (truthy (get (codes "whereClause") stmt))
            then report (codes "DELETE without WHERE clause in backfill phase")
                (codes "Add a WHERE clause to target specific rows in backfill")
            else [],
      )
      ∷ [])

abbrev drops_without_allowance : Check
drops_without_allowance stmt ctx =
    let removed = text_at (codes "removeType") stmt in
    if (removed == codes "OBJECT_TABLE") || (removed == codes "OBJECT_INDEX")
    then report
        (codes "DROP statement in contract phase requires explicit migraguard:allow directive")
        (codes
          "Add \"-- migraguard:allow ban-drop-table\" or \"-- migraguard:allow ban-drop-column\" before this statement")
    else []

abbrev pub contract_requires_allow_directive : LintRule
contract_requires_allow_directive =
    stateless (codes "contract-requires-allow-directive") (some (contract ∷ [])) (
      (codes "DropStmt", drops_without_allowance)
      ∷ (
        codes "AlterTableStmt",
        λ stmt ctx.
            for_alter_cmds
              (λ cmd.
                if is_subtype (codes "AT_DropColumn") cmd
                then report
                    (codes
                      "ALTER TABLE DROP COLUMN in contract phase requires explicit migraguard:allow directive")
                    (codes "Add \"-- migraguard:allow ban-drop-column\" before this statement")
                else [])
              stmt,
      )
      ∷ [])

abbrev pub expand_requires_idempotent_pattern : LintRule
expand_requires_idempotent_pattern =
    stateless (codes "expand-requires-idempotent-pattern") (some (expand ∷ [])) (
      (
        codes "CreateStmt",
        λ stmt ctx.
            if not (truthy (get (codes "if_not_exists") stmt))
            then report
                (codes "CREATE TABLE "
                  ++ named_or (codes "relname") [] (get (codes "relation") stmt)
                  ++ codes " without IF NOT EXISTS in expand phase")
                (codes "Use CREATE TABLE IF NOT EXISTS for idempotent expand migrations")
            else [],
      )
      ∷ (
        codes "IndexStmt",
        λ stmt ctx.
            if not (truthy (get (codes "if_not_exists") stmt))
            then report
                (codes "CREATE INDEX "
                  ++ named_or (codes "idxname") [] stmt
                  ++ codes " without IF NOT EXISTS in expand phase")
                (codes "Use CREATE INDEX IF NOT EXISTS for idempotent expand migrations")
            else [],
      )
      ∷ [])
