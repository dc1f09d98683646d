-- ===== src/Generic/Rules/Phases.antt =====
-- src/generic/rules: the rules that apply to the files of one phase.
use migraguard.Prelude.{not, ◌||◌, some, List, [], ◌∷◌, ◌++◌, flat_map, if◌then◌else◌}
use migraguard.Prelude.Text.{Text, codes, ◌==◌}
use migraguard.Naming.{expand, backfill, contract}
use migraguard.Ast.{Json, get, truthy, items_at, text_at}
use migraguard.Lint.Visitors.{RuleReport}
use migraguard.Lint.Rules.Parts.{report, stateless, named_or, in_quotes}
use migraguard.Generic.Parser.{first_table}
use migraguard.Generic.Engine.{GenericLintRule}
use migraguard.Generic.Rules.Alter.{first_table_name, index_name, is_action}
use migraguard.Generic.Rules.Drops.{lacks_where, first_from_name}

abbrev other_phase : Text
other_phase = codes "DDL changes belong in the expand or contract phase, not backfill"

abbrev pub generic_backfill_ban_ddl : GenericLintRule
generic_backfill_ban_ddl = stateless (codes "backfill-ban-ddl") (some (backfill ∷ [])) (
    (
      codes "create_table",
      λ stmt ctx. report (codes "CREATE TABLE is not allowed in backfill phase") other_phase,
    )
    ∷ (
      codes "create_index",
      λ stmt ctx.
          report (codes "CREATE INDEX is not allowed in backfill phase")
            (codes "DDL changes belong in the expand phase, not backfill"),
    )
    ∷ (
      codes "alter",
      λ stmt ctx. report (codes "ALTER TABLE is not allowed in backfill phase") other_phase,
    )
    ∷ (
      codes "drop",
      λ stmt ctx.
          report (codes "DROP is not allowed in backfill phase")
            (codes "DDL changes belong in the contract phase, not backfill"),
    )
    ∷ [])

abbrev pub generic_backfill_requires_where_clause : GenericLintRule
generic_backfill_requires_where_clause =
    stateless (codes "backfill-requires-where-clause") (some (backfill ∷ [])) (
      (
        codes "update",
        λ stmt ctx.
            if lacks_where stmt
            then report
                (codes "UPDATE on "
                  ++ in_quotes (first_table_name stmt)
                  ++ codes " without WHERE clause in backfill phase")
                (codes "Add a WHERE clause to batch backfill operations safely")
            else [],
      )
      ∷ (
        codes "delete",
        λ stmt ctx.
            if lacks_where stmt
            then report
                (codes "DELETE on "
                  ++ in_quotes (first_from_name stmt)
                  ++ codes " without WHERE clause in backfill phase")
                (codes "Add a WHERE clause to batch operations safely")
            else [],
      )
      ∷ [])

abbrev drop_column_report : Json → List RuleReport
drop_column_report expr =
    if is_action (codes "drop") (codes "column") expr
    then report
        (codes
          "ALTER TABLE DROP COLUMN in contract phase requires explicit migraguard:allow directive")
        (codes "Add \"-- migraguard:allow ban-drop-column\" before this statement")
    else []

abbrev pub generic_contract_requires_allow_directive : GenericLintRule
generic_contract_requires_allow_directive =
    stateless (codes "contract-requires-allow-directive") (some (contract ∷ [])) (
      (
        codes "drop",
        λ stmt ctx.
            let keyword = text_at (codes "keyword") stmt in
            if (keyword == codes "table") || (keyword == codes "index")
            then report
                (codes
                  "DROP statement in contract phase requires explicit migraguard:allow directive")
                (codes
                  "Add \"-- migraguard:allow ban-drop-table\" or similar before this statement")
            else [],
      )
      ∷ (codes "alter", λ stmt ctx. flat_map drop_column_report (items_at (codes "expr") stmt))
      ∷ [])

abbrev pub generic_expand_requires_idempotent_pattern : GenericLintRule
generic_expand_requires_idempotent_pattern =
    stateless (codes "expand-requires-idempotent-pattern") (some (expand ∷ [])) (
      (
        codes "create_table",
        λ stmt ctx.
            if not (truthy (get (codes "if_not_exists") stmt))
            then report
                (codes "CREATE TABLE "
                  ++ named_or (codes "table") [] (first_table stmt)
                  ++ codes " without IF NOT EXISTS in expand phase")
                (codes "Use CREATE TABLE IF NOT EXISTS for idempotent expand migrations")
            else [],
      )
      ∷ (
        codes "create_index",
        λ stmt ctx.
            if not (truthy (get (codes "if_not_exists") stmt))
            then report
                (codes "CREATE INDEX "
                  ++ index_name stmt
                  ++ codes " without IF NOT EXISTS in expand phase")
                (codes "Use CREATE INDEX IF NOT EXISTS for idempotent expand migrations")
            else [],
      )
      ∷ [])
