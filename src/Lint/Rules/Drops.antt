-- ===== src/Lint/Rules/Drops.antt =====
-- src/rules: the rules on DROP, renaming, deletion and updates.
use migraguard.Prelude.{Bool, not, none, some, [], ◌∷◌, ◌++◌, map, if◌then◌else◌}
use migraguard.Prelude.Text.{Text, codes, ◌==◌}
use migraguard.Ast.{Json, Value, get, truthy, items_at, text_at}
use migraguard.Lint.Engine.{LintRule}
use migraguard.Lint.Rules.Parts.{
  report, stateless, shown, relation_name, in_quotes, if_named, join_named, dotted,
}

abbrev pub ban_drop_cascade : LintRule
ban_drop_cascade = stateless (codes "ban-drop-cascade") none (
    (
      codes "DropStmt",
      λ stmt ctx.
          if text_at (codes "behavior") stmt == codes "DROP_CASCADE"
          then report (codes "DROP with CASCADE")
              (codes "Avoid CASCADE — drop dependent objects explicitly to maintain traceability")
          else [],
    )
    ∷ [])

abbrev object_name : Json → Text
object_name o = dotted (items_at (codes "items") (get (codes "List") (some o)))

abbrev pub ban_drop_table : LintRule
ban_drop_table = stateless (codes "ban-drop-table") none (
    (
      codes "DropStmt",
      λ stmt ctx.
          if text_at (codes "removeType") stmt == codes "OBJECT_TABLE"
          then report
              (codes "DROP TABLE"
                ++ if_named (codes " \"")
                    (join_named (codes "\", \"")
                      (map object_name (items_at (codes "objects") stmt)))
                    (codes "\""))
              (codes
                "DROP TABLE is irreversible. Ensure the table is no longer referenced by application code before dropping")
          else [],
    )
    ∷ [])

abbrev pub require_drop_index_concurrently : LintRule
require_drop_index_concurrently = stateless (codes "require-drop-index-concurrently") none (
    (
      codes "DropStmt",
      λ stmt ctx.
          if not (text_at (codes "removeType") stmt == codes "OBJECT_INDEX")
          then []
          else if not (truthy (get (codes "concurrent") stmt))
          then report (codes "DROP INDEX without CONCURRENTLY")
              (codes "Use DROP INDEX CONCURRENTLY to avoid blocking writes")
          else [],
    )
    ∷ [])

abbrev pub ban_rename_column : LintRule
ban_rename_column = stateless (codes "ban-rename-column") none (
    (
      codes "RenameStmt",
      λ stmt ctx.
          if text_at (codes "renameType") stmt == codes "OBJECT_COLUMN"
          then report
              (codes "Renaming column "
                ++ in_quotes (shown (codes "subname") stmt)
                ++ codes " to "
                ++ in_quotes (shown (codes "newname") stmt)
                ++ codes " on "
                ++ in_quotes (relation_name stmt))
              (codes
                "Column renames break existing queries and application code. Consider adding a new column and deprecating the old one")
          else [],
    )
    ∷ [])

abbrev pub ban_rename_table : LintRule
ban_rename_table = stateless (codes "ban-rename-table") none (
    (
      codes "RenameStmt",
      λ stmt ctx.
          if text_at (codes "renameType") stmt == codes "OBJECT_TABLE"
          then report
              (codes "Renaming table "
                ++ in_quotes (relation_name stmt)
                ++ codes " to "
                ++ in_quotes (shown (codes "newname") stmt))
              (codes
                "Table renames break existing queries. Consider using a VIEW to alias the new name")
          else [],
    )
    ∷ [])

abbrev has_where : Value → Bool
has_where stmt = truthy (get (codes "whereClause") stmt)

abbrev pub ban_update_without_where : LintRule
ban_update_without_where = stateless (codes "ban-update-without-where") none (
    (
      codes "UpdateStmt",
      λ stmt ctx.
          if not (has_where stmt)
          then report
              (codes "UPDATE on "
                ++ in_quotes (relation_name stmt)
                ++ codes " without WHERE clause")
              (codes "Add a WHERE clause to limit affected rows")
          else [],
    )
    ∷ [])

abbrev pub ban_delete_without_where : LintRule
ban_delete_without_where = stateless (codes "ban-delete-without-where") none (
    (
      codes "DeleteStmt",
      λ stmt ctx.
          if not (has_where stmt)
          then report
              (codes "DELETE on "
                ++ in_quotes (relation_name stmt)
                ++ codes " without WHERE clause")
              (codes "Add a WHERE clause to limit affected rows")
          else [],
    )
    ∷ [])

abbrev pub ban_truncate : LintRule
ban_truncate = stateless (codes "ban-truncate") none (
    (
      codes "TruncateStmt",
      λ stmt ctx. report (codes "TRUNCATE is not allowed in migrations") (
          codes "Use DELETE with a WHERE clause, or manage data separately from schema migrations"),
    )
    ∷ [])
