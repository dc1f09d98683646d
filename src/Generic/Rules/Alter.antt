-- ===== src/Generic/Rules/Alter.antt =====
-- src/generic/rules: the rules on ALTER TABLE and on created tables, indexes and views.
use migraguard.Prelude.{
  Bool, true, false, not, ◌&&◌, ◌||◌, none, some, List, [], ◌∷◌, ◌++◌, any, flat_map, if◌then◌else◌,
}
use migraguard.Prelude.Text.{Text, codes, ◌==◌}
use migraguard.Ast.{Json, null, string, Value, get, truthy, items_at, text_at}
use migraguard.Lint.Visitors.{RuleReport}
use migraguard.Lint.Rules.Parts.{CheckOf, report, stateless, named_or, in_quotes}
use migraguard.Generic.Parser.{first_table}
use migraguard.Generic.Engine.{GenericRuleContext, GenericLintRule}

abbrev pub GenericCheck : Type 0
GenericCheck = CheckOf GenericRuleContext

abbrev unknown : Text
unknown = codes "(unknown)"

-- tables?.[0]?.table ?? '(unknown)'
abbrev pub first_table_name : Value → Text
first_table_name stmt = named_or (codes "table") unknown (first_table stmt)

-- expr.column?.column ?? '(unknown)', and the same of `old_column`
abbrev column_at : Text → Json → Text
column_at key expr = named_or (codes "column") unknown (get key (some expr))

abbrev pub is_action : Text → Text → Json → Bool
is_action action resource expr =
    (text_at (codes "action") (some expr) == action)
    && (text_at (codes "resource") (some expr) == resource)

-- A rule on each expression of an ALTER TABLE; the first argument is the statement.
abbrev on_exprs : Text → (Value → Json → List RuleReport) → GenericLintRule
on_exprs id check =
    stateless id none
      ((codes "alter", λ stmt ctx. flat_map (check stmt) (items_at (codes "expr") stmt)) ∷ [])

-- x !== undefined && x !== null
abbrev pub is_there : Value → Bool
is_there none = false
is_there (some null) = false
is_there (some j) = true

abbrev pub generic_adding_not_nullable_field : GenericLintRule
generic_adding_not_nullable_field = on_exprs (codes "adding-not-nullable-field") (λ stmt expr.
    if is_action (codes "add") (codes "column") expr
      && (text_at (codes "type") (get (codes "nullable") (some expr)) == codes "not null")
      && not (is_there (get (codes "default_val") (some expr)))
    then report
        (codes "Adding NOT NULL column "
          ++ in_quotes (column_at (codes "column") expr)
          ++ codes " without DEFAULT")
        (codes
          "Add a DEFAULT value or add the column as nullable first, then backfill, then set NOT NULL")
    else [])

abbrev pub generic_ban_alter_column_type : GenericLintRule
generic_ban_alter_column_type = on_exprs (codes "ban-alter-column-type") (λ stmt expr.
    if text_at (codes "action") (some expr) == codes "modify"
    then report
        (codes "ALTER COLUMN TYPE on "
          ++ in_quotes (first_table_name stmt)
          ++ codes "."
          ++ column_at (codes "column") expr)
        (codes
          "Type changes may rewrite the table. Use add-column → backfill → swap → drop-column instead")
    else [])

abbrev pub generic_ban_drop_column : GenericLintRule
generic_ban_drop_column = on_exprs (codes "ban-drop-column") (λ stmt expr.
    if is_action (codes "drop") (codes "column") expr
    then report
        (codes "DROP COLUMN "
          ++ in_quotes (column_at (codes "column") expr)
          ++ codes " on "
          ++ in_quotes (first_table_name stmt))
        (codes
          "DROP COLUMN is irreversible. Consider deprecating the column first, then dropping in a later migration")
    else [])

abbrev pub generic_ban_rename_column : GenericLintRule
generic_ban_rename_column = on_exprs (codes "ban-rename-column") (λ stmt expr.
    if is_action (codes "rename") (codes "column") expr
    then report
        (codes "Renaming column "
          ++ in_quotes (column_at (codes "old_column") expr)
          ++ codes " to "
          ++ in_quotes (column_at (codes "column") expr)
          ++ codes " on "
          ++ in_quotes (first_table_name stmt))
        (codes
          "Column renames break existing queries and application code. Consider adding a new column and deprecating the old one")
    else [])

abbrev pub generic_ban_rename_table : GenericLintRule
generic_ban_rename_table = on_exprs (codes "ban-rename-table") (λ stmt expr.
    if is_action (codes "rename") (codes "table") expr
    then report
        (codes "Renaming table "
          ++ in_quotes (first_table_name stmt)
          ++ codes " to "
          ++ in_quotes (named_or (codes "table") unknown (some expr)))
        (codes "Table renames break existing queries. Consider using a VIEW to alias the new name")
    else [])

abbrev is_star_column : Json → Bool
is_star_column col = text_at (codes "column") (get (codes "expr") (some col)) == codes "*"

abbrev pub has_select_star : Value → Bool
has_select_star select = any is_star_column (items_at (codes "columns") select)

abbrev pub generic_ban_select_star_in_view : GenericLintRule
generic_ban_select_star_in_view = stateless (codes "ban-select-star-in-view") none (
    (
      codes "create_view",
      λ stmt ctx.
          if has_select_star (get (codes "select") stmt)
          then report
              (codes "SELECT * in VIEW "
                ++ in_quotes (named_or (codes "view") unknown (get (codes "view") stmt)))
              (codes
                "List columns explicitly — SELECT * breaks migrations when base table columns change")
          else [],
    )
    ∷ [])

abbrev pub generic_require_create_or_replace_view : GenericLintRule
generic_require_create_or_replace_view = stateless (codes "require-create-or-replace-view") none (
    (
      codes "create_view",
      λ stmt ctx.
          if truthy (get (codes "replace") stmt) || truthy (get (codes "if_not_exists") stmt)
          then []
          else report
              (codes "CREATE VIEW "
                ++ named_or (codes "view") [] (get (codes "view") stmt)
                ++ codes " without OR REPLACE / IF NOT EXISTS")
              (codes
                "Use CREATE OR REPLACE VIEW (MySQL) or CREATE VIEW IF NOT EXISTS (SQLite) for idempotent migrations"),
    )
    ∷ [])

-- The index is a name or an object with one.
abbrev name_or_field : Value → Text
name_or_field (some (string s)) = s
name_or_field index = named_or (codes "name") [] index

abbrev pub index_name : Value → Text
index_name stmt = name_or_field (get (codes "index") stmt)

abbrev lacks_if_not_exists : Value → Bool
lacks_if_not_exists stmt = not (truthy (get (codes "if_not_exists") stmt))

abbrev pub generic_require_if_not_exists : GenericLintRule
generic_require_if_not_exists = stateless (codes "require-if-not-exists") none (
    (
      codes "create_table",
      λ stmt ctx.
          if lacks_if_not_exists stmt
          then report
              (codes "CREATE TABLE " ++ first_table_name stmt ++ codes " without IF NOT EXISTS")
              (codes "Use CREATE TABLE IF NOT EXISTS for idempotent migrations")
          else [],
    )
    ∷ (
      codes "create_index",
      λ stmt ctx.
          if lacks_if_not_exists stmt
          then report (codes "CREATE INDEX " ++ index_name stmt ++ codes " without IF NOT EXISTS")
              (codes "Use CREATE INDEX IF NOT EXISTS for idempotent migrations")
          else [],
    )
    ∷ (
      codes "drop",
      λ stmt ctx.
          if not (truthy (get (codes "prefix") stmt))
          then report (codes "DROP without IF EXISTS")
              (codes "Use DROP ... IF EXISTS for idempotent migrations")
          else [],
    )
    ∷ [])
