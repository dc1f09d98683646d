-- ===== src/Lint/Rules/Views.antt =====
-- src/rules: the rules on indexes, views and what is created again.
use migraguard.Prelude.{Bool, not, ◌&&◌, none, some, [], ◌∷◌, ◌++◌, any, if◌then◌else◌}
use migraguard.Prelude.Text.{Text, codes, ◌==◌}
use migraguard.Prelude.Maps.{has}
use migraguard.Ast.{Json, Value, get, has_field, truthy, items_at, text_at}
use migraguard.Lint.Engine.{LintRule}
use migraguard.Lint.Rules.Parts.{report, stateless, named_or, relation_name, in_quotes}

abbrev pub require_concurrent_index : LintRule
require_concurrent_index = stateless (codes "require-concurrent-index") none (
    (
      codes "IndexStmt",
      λ stmt ctx.
          if not (truthy (get (codes "concurrent") stmt))
            && not (has ctx.created_tables (relation_name stmt))
          then report
              (codes "CREATE INDEX on "
                ++ in_quotes (relation_name stmt)
                ++ codes " without CONCURRENTLY")
              (codes "Use CREATE INDEX CONCURRENTLY to avoid blocking writes")
          else [],
    )
    ∷ [])

abbrev pub ban_concurrent_index_in_transaction : LintRule
ban_concurrent_index_in_transaction = stateless (codes "ban-concurrent-index-in-transaction") none (
    (
      codes "IndexStmt",
      λ stmt ctx.
          if truthy (get (codes "concurrent") stmt) && ctx.in_transaction
          then report (codes "CREATE INDEX CONCURRENTLY inside a transaction")
              (codes "Remove BEGIN/COMMIT — CONCURRENTLY cannot run inside a transaction block")
          else [],
    )
    ∷ [])

abbrev pub require_if_not_exists : LintRule
require_if_not_exists = stateless (codes "require-if-not-exists") none (
    (
      codes "CreateStmt",
      λ stmt ctx.
          if not (truthy (get (codes "if_not_exists") stmt))
          then report
              (codes "CREATE TABLE " ++ relation_name stmt ++ codes " without IF NOT EXISTS")
              (codes "Use CREATE TABLE IF NOT EXISTS for idempotent migrations")
          else [],
    )
    ∷ (
      codes "IndexStmt",
      λ stmt ctx.
          if not (truthy (get (codes "if_not_exists") stmt))
          then report (codes "CREATE INDEX without IF NOT EXISTS")
              (codes "Use CREATE INDEX ... IF NOT EXISTS for idempotent migrations")
          else [],
    )
    ∷ (
      codes "DropStmt",
      λ stmt ctx.
          if not (truthy (get (codes "missing_ok") stmt))
          then report (codes "DROP without IF EXISTS")
              (codes "Use DROP ... IF EXISTS for idempotent migrations")
          else [],
    )
    ∷ [])

abbrev pub require_create_or_replace_view : LintRule
require_create_or_replace_view = stateless (codes "require-create-or-replace-view") none (
    (
      codes "ViewStmt",
      λ stmt ctx.
          if not (truthy (get (codes "replace") stmt))
          then report
              (codes "CREATE VIEW "
                ++ named_or (codes "relname") [] (get (codes "view") stmt)
                ++ codes " without OR REPLACE")
              (codes "Use CREATE OR REPLACE VIEW for idempotent migrations")
          else [],
    )
    ∷ [])

abbrev is_materialized : Value → Bool
is_materialized stmt = text_at (codes "objtype") stmt == codes "OBJECT_MATVIEW"

abbrev view_name : Value → Text
view_name view = named_or (codes "relname") (codes "(unknown)") view

-- node.into?.rel
abbrev into_rel : Value → Value
into_rel stmt = get (codes "rel") (get (codes "into") stmt)

abbrev pub require_if_not_exists_materialized_view : LintRule
require_if_not_exists_materialized_view =
    stateless (codes "require-if-not-exists-materialized-view") none (
      (
        codes "CreateTableAsStmt",
        λ stmt ctx.
            if is_materialized stmt && not (truthy (get (codes "if_not_exists") stmt))
            then report
                (codes "CREATE MATERIALIZED VIEW "
                  ++ view_name (into_rel stmt)
                  ++ codes " without IF NOT EXISTS")
                (codes "Use CREATE MATERIALIZED VIEW IF NOT EXISTS for idempotent migrations")
            else [],
      )
      ∷ [])

abbrev is_star : Json → Bool
is_star item =
    let column =
      get (codes "ColumnRef") (get (codes "val") (get (codes "ResTarget") (some item))) in
    any (λ (f : Json). has_field (codes "A_Star") (some f)) (items_at (codes "fields") column)

-- hasStarInTargetList of the query's SELECT
abbrev pub has_star_in_target_list : Value → Bool
has_star_in_target_list query =
    any is_star (items_at (codes "targetList") (get (codes "SelectStmt") query))

abbrev pub ban_select_star_in_view : LintRule
ban_select_star_in_view = stateless (codes "ban-select-star-in-view") none (
    (
      codes "ViewStmt",
      λ stmt ctx.
          if has_star_in_target_list (get (codes "query") stmt)
          then report (codes "SELECT * in VIEW " ++ in_quotes (view_name (get (codes "view") stmt)))
              (codes
                "List columns explicitly — SELECT * breaks CREATE OR REPLACE VIEW when base table columns change")
          else [],
    )
    ∷ (
      codes "CreateTableAsStmt",
      λ stmt ctx.
          if is_materialized stmt && has_star_in_target_list (get (codes "query") stmt)
          then report
              (codes "SELECT * in MATERIALIZED VIEW " ++ in_quotes (view_name (into_rel stmt)))
              (codes "List columns explicitly — SELECT * makes schema evolution unpredictable")
          else [],
    )
    ∷ [])
