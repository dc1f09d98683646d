-- ===== src/Lint/Rules/Servers.antt =====
-- src/rules: the rules on transactions and on operations of the whole server.
use migraguard.Prelude.{
  Bool, true, false, not, ◌&&◌, none, some, List, [], ◌∷◌, ◌++◌, any, if◌then◌else◌,
}
use migraguard.Prelude.Text.{Text, codes, ◌==◌}
use migraguard.Ast.{Json, Value, get, truthy, items_at, text_at}
use migraguard.Lint.Engine.{LintRule}
use migraguard.Lint.Rules.Parts.{report, stateless, relation_name, if_named, dotted}

-- The names of the type, or '(unknown)' where the statement has none.
abbrev enum_type_name : Value → Text
enum_type_name stmt =
    if truthy (get (codes "typeName") stmt)
    then dotted (items_at (codes "typeName") stmt)
    else codes "(unknown)"

abbrev pub ban_alter_enum_in_transaction : LintRule
ban_alter_enum_in_transaction = stateless (codes "ban-alter-enum-in-transaction") none (
    (
      codes "AlterEnumStmt",
      λ stmt ctx.
          if not ctx.in_transaction
          then []
          else report
              (codes "ALTER TYPE \""
                ++ enum_type_name stmt
                ++ codes "\" ADD VALUE inside a transaction")
              (codes
                "ALTER TYPE ... ADD VALUE cannot be rolled back. Move it outside BEGIN...COMMIT"),
    )
    ∷ [])

abbrev pub ban_alter_system : LintRule
ban_alter_system = stateless (codes "ban-alter-system") none (
    (
      codes "AlterSystemStmt",
      λ stmt ctx. report (codes "ALTER SYSTEM in migration") (
          codes
            "ALTER SYSTEM writes to postgresql.auto.conf and affects the entire cluster. Manage server settings via configuration management, not migrations"),
    )
    ∷ [])

abbrev is_nil : List Json → Bool
is_nil [] = true
is_nil (j ∷ js) = false

abbrev pub ban_bare_analyze : LintRule
ban_bare_analyze = stateless (codes "ban-bare-analyze") none (
    (
      codes "VacuumStmt",
      λ stmt ctx.
          if is_nil (items_at (codes "rels") stmt)
          then report (codes "ANALYZE without table name") (
              codes
                "Specify the target table: ANALYZE <table>; — bare ANALYZE scans the entire database")
          else [],
    )
    ∷ [])

abbrev relname : Value → Text
relname stmt = text_at (codes "relname") (get (codes "relation") stmt)

abbrev pub ban_cluster : LintRule
ban_cluster = stateless (codes "ban-cluster") none (
    (
      codes "ClusterStmt",
      λ stmt ctx.
          report
            (codes "CLUSTER"
              ++ if_named (codes " on \"") (relname stmt) (codes "\"")
              ++ codes " in migration")
            (codes
              "CLUSTER rewrites the entire table under ACCESS EXCLUSIVE lock. Run it as a separate operational job, not in migrations"),
    )
    ∷ [])

abbrev pub ban_reindex : LintRule
ban_reindex = stateless (codes "ban-reindex") none (
    (
      codes "ReindexStmt",
      λ stmt ctx.
          report
            (codes "REINDEX"
              ++ if_named (codes " \"") (relname stmt) (codes "\"")
              ++ codes " in migration")
            (codes
              "REINDEX acquires ACCESS EXCLUSIVE (or SHARE lock for CONCURRENTLY). Run it as a separate operational job, not in migrations"),
    )
    ∷ [])

abbrev pub ban_refresh_materialized_view_in_migration : LintRule
ban_refresh_materialized_view_in_migration =
    stateless (codes "ban-refresh-materialized-view-in-migration") none (
      (
        codes "RefreshMatViewStmt",
        λ stmt ctx.
            report
              (codes "REFRESH MATERIALIZED VIEW " ++ relation_name stmt ++ codes " in migration")
              (codes
                "REFRESH is a heavy operation — run it as a separate job, not in schema migrations"),
      )
      ∷ [])

abbrev pub ban_set_session_replication_role : LintRule
ban_set_session_replication_role = stateless (codes "ban-set-session-replication-role") none (
    (
      codes "VariableSetStmt",
      λ stmt ctx.
          if text_at (codes "name") stmt == codes "session_replication_role"
          then report (codes "SET session_replication_role in migration") (
              codes
                "Changing session_replication_role disables triggers and foreign key enforcement. This can silently corrupt data integrity")
          else [],
    )
    ∷ [])

abbrev is_full : Json → Bool
is_full o = text_at (codes "defname") (get (codes "DefElem") (some o)) == codes "full"

abbrev pub ban_vacuum_full : LintRule
ban_vacuum_full = stateless (codes "ban-vacuum-full") none (
    (
      codes "VacuumStmt",
      λ stmt ctx.
          if truthy (get (codes "is_vacuumcmd") stmt)
            && any is_full (items_at (codes "options") stmt)
          then report (codes "VACUUM FULL in migration") (
              codes
                "VACUUM FULL rewrites the entire table under ACCESS EXCLUSIVE lock. Run it as a separate operational job, not in migrations")
          else [],
    )
    ∷ [])
