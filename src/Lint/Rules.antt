-- ===== src/Lint/Rules.antt =====
-- src/rules/index.ts: the rules in the order of ALL_RULES.
pub mod Parts
pub mod Alter
pub mod Drops
pub mod Phases
pub mod Servers
pub mod Views
pub mod Timeouts
pub mod Predicates
use migraguard.Prelude.{List, [], ◌∷◌}
use migraguard.Lint.Engine.{LintRule}
use migraguard.Lint.Rules.Alter.{
  adding_not_nullable_field, ban_alter_column_type, ban_drop_column, ban_set_not_null,
  constraint_missing_not_valid, require_pk_via_concurrent_index,
  require_unique_via_concurrent_index,
}
use migraguard.Lint.Rules.Drops.{
  ban_drop_cascade, ban_drop_table, require_drop_index_concurrently, ban_rename_column,
  ban_rename_table, ban_update_without_where, ban_delete_without_where, ban_truncate,
}
use migraguard.Lint.Rules.Phases.{
  backfill_ban_ddl, backfill_requires_where_clause, contract_requires_allow_directive,
  expand_requires_idempotent_pattern,
}
use migraguard.Lint.Rules.Servers.{
  ban_alter_enum_in_transaction, ban_alter_system, ban_bare_analyze, ban_cluster, ban_reindex,
  ban_refresh_materialized_view_in_migration, ban_set_session_replication_role, ban_vacuum_full,
}
use migraguard.Lint.Rules.Views.{
  require_concurrent_index, ban_concurrent_index_in_transaction, require_if_not_exists,
  require_create_or_replace_view, require_if_not_exists_materialized_view, ban_select_star_in_view,
}
use migraguard.Lint.Rules.Timeouts.{
  require_lock_timeout, require_statement_timeout, require_reset_timeouts,
  require_analyze_after_index, ban_validate_constraint_same_file,
}
use migraguard.Lint.Rules.Predicates.{ban_unstable_list_predicate}

abbrev pub all_rules : List LintRule
all_rules =
    require_concurrent_index ∷ require_if_not_exists ∷ require_lock_timeout
    ∷ ban_concurrent_index_in_transaction ∷ adding_not_nullable_field ∷ constraint_missing_not_valid
    ∷ require_analyze_after_index ∷ require_create_or_replace_view ∷ ban_drop_cascade
    ∷ require_statement_timeout ∷ require_reset_timeouts ∷ ban_truncate ∷ ban_update_without_where
    ∷ ban_delete_without_where ∷ ban_drop_column ∷ ban_alter_column_type
    ∷ require_drop_index_concurrently ∷ require_unique_via_concurrent_index
    ∷ ban_validate_constraint_same_file ∷ ban_bare_analyze ∷ require_if_not_exists_materialized_view
    ∷ ban_refresh_materialized_view_in_migration ∷ ban_select_star_in_view
    ∷ ban_unstable_list_predicate ∷ ban_rename_column ∷ ban_rename_table ∷ ban_drop_table
    ∷ require_pk_via_concurrent_index ∷ ban_set_not_null ∷ ban_alter_enum_in_transaction
    ∷ ban_vacuum_full ∷ ban_cluster ∷ ban_reindex ∷ ban_alter_system
    ∷ ban_set_session_replication_role ∷ expand_requires_idempotent_pattern
    ∷ backfill_requires_where_clause ∷ backfill_ban_ddl ∷ contract_requires_allow_directive ∷ []
