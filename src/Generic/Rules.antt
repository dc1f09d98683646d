-- ===== src/Generic/Rules.antt =====
-- src/generic/rules/index.ts: the rules in the order of ALL_GENERIC_RULES.
pub mod Alter
pub mod Drops
pub mod Phases
use migraguard.Prelude.{List, [], ◌∷◌}
use migraguard.Generic.Engine.{GenericLintRule}
use migraguard.Generic.Rules.Alter.{
  generic_adding_not_nullable_field, generic_ban_alter_column_type, generic_ban_drop_column,
  generic_ban_rename_column, generic_ban_rename_table, generic_ban_select_star_in_view,
  generic_require_create_or_replace_view, generic_require_if_not_exists,
}
use migraguard.Generic.Rules.Drops.{
  generic_ban_drop_cascade, generic_ban_drop_table, generic_ban_update_without_where,
  generic_ban_delete_without_where, generic_ban_truncate,
}
use migraguard.Generic.Rules.Phases.{
  generic_backfill_ban_ddl, generic_backfill_requires_where_clause,
  generic_contract_requires_allow_directive, generic_expand_requires_idempotent_pattern,
}

abbrev pub all_generic_rules : List GenericLintRule
all_generic_rules =
    generic_require_if_not_exists ∷ generic_ban_drop_column ∷ generic_ban_alter_column_type
    ∷ generic_ban_rename_column ∷ generic_ban_rename_table ∷ generic_ban_drop_table
    ∷ generic_ban_update_without_where ∷ generic_ban_delete_without_where ∷ generic_ban_truncate
    ∷ generic_adding_not_nullable_field ∷ generic_require_create_or_replace_view
    ∷ generic_ban_select_star_in_view ∷ generic_ban_drop_cascade
    ∷ generic_backfill_requires_where_clause ∷ generic_backfill_ban_ddl
    ∷ generic_contract_requires_allow_directive ∷ generic_expand_requires_idempotent_pattern ∷ []
