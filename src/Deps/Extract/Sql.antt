-- ===== src/Deps/Extract/Sql.antt =====
-- src/deps.ts: the statements of a text of SQL, and the objects that they create and reference.
pub mod Total
use migraguard.Prelude.{
  ℕ, zero, suc, Bool, true, false, not, Option, none, some, List, [], ◌∷◌, ◌++◌, ◌>>=◌, map, keep,
  length, if◌then◌else◌,
}
use migraguard.Prelude.Text.{Text, codes}
use migraguard.Prelude.Maps.{has}
use migraguard.Ast.{
  Value, get, has_field, text_at, RawStatementEntry, SqlParser, parse_statements, items_at,
}
use migraguard.Deps.Build.{schema, role, ObjectRef, object_key}
use migraguard.Deps.Extract.Names.{push_named}
use migraguard.Deps.Extract.Roles.{
  push_role_ref, push_role_refs, extract_grant_stmt, extract_alter_default_privileges_stmt,
  extract_role_member_options, extract_grant_role_stmt,
}
use migraguard.Deps.Extract.Tables.{
  created_table, extract_create_stmt, extract_index_stmt, extract_alter_table_stmt,
  extract_drop_stmt,
}
use migraguard.Deps.Extract.Analyze.{
  SqlAnalysis, no_analysis, joined, pushed, extract_view_stmt, extract_create_function_stmt,
  extract_do_stmt,
}

unfoldable pub extract_create_schema_stmt : Value → SqlAnalysis
unfolding push_role_ref
extract_create_schema_stmt node =
    pushed (push_named schema (text_at (codes "schemaname") node))
      (push_role_ref (get (codes "authrole") node))

unfoldable pub extract_create_role_stmt : Value → SqlAnalysis
unfolding extract_role_member_options
extract_create_role_stmt node =
    pushed (push_named role (text_at (codes "role") node))
      (extract_role_member_options (get (codes "options") node))

-- The references to objects that the text does not create itself.
unfoldable pub outside : SqlAnalysis → SqlAnalysis
outside a =
    let created_keys = map object_key a.creates in
    record {
      creates = a.creates;
      references = keep (λ ref. not (has created_keys (object_key ref))) a.references;
      unanalyzed_blocks = a.unanalyzed_blocks;
      parse_failures = a.parse_failures;
    }

module _ (parser : SqlParser) where
  -- The statements that are no DO block; `none` for another one.
  unfoldable pub extract_plain : Value → Option SqlAnalysis
  unfolding created_table extract_create_stmt extract_index_stmt extract_alter_table_stmt
      extract_view_stmt extract_drop_stmt extract_create_function_stmt extract_create_schema_stmt
      extract_grant_stmt extract_grant_role_stmt extract_alter_default_privileges_stmt
      extract_create_role_stmt extract_role_member_options push_role_ref push_role_refs
  extract_plain s =
      let refs = λ (rs : List ObjectRef). some (pushed [] rs) in
      if has_field (codes "CreateStmt") s
      then some (
          pushed (created_table (get (codes "CreateStmt") s))
            (extract_create_stmt (get (codes "CreateStmt") s)))
      else if has_field (codes "IndexStmt") s
      then refs (extract_index_stmt (get (codes "IndexStmt") s))
      else if has_field (codes "AlterTableStmt") s
      then refs (extract_alter_table_stmt (get (codes "AlterTableStmt") s))
      else if has_field (codes "ViewStmt") s
      then some (extract_view_stmt (get (codes "ViewStmt") s))
      else if has_field (codes "DropStmt") s
      then refs (extract_drop_stmt (get (codes "DropStmt") s))
      else if has_field (codes "CreateFunctionStmt") s
      then some (extract_create_function_stmt parser (get (codes "CreateFunctionStmt") s))
      else if has_field (codes "CreateSchemaStmt") s
      then some (extract_create_schema_stmt (get (codes "CreateSchemaStmt") s))
      else if has_field (codes "GrantStmt") s
      then refs (extract_grant_stmt (get (codes "GrantStmt") s))
      else if has_field (codes "GrantRoleStmt") s
      then refs (extract_grant_role_stmt (get (codes "GrantRoleStmt") s))
      else if has_field (codes "AlterDefaultPrivilegesStmt") s
      then refs (extract_alter_default_privileges_stmt (get (codes "AlterDefaultPrivilegesStmt") s))
      else if has_field (codes "CreateRoleStmt") s
      then some (extract_create_role_stmt (get (codes "CreateRoleStmt") s))
      else if has_field (codes "AlterRoleStmt") s
      then refs (
          push_role_ref (get (codes "role") (get (codes "AlterRoleStmt") s))
          ++ extract_role_member_options (get (codes "options") (get (codes "AlterRoleStmt") s)))
      else if has_field (codes "AlterRoleSetStmt") s
      then refs (push_role_ref (get (codes "role") (get (codes "AlterRoleSetStmt") s)))
      else if has_field (codes "DropRoleStmt") s
      then refs (push_role_refs (items_at (codes "roles") (get (codes "DropRoleStmt") s)))
      else if has_field (codes "AlterOwnerStmt") s
      then refs (push_role_ref (get (codes "newowner") (get (codes "AlterOwnerStmt") s)))
      else none

  module _ (analyze : Text → Option SqlAnalysis) where
    abbrev pub or_do : Text → RawStatementEntry → Option SqlAnalysis → Option SqlAnalysis
    or_do sql e (some a) = some a
    or_do sql e none =
        if has_field (codes "DoStmt") e.stmt
        then extract_do_stmt parser analyze sql e
        else some no_analysis

    -- One round of the loop over the statements.
    unfoldable pub extract_statement : Text → RawStatementEntry → Option SqlAnalysis
    unfolding extract_plain extract_do_stmt
    extract_statement sql e = or_do sql e (extract_plain e.stmt)

    abbrev pub extract_statements : Text → List RawStatementEntry → Option SqlAnalysis
    extract_statements sql [] = some no_analysis
    extract_statements sql (e ∷ rest) = do
      a ← extract_statement sql e
      b ← extract_statements sql rest
      some (joined a b)

    abbrev pub analyze_entries : Text → Option (List RawStatementEntry) → Option SqlAnalysis
    analyze_entries sql none = some no_analysis
    analyze_entries sql (some entries) = do a ← extract_statements sql entries; some (outside a)

  -- The fuel bounds how deep DO blocks stand in each other.
  unfoldable pub analyze_sql? : (fuel : ℕ) (sql : Text) → Option SqlAnalysis
  unfolding extract_statement parse_statements outside
  analyze_sql? zero sql = none
  analyze_sql? (suc n) sql = analyze_entries (analyze_sql? n) sql (parse_statements parser sql)

  abbrev or_nothing : Option SqlAnalysis → SqlAnalysis
  or_nothing none = no_analysis
  or_nothing (some a) = a

  unfoldable pub analyze_sql : Text → SqlAnalysis
  unfolding analyze_sql?
  analyze_sql sql = or_nothing (analyze_sql? (suc (length sql)) sql)
