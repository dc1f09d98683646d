-- ===== src/Examples/Statements.antt =====
-- src/deps.ts: the objects in small parse trees, and dependencies in comments.
use mathlib.Core.List.{Memᴰ}
use mathlib.Core.Path.{subst}
use migraguard.Prelude.{
  ◌≡◌, refl, ap, sym, ◌∙◌, ◌↔◌, none, some, Option, List, [], ◌∷◌, ◌++◌, length, All, arith, ◌<◌,
}
use migraguard.Prelude.Text.{Text, codes, ◌==◌}
use migraguard.Prelude.Maps.{has}
use migraguard.Naming.{expand}
use migraguard.Ast.{
  Json, string, array, object, empty, item, end, entry, field_at, list_of, RawStatementEntry,
  PlPgSqlParse, parsed, rejected, SqlParser, parse_statements, statement_text,
}
use migraguard.Deps.Build.{table, ObjectRef, ExplicitDep, object_key}
use migraguard.Deps.Explicit.{parse_explicit_deps_from_sql}
use migraguard.Deps.Explicit.Written.{dep_lines, parse_explicit_deps-dep_lines}
use migraguard.Deps.Extract.Body.{collect_pl_pgsql_statements}
use migraguard.Deps.Extract.Names.{normalize_table_name, push_range}
use migraguard.Deps.Extract.Ranges.{push_range_var, collect_range_vars_from_node, Names}
use migraguard.Deps.Extract.Ranges.Found.{collected_ranges}
use migraguard.Deps.Extract.Sql.{analyze_sql?}
use migraguard.Deps.Extract.Sql.Total.{IsShorter}

-- { key: j }
abbrev pub one : Text → Json → Json
one key j = object (entry key j end)

abbrev pub range_named : Text → Json
range_named name = one (codes "relname") (string name)

abbrev users : ObjectRef
users = record { object_type = table; name = codes "users" }

-- INSERT INTO users SELECT … FROM app.orders
abbrev insert_tree : Json
insert_tree = one (codes "InsertStmt") (
    object (
      entry (codes "relation") (range_named (codes "users")) (
        entry (codes "selectStmt")
          (array (
            item
              (one (codes "RangeVar") (
                object (
                  entry (codes "schemaname") (string (codes "app"))
                    (entry (codes "relname") (string (codes "orders")) end))))
              empty))
          end)))

insert_tables :
    collect_range_vars_from_node insert_tree
    ≡ users ∷ record { object_type = table; name = codes "app.orders" } ∷ []
unfolding collect_range_vars_from_node push_range_var push_range normalize_table_name field_at has
    ◌==◌
insert_tables = refl

collected_ranges_example :
    Memᴰ users (collect_range_vars_from_node insert_tree) ↔ Names users insert_tree
collected_ranges_example = collected_ranges users insert_tree

-- A text is a DO block of all but its first character, and one of a single character creates
-- the users.
abbrev do_tree : Text → Json
do_tree (c ∷ d ∷ sql) = one (codes "DoStmt") (object end)
do_tree _ = one (codes "CreateStmt") (one (codes "relation") (range_named (codes "users")))

abbrev body_of : Text → PlPgSqlParse
body_of (c ∷ d ∷ sql) = parsed (one (codes "PLpgSQL_expr") (one (codes "query") (string (d ∷ sql))))
body_of _ = rejected (codes "no block")

abbrev pub nested : SqlParser
nested = record {
  parse = λ sql. some (one (codes "stmts") (array (item (one (codes "stmt") (do_tree sql)) empty)));
  parse_pl_pgsql = body_of;
  encode = λ s. s;
  decode = λ s. s;
}

abbrev nested_entry : Text → RawStatementEntry
nested_entry sql = record { stmt = some (do_tree sql); location = 0; byte_length = none }

nested_statements : (sql : Text) → parse_statements nested sql ≡ some (nested_entry sql ∷ [])
unfolding parse_statements field_at ◌==◌ list_of
nested_statements sql = refl

abbrev tree_of : PlPgSqlParse → Json
tree_of (parsed tree) = tree
tree_of (rejected reason) = string reason

abbrev entries_of : Option (List RawStatementEntry) → List RawStatementEntry
entries_of none = []
entries_of (some entries) = entries

abbrev AreShorter : Text → Json → Type 0
AreShorter sql tree =
    All (λ inner. length inner < length sql) (collect_pl_pgsql_statements tree).statements

body_of-AreShorter : (sql : Text) (tree : Json) → body_of sql ≡ parsed tree → AreShorter sql tree
unfolding collect_pl_pgsql_statements field_at ◌==◌
body_of-AreShorter [] tree h = cc
body_of-AreShorter (c ∷ []) tree h = cc
body_of-AreShorter (c ∷ d ∷ sql) tree h =
    subst (AreShorter (c ∷ d ∷ sql)) (ap tree_of h) (omega arith, tt)

nested-IsShorter : IsShorter nested
unfolding statement_text
nested-IsShorter sql entries h =
    subst
      (λ es.
        All
          (λ e.
            (tree : Json)
            → nested.parse_pl_pgsql (statement_text nested sql e) ≡ parsed tree
            → AreShorter sql tree)
          es)
      (ap entries_of (sym (nested_statements sql) ∙ h)) (body_of-AreShorter sql, tt)

nested_creates :
    analyze_sql? nested 3 (codes "ab")
    ≡ some (record {
      creates = users ∷ [];
      references = [];
      unanalyzed_blocks = 0;
      parse_failures = [];
    })
unfolding analyze_sql? field_at list_of ◌==◌ has object_key
nested_creates = refl

abbrev deps : List ExplicitDep
deps =
    record { target = codes "a/1.sql"; phase = none }
    ∷ record { target = codes "x:y"; phase = some expand }
    ∷ []

parse_explicit_deps-dep_lines_example :
    parse_explicit_deps_from_sql (dep_lines deps ++ codes "select 1;")
    ≡ deps ++ parse_explicit_deps_from_sql (codes "select 1;")
unfolding ◌==◌
parse_explicit_deps-dep_lines_example =
    parse_explicit_deps-dep_lines deps (codes "select 1;")
      ((refl, refl, refl), ((refl, refl, refl), tt))
