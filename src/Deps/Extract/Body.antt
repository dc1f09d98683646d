-- ===== src/Deps/Extract/Body.antt =====
-- src/deps.ts: the SQL that the body of a DO block carries as text.
use migraguard.Prelude.{ℕ, ◌+◌, some, List, [], ◌∷◌, ◌++◌, if◌then◌else◌}
use migraguard.Prelude.Text.{Text, codes, ◌==◌}
use migraguard.Ast.{
  Json, null, boolean, number, string, array, object, Items, empty, item, Fields, end, entry,
  field_at, has_field, text_at,
}

pub record PlPgSqlBody : Type 0 where
  pub statements : List Text
  pub dynamic : ℕ

abbrev nothing : PlPgSqlBody
nothing = record { statements = []; dynamic = 0 }

-- What two visits push, one after the other.
abbrev pub both : PlPgSqlBody → PlPgSqlBody → PlPgSqlBody
both a b = record { statements = a.statements ++ b.statements; dynamic = a.dynamic + b.dynamic }

-- The text of the expression that an object holds.
abbrev query_of : Fields → PlPgSqlBody
query_of fields =
    let query = text_at (codes "query") (field_at (codes "PLpgSQL_expr") fields) in
    record { statements = if query == [] then [] else query ∷ []; dynamic = 0 }

-- What the function adds to `out`.
unfoldable mutual
  pub collect_pl_pgsql_statements : Json → PlPgSqlBody
  collect_pl_pgsql_statements (object fields) =
      let inner = collect_body_fields fields in
      if has_field (codes "PLpgSQL_stmt_dynexecute") (some (object fields))
      then record { statements = []; dynamic = 1 }
      else both (query_of fields) inner
  collect_pl_pgsql_statements (array items) = collect_body_items items
  collect_pl_pgsql_statements null = nothing
  collect_pl_pgsql_statements (boolean b) = nothing
  collect_pl_pgsql_statements (number n) = nothing
  collect_pl_pgsql_statements (string s) = nothing

  pub collect_body_items : Items → PlPgSqlBody
  collect_body_items empty = nothing
  collect_body_items (item j rest) = both (collect_pl_pgsql_statements j) (collect_body_items rest)

  pub collect_body_fields : Fields → PlPgSqlBody
  collect_body_fields end = nothing
  collect_body_fields (entry key j rest) =
      both (collect_pl_pgsql_statements j) (collect_body_fields rest)
