-- ===== src/Generic/Deps.antt =====
-- src/generic/deps.ts: the objects that a text of another dialect creates and references.
use migraguard.Prelude.{
  Bool, not, ◌&&◌, Option, none, some, List, [], ◌∷◌, ◌++◌, keep, flat_map, if◌then◌else◌,
}
use migraguard.Prelude.Text.{Text, codes, ◌==◌}
use migraguard.Prelude.Maps.{has}
use migraguard.Ast.{Json, null, Value, get, truthy, items_at, text_at}
use migraguard.Deps.Build.{ObjectType, table, view, index, ObjectRef}
use migraguard.Deps.Extract.Names.{push_named}
use migraguard.Generic.Parser.{GenericDialect, GenericParser, parse_generic, first_table}

pub record GenericAnalysis : Type 0 where
  pub creates : List ObjectRef
  pub references : List ObjectRef

-- The part of `createdTableNames` is the names of `tables`.
pub record Extracted : Type 0 where
  pub creates : List ObjectRef
  pub references : List ObjectRef
  pub tables : List Text

abbrev pub nothing_extracted : Extracted
nothing_extracted = record { creates = []; references = []; tables = [] }

abbrev pub references_only : List ObjectRef → Extracted
references_only refs = record { creates = []; references = refs; tables = [] }

-- What two statements push, one after the other.
abbrev pub both_extracted : Extracted → Extracted → Extracted
both_extracted a b = record {
  creates = a.creates ++ b.creates;
  references = a.references ++ b.references;
  tables = a.tables ++ b.tables;
}

unfoldable pub table_name : Value → Text
table_name t =
    let name = text_at (codes "table") t in
    let db = text_at (codes "db") t in
    if name == [] then [] else if not (db == []) then db ++ codes "." ++ name else name

-- a ?? b
abbrev definition_or : Value → Value → Value
definition_or none b = b
definition_or (some null) b = b
definition_or (some a) b = some a

unfoldable pub extract_fk_ref : Value → List ObjectRef
unfolding table_name
extract_fk_ref def =
    let ref_def = definition_or (get (codes "reference_definition") def) def in
    push_named table (table_name (first_table ref_def))

unfoldable pub extract_column_fk : Value → List ObjectRef
unfolding extract_fk_ref
extract_column_fk col_def =
    let ref_def = get (codes "reference_definition") col_def in
    if truthy ref_def then extract_fk_ref ref_def else []

abbrev definition_refs : Json → List ObjectRef
definition_refs def =
    (if text_at (codes "resource") (some def) == codes "column"
      then extract_column_fk (some def)
      else [])
    ++ (if text_at (codes "constraint_type") (some def) == codes "FOREIGN KEY"
        then extract_fk_ref (some def)
        else [])

unfoldable pub extract_create_table : Value → Extracted
unfolding extract_column_fk
extract_create_table stmt =
    let name = table_name (first_table stmt) in
    if name == [] then nothing_extracted else record {
      creates = push_named table name;
      references = flat_map definition_refs (items_at (codes "create_definitions") stmt);
      tables = name ∷ [];
    }

unfoldable pub extract_create_index : Value → List ObjectRef
unfolding table_name
extract_create_index stmt = push_named table (table_name (get (codes "table") stmt))

-- expr.action === 'add' && expr.resource === kind
abbrev adds : Text → Json → Bool
adds kind expr =
    (text_at (codes "action") (some expr) == codes "add")
    && (text_at (codes "resource") (some expr) == kind)

abbrev alter_refs : Json → List ObjectRef
alter_refs expr =
    let create_defs = get (codes "create_definitions") (some expr) in
    (if adds (codes "constraint") expr && truthy create_defs
      then extract_fk_ref create_defs
      else [])
    ++ (if adds (codes "column") expr then extract_column_fk (some expr) else [])

unfoldable pub extract_alter : Value → List ObjectRef
unfolding extract_column_fk
extract_alter stmt =
    push_named table (table_name (first_table stmt))
    ++ flat_map alter_refs (items_at (codes "expr") stmt)

-- Of undefined there are no items, so the test for it needs no branch.
unfoldable pub collect_from_tables : Value → List ObjectRef
collect_from_tables node =
    flat_map (λ e. push_named table (text_at (codes "table") (some e)))
      (items_at (codes "from") node)

unfoldable pub extract_create_view : Value → Extracted
unfolding collect_from_tables
extract_create_view stmt = record {
  creates = push_named view (text_at (codes "view") (get (codes "view") stmt));
  references = collect_from_tables (get (codes "select") stmt);
  tables = [];
}

abbrev drop_refs : ObjectType → Value → List ObjectRef
drop_refs kind stmt =
    flat_map (λ e. push_named kind (table_name (some e))) (items_at (codes "name") stmt)

unfoldable pub extract_drop : Value → List ObjectRef
unfolding table_name
extract_drop stmt =
    let keyword = text_at (codes "keyword") stmt in
    if keyword == codes "table"
    then drop_refs table stmt
    else if keyword == codes "view"
    then drop_refs view stmt
    else if keyword == codes "index"
    then drop_refs index stmt
    else []

unfoldable pub extract_generic : Json → Extracted
unfolding extract_create_table extract_create_index extract_alter extract_create_view extract_drop
extract_generic j =
    let stmt = some j in
    let kind = text_at (codes "type") stmt in
    let keyword = text_at (codes "keyword") stmt in
    if (kind == codes "create") && (keyword == codes "table")
    then extract_create_table stmt
    else if (kind == codes "create") && (keyword == codes "index")
    then references_only (extract_create_index stmt)
    else if kind == codes "alter"
    then references_only (extract_alter stmt)
    else if (kind == codes "create") && (keyword == codes "view")
    then extract_create_view stmt
    else if kind == codes "drop"
    then references_only (extract_drop stmt)
    else nothing_extracted

abbrev pub extract_all : List Json → Extracted
extract_all [] = nothing_extracted
extract_all (stmt ∷ stmts) = both_extracted (extract_generic stmt) (extract_all stmts)

abbrev pub analyze_statements : Option (List Json) → GenericAnalysis
analyze_statements none = record { creates = []; references = [] }
analyze_statements (some stmts) =
    let e = extract_all stmts in
    record {
      creates = e.creates;
      references = keep (λ ref. not (has e.tables ref.name)) e.references;
    }

unfoldable pub analyze_generic_sql : GenericParser → Text → GenericDialect → GenericAnalysis
unfolding parse_generic extract_generic
analyze_generic_sql astify sql dialect = analyze_statements (parse_generic astify dialect sql)
