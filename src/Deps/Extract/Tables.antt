-- ===== src/Deps/Extract/Tables.antt =====
-- src/deps.ts: what CREATE TABLE, CREATE INDEX, ALTER TABLE and DROP name.
use migraguard.Prelude.{some, List, [], ◌++◌, flat_map, if◌then◌else◌}
use migraguard.Prelude.Text.{Text, codes, ◌==◌}
use migraguard.Ast.{Json, Value, get, truthy, items_at, text_at}
use migraguard.Deps.Build.{ObjectType, table, view, index, sequence, function, type, ObjectRef}
use migraguard.Deps.Extract.Names.{push_named, push_range, qualified_name}
use migraguard.Deps.Extract.Roles.{push_role_ref}

unfoldable pub extract_constraint_ref : Value → List ObjectRef
unfolding push_range
extract_constraint_ref constraint =
    if text_at (codes "contype") constraint == codes "CONSTR_FOREIGN"
    then push_range table (get (codes "pktable") constraint)
    else []

-- if (c.Constraint) extractConstraintRef(c.Constraint)
abbrev constraint_in : Value → List ObjectRef
constraint_in c =
    let constraint = get (codes "Constraint") c in
    if truthy constraint then extract_constraint_ref constraint else []

unfoldable pub extract_column_def_constraints : Value → List ObjectRef
unfolding extract_constraint_ref
extract_column_def_constraints col_def =
    flat_map (λ c. constraint_in (some c)) (items_at (codes "constraints") col_def)

-- if (elt.ColumnDef) extractColumnDefConstraints(elt.ColumnDef)
abbrev column_in : Value → List ObjectRef
column_in elt =
    let col_def = get (codes "ColumnDef") elt in
    if truthy col_def then extract_column_def_constraints col_def else []

-- What the statement creates, and what it references.
unfoldable pub created_table : Value → List ObjectRef
created_table node = push_range table (get (codes "relation") node)

unfoldable pub extract_create_stmt : Value → List ObjectRef
unfolding extract_column_def_constraints
extract_create_stmt node =
    if text_at (codes "relname") (get (codes "relation") node) == []
    then []
    else flat_map (λ elt. column_in (some elt) ++ constraint_in (some elt))
        (items_at (codes "tableElts") node)

unfoldable pub extract_index_stmt : Value → List ObjectRef
extract_index_stmt node = push_range table (get (codes "relation") node)

unfoldable pub extract_alter_cmd : Json → List ObjectRef
unfolding extract_column_def_constraints push_role_ref
extract_alter_cmd cmd =
    let alter_cmd = get (codes "AlterTableCmd") (some cmd) in
    let def = get (codes "def") alter_cmd in
    push_role_ref (get (codes "newowner") alter_cmd) ++ constraint_in def ++ column_in def

unfoldable pub extract_alter_table_stmt : Value → List ObjectRef
unfolding extract_alter_cmd
extract_alter_table_stmt node =
    push_range table (get (codes "relation") node)
    ++ flat_map extract_alter_cmd (items_at (codes "cmds") node)

abbrev removed_type : Text → ObjectType
removed_type remove_type =
    if remove_type == codes "OBJECT_TABLE"
    then table
    else if remove_type == codes "OBJECT_VIEW"
    then view
    else if remove_type == codes "OBJECT_INDEX"
    then index
    else if remove_type == codes "OBJECT_SEQUENCE"
    then sequence
    else if remove_type == codes "OBJECT_FUNCTION"
    then function
    else if remove_type == codes "OBJECT_TYPE"
    then type
    else table

unfoldable pub extract_drop_stmt : Value → List ObjectRef
unfolding qualified_name
extract_drop_stmt node =
    let object_type = removed_type (text_at (codes "removeType") node) in
    flat_map
      (λ obj.
        push_named object_type
          (qualified_name (items_at (codes "items") (get (codes "List") (some obj)))))
      (items_at (codes "objects") node)
