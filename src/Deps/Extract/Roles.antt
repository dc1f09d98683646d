-- ===== src/Deps/Extract/Roles.antt =====
-- src/deps.ts: schemas, privileges and roles.
use migraguard.Prelude.{Bool, not, Option, none, some, List, [], ◌∷◌, ◌++◌, flat_map, if◌then◌else◌}
use migraguard.Prelude.Text.{Text, codes, ◌==◌}
use migraguard.Prelude.Maps.{has}
use migraguard.Ast.{Json, Value, get, has_field, truthy, items_of, items_at, text_at}
use migraguard.Deps.Build.{
  ObjectType, table, sequence, function, type, schema, database, role, ObjectRef,
}
use migraguard.Deps.Extract.Names.{push_named, push_range, qualified_name, string_value}

-- A wrapped RoleSpec or a bare one.
unfoldable pub push_role_ref : Value → List ObjectRef
push_role_ref node =
    let spec = if has_field (codes "RoleSpec") node then get (codes "RoleSpec") node else node in
    if text_at (codes "roletype") spec == codes "ROLESPEC_CSTRING"
    then push_named role (text_at (codes "rolename") spec)
    else []

unfoldable pub push_role_refs : List Json → List ObjectRef
unfolding push_role_ref
push_role_refs nodes = flat_map (λ node. push_role_ref (some node)) nodes

unfoldable pub push_schema_ref : Json → List ObjectRef
push_schema_ref obj = push_named schema (string_value obj)

-- GRANT_OBJECT_TYPES
abbrev pub grant_object_type : Text → Option ObjectType
grant_object_type kind =
    if kind == codes "OBJECT_TABLE"
    then some table
    else if kind == codes "OBJECT_SEQUENCE"
    then some sequence
    else if kind == codes "OBJECT_FUNCTION"
    then some function
    else if kind == codes "OBJECT_PROCEDURE"
    then some function
    else if kind == codes "OBJECT_ROUTINE"
    then some function
    else if kind == codes "OBJECT_TYPE"
    then some type
    else if kind == codes "OBJECT_DOMAIN"
    then some type
    else if kind == codes "OBJECT_SCHEMA"
    then some schema
    else if kind == codes "OBJECT_DATABASE"
    then some database
    else none

-- a ?? b
abbrev value_or : Value → Value → Value
value_or none b = b
value_or (some a) b = some a

unfoldable pub push_grant_object_ref : ObjectType → Json → List ObjectRef
unfolding push_range qualified_name
push_grant_object_ref object_type obj =
    let rel = get (codes "RangeVar") (some obj) in
    let objname = get (codes "objname") (get (codes "ObjectWithArgs") (some obj)) in
    let items = get (codes "items") (get (codes "List") (some obj)) in
    let name = qualified_name (items_of (value_or objname items)) in
    if not (text_at (codes "relname") rel == [])
    then push_range object_type rel
    else push_named object_type (if name == [] then string_value obj else name)

abbrev grant_target : Bool → ObjectType → Json → List ObjectRef
grant_target all_in_schema object_type obj =
    if all_in_schema then push_schema_ref obj else push_grant_object_ref object_type obj

abbrev grant_targets : Option ObjectType → Value → List ObjectRef
grant_targets none grant = []
grant_targets (some object_type) grant =
    flat_map
      (grant_target (text_at (codes "targtype") grant == codes "ACL_TARGET_ALL_IN_SCHEMA")
        object_type)
      (items_at (codes "objects") grant)

unfoldable pub extract_grant_stmt : Value → List ObjectRef
unfolding push_grant_object_ref push_schema_ref push_role_refs
extract_grant_stmt node =
    grant_targets (grant_object_type (text_at (codes "objtype") node)) node
    ++ push_role_refs (items_at (codes "grantees") node)

-- opt.DefElem
abbrev pub def_elem : Json → Value
def_elem opt = get (codes "DefElem") (some opt)

-- def.arg?.List?.items
abbrev pub arg_items : Value → List Json
arg_items def = items_at (codes "items") (get (codes "List") (get (codes "arg") def))

abbrev default_privilege : Json → List ObjectRef
default_privilege opt =
    let name = text_at (codes "defname") (def_elem opt) in
    if name == codes "schemas"
    then flat_map push_schema_ref (arg_items (def_elem opt))
    else if name == codes "roles"
    then push_role_refs (arg_items (def_elem opt))
    else []

unfoldable pub extract_alter_default_privileges_stmt : Value → List ObjectRef
unfolding extract_grant_stmt
extract_alter_default_privileges_stmt node =
    let action = get (codes "action") node in
    flat_map default_privilege (items_at (codes "options") node)
    ++ (if truthy action then extract_grant_stmt action else [])

-- ROLE_MEMBER_OPTIONS
abbrev role_member_options : List Text
role_member_options = codes "addroleto" ∷ codes "rolemembers" ∷ codes "adminmembers" ∷ []

abbrev role_members : Json → List ObjectRef
role_members opt =
    if has role_member_options (text_at (codes "defname") (def_elem opt))
    then push_role_refs (arg_items (def_elem opt))
    else []

unfoldable pub extract_role_member_options : Value → List ObjectRef
unfolding has push_role_refs
extract_role_member_options options = flat_map role_members (items_of options)

abbrev granted_role : Json → List ObjectRef
granted_role g = push_named role (text_at (codes "priv_name") (get (codes "AccessPriv") (some g)))

unfoldable pub extract_grant_role_stmt : Value → List ObjectRef
unfolding push_role_refs
extract_grant_role_stmt node =
    flat_map granted_role (items_at (codes "granted_roles") node)
    ++ push_role_refs (items_at (codes "grantee_roles") node)
