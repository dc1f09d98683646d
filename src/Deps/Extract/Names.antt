-- ===== src/Deps/Extract/Names.antt =====
-- src/deps.ts: the names of objects in the parse tree.
use migraguard.Prelude.{
  not, ◌&&◌, Option, none, some, List, [], ◌∷◌, ◌++◌, map, keep, length, get_last?, if◌then◌else◌,
  ltb,
}
use migraguard.Prelude.Text.{Text, codes, ◌==◌}
use migraguard.Ast.{Json, Value, get, text_at}
use migraguard.Deps.Build.{ObjectType, ObjectRef}

unfoldable pub normalize_table_name : Text → Text → Text
normalize_table_name name schema =
    if name == []
    then []
    else if not (schema == []) && not (schema == codes "public")
    then schema ++ codes "." ++ name
    else name

abbrev pub to_ref : ObjectType → Text → ObjectRef
to_ref t name = record { object_type = t; name = name }

-- if (name) references.push({ type: t, name })
abbrev pub push_named : ObjectType → Text → List ObjectRef
push_named t name = if name == [] then [] else to_ref t name ∷ []

-- The object that a RangeVar names, if it names one: what the callers of `normalizeTableName` push.
unfoldable pub push_range : ObjectType → Value → List ObjectRef
unfolding normalize_table_name
push_range t rel =
    let name = text_at (codes "relname") rel in
    if name == []
    then []
    else to_ref t (normalize_table_name name (text_at (codes "schemaname") rel)) ∷ []

-- names.join('.')
abbrev join_dots : List Text → Text
join_dots [] = []
join_dots (name ∷ []) = name
join_dots (name ∷ next ∷ rest) = name ++ codes "." ++ join_dots (next ∷ rest)

-- item.String?.sval
abbrev pub string_value : Json → Text
string_value j = text_at (codes "sval") (get (codes "String") (some j))

abbrev first_or_empty : List Text → Text
first_or_empty [] = []
first_or_empty (name ∷ names) = name

abbrev last_or_empty : Option Text → Text
last_or_empty none = []
last_or_empty (some name) = name

-- The empty text stands for undefined: no name that is there is empty.
unfoldable pub qualified_name : List Json → Text
qualified_name items =
    let names = keep (λ n. not (n == [])) (map string_value items) in
    if ltb 1 (length names) && not (first_or_empty names == codes "public")
    then join_dots names
    else last_or_empty (get_last? names)
