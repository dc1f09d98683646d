-- ===== src/Generic/Parser.antt =====
-- src/generic: the parser of the other dialects, and how its trees are read.
use migraguard.Prelude.{Option, none, some, List, [], ◌∷◌}
use migraguard.Prelude.Text.{Text, codes}
use migraguard.Ast.{Json, array, item, Value, get, list_of}

pub data GenericDialect : Type 0 where
  mysql sqlite : GenericDialect

-- config.dialect
pub data Dialect : Type 0 where
  postgresql : Dialect
  other : GenericDialect → Dialect

-- `astify` of node-sql-parser for a database, which throws (`none`) on what it cannot parse.
abbrev pub GenericParser : Type 0
GenericParser = Text → Text → Option Json

abbrev pub to_parser_database : GenericDialect → Text
to_parser_database mysql = codes "MySQL"
to_parser_database sqlite = codes "SQLite"

-- Array.isArray(ast) ? ast : [ast]
abbrev statements_of : Json → List Json
statements_of (array items) = list_of items
statements_of ast = ast ∷ []

abbrev of_parse : Option Json → Option (List Json)
of_parse none = none
of_parse (some ast) = some (statements_of ast)

unfoldable pub parse_generic : GenericParser → GenericDialect → Text → Option (List Json)
unfolding list_of
parse_generic astify dialect sql = of_parse (astify (to_parser_database dialect) sql)

-- x?.[0]
abbrev pub first_of : Value → Value
first_of (some (array (item j rest))) = some j
first_of _ = none

-- stmt.table?.[0]
abbrev pub first_table : Value → Value
first_table stmt = first_of (get (codes "table") stmt)
