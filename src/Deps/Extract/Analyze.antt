-- ===== src/Deps/Extract/Analyze.antt =====
-- src/deps.ts: what a text of SQL creates and references, and the analysis of one file.
use migraguard.Prelude.{
  ℕ, ◌+◌, Bool, false, not, Option, none, some, List, [], ◌∷◌, ◌++◌, ◌>>=◌, flat_map, if◌then◌else◌,
}
use migraguard.Prelude.Text.{Text, codes, ◌==◌}
use migraguard.Ast.{
  Json, Value, get, truthy, items_at, text_at, string_of, RawStatementEntry, PlPgSqlParse, parsed,
  rejected, SqlParser, parse_statements, statement_text,
}
use migraguard.Deps.Build.{view, function, ObjectRef}
use migraguard.Deps.Extract.Names.{push_named, push_range, qualified_name}
use migraguard.Deps.Extract.Ranges.{collect_range_vars_from_node}
use migraguard.Deps.Extract.Roles.{def_elem, arg_items}
use migraguard.Deps.Extract.Body.{collect_pl_pgsql_statements}

pub record SqlAnalysis : Type 0 where
  pub creates : List ObjectRef
  pub references : List ObjectRef
  pub unanalyzed_blocks : ℕ
  pub parse_failures : List Text

abbrev pub no_analysis : SqlAnalysis
no_analysis = record { creates = []; references = []; unanalyzed_blocks = 0; parse_failures = [] }

-- What two steps push, one after the other.
abbrev pub joined : SqlAnalysis → SqlAnalysis → SqlAnalysis
joined a b = record {
  creates = a.creates ++ b.creates;
  references = a.references ++ b.references;
  unanalyzed_blocks = a.unanalyzed_blocks + b.unanalyzed_blocks;
  parse_failures = a.parse_failures ++ b.parse_failures;
}

abbrev pub pushed : List ObjectRef → List ObjectRef → SqlAnalysis
pushed creates references = record {
  creates = creates;
  references = references;
  unanalyzed_blocks = 0;
  parse_failures = [];
}

-- a => collectRangeVarsFromNode(a, references)
abbrev ranges_in : Value → List ObjectRef
ranges_in none = []
ranges_in (some j) = collect_range_vars_from_node j

unfoldable pub extract_view_stmt : Value → SqlAnalysis
unfolding push_range collect_range_vars_from_node
extract_view_stmt node =
    let query = get (codes "query") node in
    pushed (push_range view (get (codes "view") node))
      (if truthy query then ranges_in query else [])

abbrev first_string : List Json → Option Text
first_string [] = none
first_string (j ∷ rest) = string_of (get (codes "sval") (get (codes "String") (some j)))

abbrev option_value : Value → Option Text
option_value def =
    elim (string_of (get (codes "sval") (get (codes "String") (get (codes "arg") def)))) [
      | some direct ↦ some direct
      | none ↦ first_string (arg_items def)
    ]

abbrev option_in : Text → List Json → Option Text
option_in name [] = none
option_in name (opt ∷ rest) =
    if text_at (codes "defname") (def_elem opt) == name
    then option_value (def_elem opt)
    else option_in name rest

unfoldable pub function_option : Value → Text → Option Text
function_option node name = option_in name (items_at (codes "options") node)

abbrev or_unnamed : Text → Text
or_unnamed name = if name == [] then codes "(unnamed)" else name

abbrev is_sql : Option Text → Bool
is_sql none = false
is_sql (some language) = language == codes "sql"

module _ (parser : SqlParser) where
  abbrev body_statements : Text → Option (List RawStatementEntry) → SqlAnalysis
  body_statements name none = record {
    creates = [];
    references = [];
    unanalyzed_blocks = 0;
    parse_failures =
        (codes "function " ++ or_unnamed name ++ codes ": LANGUAGE sql body does not parse") ∷ [];
  }
  body_statements name (some entries) = pushed [] (flat_map (λ e. ranges_in e.stmt) entries)

  abbrev body_analysis : Text → Option Text → SqlAnalysis
  body_analysis name none = no_analysis
  body_analysis name (some body) = body_statements name (parse_statements parser body)

  unfoldable pub extract_create_function_stmt : Value → SqlAnalysis
  unfolding qualified_name function_option collect_range_vars_from_node parse_statements
  extract_create_function_stmt node =
      let name = qualified_name (items_at (codes "funcname") node) in
      let sql_body = get (codes "sql_body") node in
      joined (pushed (push_named function name) []) (
        if truthy sql_body
        then pushed [] (ranges_in sql_body)
        else if not (is_sql (function_option node (codes "language")))
        then no_analysis
        else body_analysis name (function_option node (codes "as")))

  -- The recursion of `analyzeSql` is the argument `analyze`.
  module _ (analyze : Text → Option SqlAnalysis) where
    -- The loop over the statements of a DO block.
    abbrev pub analyze_inner : List Text → Option SqlAnalysis
    analyze_inner [] = some no_analysis
    analyze_inner (inner ∷ rest) = do a ← analyze inner; b ← analyze_inner rest; some (joined a b)

    abbrev pub do_analysis : PlPgSqlParse → Option SqlAnalysis
    do_analysis (rejected reason) = some (record {
      creates = [];
      references = [];
      unanalyzed_blocks = 0;
      parse_failures = (codes "DO block: " ++ reason) ∷ [];
    })
    do_analysis (parsed tree) = do
      a ← analyze_inner (collect_pl_pgsql_statements tree).statements
      some (record {
        creates = a.creates;
        references = a.references;
        unanalyzed_blocks = (collect_pl_pgsql_statements tree).dynamic + a.unanalyzed_blocks;
        parse_failures = a.parse_failures;
      })

    unfoldable pub extract_do_stmt : Text → RawStatementEntry → Option SqlAnalysis
    unfolding statement_text collect_pl_pgsql_statements
    extract_do_stmt sql e = do_analysis (parser.parse_pl_pgsql (statement_text parser sql e))
