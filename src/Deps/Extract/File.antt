-- ===== src/Deps/Extract/File.antt =====
-- src/deps.ts: the analysis of one file, and what the graph is built from.
use migraguard.Prelude.{some, List, [], ◌∷◌}
use migraguard.Prelude.Text.{Text}
use migraguard.Scanner.{MigrationFile}
use migraguard.Ast.{Json, string, array, object, Fields, end, entry, Value, list_of, SqlParser}
use migraguard.Generic.Parser.{Dialect, postgresql, other, GenericParser}
use migraguard.Generic.Deps.{analyze_generic_sql}
use migraguard.Deps.Build.{FileDeps, BuildEnv, build_dependency_graph_from_files}
use migraguard.Deps.Explicit.{parse_explicit_deps_from_sql}
use migraguard.Deps.Extract.Sql.{analyze_sql}
use migraguard.Deps.{DependencyGraph}

-- The files and their texts, `config.dialect` and `config.dependencies`, and the parsers.
pub record AnalysisEnv : Type 0 where
  pub files : List MigrationFile
  pub read_file : MigrationFile → Text
  pub dialect : Dialect
  pub dependencies : Value
  pub parser : SqlParser
  pub astify : GenericParser

abbrev analyze_text : AnalysisEnv → Dialect → Text → FileDeps
analyze_text env postgresql sql =
    let a = analyze_sql env.parser sql in record { creates = a.creates; references = a.references }
analyze_text env (other dialect) sql =
    let a = analyze_generic_sql env.astify sql dialect in
    record { creates = a.creates; references = a.references }

unfoldable pub analyze_file : AnalysisEnv → MigrationFile → FileDeps
unfolding analyze_sql analyze_generic_sql
analyze_file env f = analyze_text env env.dialect (env.read_file f)

-- xs.filter((d) => typeof d === 'string')
abbrev strings_in : List Json → List Text
strings_in [] = []
strings_in (string s ∷ js) = s ∷ strings_in js
strings_in (j ∷ js) = strings_in js

-- The entries that are arrays, of an object whose keys are distinct.
abbrev configured : Fields → List (Text × List Text)
configured end = []
configured (entry file (array items) rest) = (file, strings_in (list_of items)) ∷ configured rest
configured (entry file j rest) = configured rest

unfoldable pub parse_explicit_deps_from_config : Value → List (Text × List Text)
unfolding list_of
parse_explicit_deps_from_config (some (object fields)) = configured fields
parse_explicit_deps_from_config _ = []

-- What `buildDependencyGraphFromFiles` calls.
unfoldable pub build_env : AnalysisEnv → BuildEnv
unfolding analyze_file parse_explicit_deps_from_sql parse_explicit_deps_from_config
build_env env = record {
  files = env.files;
  analyze_file = analyze_file env;
  explicit_deps = λ f. parse_explicit_deps_from_sql (env.read_file f);
  config_deps = parse_explicit_deps_from_config env.dependencies;
}

unfoldable pub build_dependency_graph : AnalysisEnv → DependencyGraph
unfolding build_env build_dependency_graph_from_files
build_dependency_graph env = build_dependency_graph_from_files (build_env env)
