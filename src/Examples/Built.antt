-- ===== src/Examples/Built.antt =====
-- src/deps.ts: the graph of two files as it is built from their texts, and a cycle that is found.
use mathlib.Core.List.Memᴰ.{head, tail}
use migraguard.Prelude.{true, ℕ, ◌≡◌, ◌↔◌, refl, some, none, [], ◌∷◌, if◌then◌else◌}
use migraguard.Prelude.Text.{Text, codes, ◌==◌}
use migraguard.Prelude.Maps.{has, lookup, insert, add, Distinct}
use migraguard.Ast.{Json, array, empty, item, field_at, list_of, rejected}
use migraguard.Generic.Parser.{postgresql}
use migraguard.Deps.{DependencyGraph}
use migraguard.Deps.Topological.Correct.{Descends}
use migraguard.Deps.Build.{
  graph_files, build_dependency_graph_from_files, object_key, edge_key, table,
}
use migraguard.Deps.Build.Growth.{linked}
use migraguard.Deps.Build.References.{references_linked}
use migraguard.Deps.Cycles.{Dfs, detect_cycles, final_dfs?}
use migraguard.Deps.Cycles.Correct.{detect_cycles_correct}
use migraguard.Deps.Extract.File.{AnalysisEnv, build_env, build_dependency_graph}
use migraguard.Examples.ApplyRuns.{safe_file}
use migraguard.Examples.Graphs.{edge, chain, chain-AreEndpoints}
use migraguard.Examples.Statements.{one, range_named}

-- The text "a" creates the users, and each other text creates an index on them.
abbrev tree_of_text : Text → Json
tree_of_text sql =
    one (if sql == codes "a" then codes "CreateStmt" else codes "IndexStmt")
      (one (codes "relation") (range_named (codes "users")))

abbrev env : AnalysisEnv
env = record {
  files = safe_file (codes "a") ∷ safe_file (codes "b") ∷ [];
  read_file = λ f. f.file_name;
  dialect = postgresql;
  dependencies = none;
  parser = record {
    parse = λ sql.
        some (one (codes "stmts") (array (item (one (codes "stmt") (tree_of_text sql)) empty)));
    parse_pl_pgsql = λ sql. rejected (codes "no block");
    encode = λ s. s;
    decode = λ s. s;
  };
  astify = λ database sql. none;
}

built :
    (build_dependency_graph env).edges
    ≡ record { from = codes "b"; to = codes "a"; via = codes "users" } ∷ []
unfolding build_dependency_graph field_at list_of ◌==◌ has add lookup insert object_key
built = refl

two_files : Distinct (graph_files (build_env env))
unfolding build_env has ◌==◌
two_files = (refl, (refl, tt))

references_linked_example :
    linked
      (edge_key (codes "b") (codes "a"))
      (build_dependency_graph_from_files (build_env env)).edges
    ≡ true
unfolding build_env field_at list_of ◌==◌ has add lookup insert object_key
references_linked_example =
    references_linked (build_env env) (safe_file (codes "b"))
      (record { object_type = table; name = codes "users" }) [] (safe_file (codes "a"))
      (safe_file (codes "b") ∷ []) two_files (tail (head refl)) (head refl) refl refl (refl, tt)
      refl refl

-- a depends on b, and b on a.
abbrev circle : DependencyGraph
circle = record {
  files = codes "a" ∷ codes "b" ∷ [];
  edges = edge (codes "a") (codes "b") ∷ edge (codes "b") (codes "a") ∷ [];
}

circle_found : detect_cycles circle ≡ (codes "a" ∷ codes "b" ∷ codes "a" ∷ []) ∷ []
unfolding detect_cycles lookup insert ◌==◌
circle_found = refl

detect_cycles_correct_example :
    ((s : Dfs) × (final_dfs? chain ≡ some s))
    × ((detect_cycles chain ≡ []) ↔ ((rank : Text → ℕ) × Descends rank chain.edges))
detect_cycles_correct_example = detect_cycles_correct chain chain-AreEndpoints
