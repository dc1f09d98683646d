-- ===== src/Examples/Graphs.antt =====
-- A small dependency graph: c depends on b, b on a, and d on nothing.
use migraguard.Prelude.{ℕ, not, ◌&&◌, ◌≡◌, ◌↔◌, refl, true, some, List, [], ◌∷◌}
use migraguard.Prelude.Text.{Text, codes, ◌==◌, text_lt}
use migraguard.Prelude.Maps.{has, Distinct, lookup, insert}
use migraguard.Deps.{DependencyEdge, DependencyGraph, children_of, find_leaf_nodes}
use migraguard.Deps.Leaves.{depended_on, has-find_leaf_nodes}
use migraguard.Deps.Topological.{
  topological_sort, sorted_files?, sort_loop, start_sorting, take_node, in_degrees, ready, release,
  sort, insert_sorted,
}
use migraguard.Deps.Topological.Degrees.{AreEndpoints}
use migraguard.Deps.Topological.Rounds.{Respects}
use migraguard.Deps.Topological.Correct.{Descends, topological_sort_sound, sorted_files_total}
use migraguard.Deps.Topological.Acyclic.{topological_sort_complete}
use migraguard.Deps.Dependents.{transitive_dependents?, find_transitive_dependents}
use migraguard.Deps.Dependents.Correct.{Depends, direct, indirect, transitive_dependents_correct}

abbrev pub edge : Text → Text → DependencyEdge
edge f t = record { from = f; to = t; via = [] }

abbrev pub chain : DependencyGraph
chain = record {
  files = codes "a" ∷ codes "b" ∷ codes "c" ∷ codes "d" ∷ [];
  edges = edge (codes "b") (codes "a") ∷ edge (codes "c") (codes "b") ∷ [];
}

pub c-Depends_on_a : Depends chain (codes "a") (codes "c")
unfolding has ◌==◌
c-Depends_on_a = indirect (direct {f = codes "b"} refl) refl

transitive_dependents_correct_example :
    (result : List Text) × (transitive_dependents? chain (codes "a") ≡ some result)
    × (find_transitive_dependents chain (codes "a") ≡ result)
    × ((f : Text) → (has result f ≡ true) ↔ ∥ Depends chain (codes "a") f ∥₁)
transitive_dependents_correct_example = transitive_dependents_correct chain (codes "a")

has-find_leaf_nodes_example :
    has (find_leaf_nodes chain) (codes "c")
    ≡ (has chain.files (codes "c") && not (depended_on chain.edges (codes "c")))
has-find_leaf_nodes_example = has-find_leaf_nodes chain (codes "c")

abbrev in_order : List Text
in_order = codes "a" ∷ codes "b" ∷ codes "c" ∷ codes "d" ∷ []

pub chain-AreEndpoints : AreEndpoints chain.files chain.edges
unfolding has ◌==◌
chain-AreEndpoints = (refl, (refl, tt))

chain-Distinct : Distinct chain.files
unfolding has ◌==◌
chain-Distinct = (refl, (refl, (refl, (refl, tt))))

chain_sorts : topological_sort chain ≡ some in_order
unfolding topological_sort sorted_files? sort_loop start_sorting take_node in_degrees ready release
    children_of sort insert_sorted text_lt lookup insert ◌==◌
chain_sorts = refl

topological_sort_sound_example :
    ((f : Text) → has in_order f ≡ has chain.files f)
    × Distinct in_order
    × Respects chain.edges [] in_order
topological_sort_sound_example =
    topological_sort_sound chain chain-AreEndpoints chain-Distinct in_order chain_sorts

sorted_files_total_example : (sorted : List Text) × (sorted_files? chain ≡ some sorted)
sorted_files_total_example = sorted_files_total chain chain-AreEndpoints chain-Distinct

topological_sort_complete_example :
    ((sorted : List Text) × (topological_sort chain ≡ some sorted))
    ↔ ((rank : Text → ℕ) × Descends rank chain.edges)
topological_sort_complete_example =
    topological_sort_complete chain chain-AreEndpoints chain-Distinct
