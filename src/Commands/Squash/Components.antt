-- ===== src/Commands/Squash/Components.antt =====
-- src/commands/squash.ts, `findConnectedComponents`: the new files that edges join_texts, in either direction.
pub mod Total
use migraguard.Prelude.{
  ℕ, zero, suc, ◌+◌, Bool, true, false, ◌&&◌, Option, none, some, List, [], ◌∷◌, ◌++◌, map, foldl,
  length, ◌>>=◌, if◌then◌else◌,
}
use migraguard.Prelude.Text.{Text}
use migraguard.Prelude.Maps.{has, add, lookup, insert}
use migraguard.Scanner.{MigrationFile}
use migraguard.Deps.{DependencyEdge, DependencyGraph, get_or_nil}
use migraguard.Commands.Squash.{SquashEnv, sorted_by_key}

abbrev pub Neighbors : Type 0
Neighbors = List (Text × List Text)

abbrev new_file_names : List MigrationFile → List Text
new_file_names fs = map (λ f. f.file_name) fs

-- neighbors.get(from)!.add(to)
abbrev add_neighbor : Text → Text → Neighbors → Neighbors
add_neighbor from to m = insert from (add to (get_or_nil from m)) m

abbrev link_files : List Text → Neighbors → DependencyEdge → Neighbors
link_files new_file_set m e =
    if has new_file_set e.from && has new_file_set e.to
    then add_neighbor e.to e.from (add_neighbor e.from e.to m)
    else m

unfoldable pub neighbors_of : List MigrationFile → List DependencyEdge → Neighbors
neighbors_of new_files edges =
    foldl (link_files (new_file_names new_files))
      (foldl (λ m f. insert f.file_name [] m) [] new_files) edges

-- new Map(newFiles.map((f) => [f.fileName, f]))
unfoldable pub new_file_map : List MigrationFile → List (Text × MigrationFile)
new_file_map new_files = foldl (λ m f. insert f.file_name f m) [] new_files

-- The variables of the two loops. `queue` is the source's array with its end first, since it pops there.
pub record Walk : Type 0 where
  pub visited : List Text
  pub queue : List Text
  pub component : List MigrationFile

-- if (!visited.has(neighbor)) queue.push(neighbor)
unfoldable pub push_unvisited : List Text → List Text → Text → List Text
push_unvisited visited queue neighbor = if has visited neighbor then queue else neighbor ∷ queue

abbrev with_file : List MigrationFile → Option MigrationFile → List MigrationFile
with_file component none = component
with_file component (some f) = component ++ f ∷ []

module _ (neighbors : Neighbors) (files : List (Text × MigrationFile)) where
  -- One round, after `current` was popped and `rest` is left.
  unfoldable pub walk_round : Text → List Text → Walk → Walk
  unfolding push_unvisited
  walk_round current rest w =
      let visited = add current w.visited in
      if has w.visited current then record w { queue = rest } else record {
        visited = visited;
        queue = foldl (push_unvisited visited) rest (get_or_nil current neighbors);
        component = with_file w.component (lookup current files);
      }

  unfoldable pub walk? : ℕ → Walk → Option Walk
  unfolding walk_round
  walk? zero w = none
  walk? (suc fuel) w = elim w.queue [
    | [] ↦ some w
    | current ∷ rest ↦ walk? fuel (walk_round current rest w)
  ]

-- The neighbors of the files that are not visited, counted.
unfoldable pub unvisited_degree : List Text → Neighbors → ℕ
unvisited_degree visited [] = 0
unvisited_degree visited (e ∷ m) =
    (if has visited e.0 then 0 else length e.1) + unvisited_degree visited m

module _ (env : SquashEnv) (neighbors : Neighbors) (files : List (Text × MigrationFile)) where
  -- Each file pushes its neighbors once, when it is visited: two rounds more than there are neighbors are
  -- enough for a walk.
  unfoldable pub components_from? :
      List MigrationFile → (visited : List Text) → Option (List (List MigrationFile))
  unfolding walk? unvisited_degree
  components_from? [] visited = some []
  components_from? (f ∷ fs) visited =
      if has visited f.file_name then components_from? fs visited else do
        w ←
            walk? neighbors files (suc (suc (unvisited_degree [] neighbors)))
              (record { visited = visited; queue = f.file_name ∷ []; component = [] })
        rest ← components_from? fs w.visited
        some (sorted_by_key env w.component ∷ rest)

unfoldable pub find_connected_components :
    SquashEnv → List MigrationFile → DependencyGraph → Option (List (List MigrationFile))
unfolding components_from? neighbors_of new_file_map
find_connected_components env new_files graph =
    components_from? env (neighbors_of new_files graph.edges) (new_file_map new_files) new_files []
