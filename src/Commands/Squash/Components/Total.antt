-- ===== src/Commands/Squash/Components/Total.antt =====
-- src/commands/squash.ts: the walks of `findConnectedComponents` end.
use migraguard.Prelude.{
  ℕ, zero, suc, ◌+◌, ◌≤◌, ◌≡◌, refl, ap, ◌∙◌, false, some, List, [], ◌∷◌, foldl, length, Bool-cases,
  List-cases, ◌<◌, inl, inr, arith,
}
use migraguard.Prelude.Text.{Text, eq_iff}
use migraguard.Prelude.Maps.{has, add, lookup, has-add}
use migraguard.Scanner.{MigrationFile}
use migraguard.Deps.{DependencyGraph, get_or_nil}
use migraguard.Commands.Squash.{SquashEnv, sorted_by_key}
use migraguard.Commands.Squash.Components.{
  Neighbors, Walk, push_unvisited, walk_round, walk?, unvisited_degree, components_from?,
  find_connected_components, neighbors_of, new_file_map,
}

length-pushed :
    (visited queue ns : List Text)
    → length (foldl (push_unvisited visited) queue ns) ≤ length queue + length ns
unfolding push_unvisited
length-pushed visited queue [] = omega arith
length-pushed visited queue (n ∷ ns) =
    ground (arith, length-pushed visited queue ns, length-pushed visited (n ∷ queue) ns)

unvisited_degree-add :
    (c : Text) (visited : List Text) (m : Neighbors)
    → unvisited_degree (add c visited) m ≤ unvisited_degree visited m
unfolding unvisited_degree
unvisited_degree-add c visited [] = omega arith
unvisited_degree-add c visited (e ∷ m) =
    ground (arith, unvisited_degree-add c visited m, has-add c visited e.0)

-- A visit takes the neighbors of the file from the count.
unvisited_degree-visit :
    (c : Text) (visited : List Text) (m : Neighbors)
    → has visited c ≡ false
    → length (get_or_nil c m) + unvisited_degree (add c visited) m ≤ unvisited_degree visited m
unfolding unvisited_degree lookup
unvisited_degree-visit c visited [] h = omega arith
unvisited_degree-visit c visited (e ∷ m) h = ground (
  arith,
  h,
  unvisited_degree-visit c visited m h,
  unvisited_degree-add c visited m,
  has-add c visited e.0,
  eq_iff e.0 c,
  eq_iff c e.0,
)

unvisited_degree-empty :
    (visited : List Text) (m : Neighbors) → unvisited_degree visited m ≤ unvisited_degree [] m
unfolding unvisited_degree has
unvisited_degree-empty visited [] = omega arith
unvisited_degree-empty visited (e ∷ m) = ground (arith, unvisited_degree-empty visited m)

module _ (neighbors : Neighbors) (files : List (Text × MigrationFile)) where
  abbrev work : Walk → ℕ
  work w = length w.queue + unvisited_degree w.visited neighbors

  work-round :
      (current : Text) (rest : List Text) (w : Walk)
      → suc (work (walk_round neighbors files current rest w))
        ≤ suc (length rest) + unvisited_degree w.visited neighbors
  unfolding walk_round
  work-round current rest w = elim (Bool-cases (has w.visited current)) [
    | inl seen ↦ ground (arith, seen)
    | inr new ↦ ground (
      arith,
      new,
      length-pushed (add current w.visited) rest (get_or_nil current neighbors),
      unvisited_degree-visit current w.visited neighbors new,
    )
  ]

  walk?-popped :
      (fuel : ℕ) (w : Walk) (current : Text) (rest : List Text)
      → w.queue ≡ current ∷ rest
      → walk? neighbors files (suc fuel) w
        ≡ walk? neighbors files fuel (walk_round neighbors files current rest w)
  unfolding walk?
  walk?-popped fuel w current rest q = ground (arith, q)

  walk_ends :
      (fuel : ℕ) (w : Walk)
      → work w < fuel
      → (end : Walk) × (walk? neighbors files fuel w ≡ some end)
  unfolding walk?
  walk_ends zero w h = absurd (omega arith)
  walk_ends (suc fuel) w h = elim (List-cases w.queue) [
    | inl empty ↦ (w, ground (arith, empty))
    | inr (current, rest, q) ↦
        let (end, ends) =
          walk_ends fuel (walk_round neighbors files current rest w)
            (omega (arith, ap length q, work-round current rest w)) in
        (end, walk?-popped fuel w current rest q ∙ ends)
  ]

module _ (env : SquashEnv) (neighbors : Neighbors) (files : List (Text × MigrationFile)) where
  components_from_total :
      (fs : List MigrationFile) (visited : List Text)
      → (cs : List (List MigrationFile)) × (components_from? env neighbors files fs visited
          ≡ some cs)
  unfolding components_from?
  components_from_total [] visited = ([], refl)
  components_from_total (f ∷ fs) visited = elim (Bool-cases (has visited f.file_name)) [
    | inl seen ↦
        let (cs, there) = components_from_total fs visited in (cs, ground (arith, seen, there))
    | inr new ↦
        let start : Walk = record { visited = visited; queue = f.file_name ∷ []; component = [] } in
        let (w, ends) =
          walk_ends neighbors files (suc (suc (unvisited_degree [] neighbors))) start
            (omega (arith, unvisited_degree-empty visited neighbors)) in
        let (cs, there) = components_from_total fs w.visited in
        (sorted_by_key env w.component ∷ cs, ground (arith, new, ends, there))
  ]

-- Every walk of findConnectedComponents ends within its fuel.
pub find_connected_components_total :
    (env : SquashEnv) (new_files : List MigrationFile) (graph : DependencyGraph)
    → (cs : List (List MigrationFile)) × (find_connected_components env new_files graph ≡ some cs)
unfolding find_connected_components
find_connected_components_total env new_files graph =
    components_from_total env (neighbors_of new_files graph.edges) (new_file_map new_files)
      new_files []
