-- ===== src/Deps.antt =====
-- src/deps.ts: the dependency graph of the migration files.
pub mod Adjacency
pub mod Leaves
pub mod Dependents
pub mod Topological
pub mod Build
pub mod Cycles
pub mod Explicit
pub mod Extract
use migraguard.Prelude.{
  Bool, true, false, ◌&&◌, Option, none, some, List, [], ◌∷◌, ◌++◌, foldl, keep, any, not, map,
  if◌then◌else◌,
}
use migraguard.Prelude.Text.{Text, ◌==◌}
use migraguard.Prelude.Maps.{has, add, lookup, insert}

pub record DependencyEdge : Type 0 where
  pub from : Text
  pub to : Text
  pub via : Text

pub record DependencyGraph : Type 0 where
  pub files : List Text
  pub edges : List DependencyEdge

-- An edge leads from `f` to `t`: `f` depends on `t`.
abbrev pub has_edge : List DependencyEdge → Text → Text → Bool
has_edge es f t = any (λ e. (e.from == f) && (e.to == t)) es

abbrev pub start_entry : List (Text × List Text) → Text → List (Text × List Text)
start_entry m f = insert f [] m

-- map.get(key)?.push(value)
abbrev pub push_to : Text → Text → List (Text × List Text) → List (Text × List Text)
push_to key value m = elim (lookup key m) [ none ↦ m | some vs ↦ insert key (vs ++ value ∷ []) m ]

-- The map from each file to the files with an edge to it, as `topologicalSort` and
-- `findTransitiveDependents` build it (`adjacency`, `childrenOf`).
unfoldable pub children_of : DependencyGraph → List (Text × List Text)
children_of g = foldl (λ m e. push_to e.to e.from m) (foldl start_entry [] g.files) g.edges

-- map.get(key) ?? []
abbrev pub get_or_nil : Text → List (Text × List Text) → List Text
get_or_nil key m = elim (lookup key m) [ none ↦ [] | some vs ↦ vs ]

unfoldable pub find_leaf_nodes : DependencyGraph → List Text
find_leaf_nodes g =
    let depended_on = foldl (λ (seen : List Text) (e : DependencyEdge). add e.to seen) [] g.edges in
    keep (λ f. not (has depended_on f)) g.files
