-- ===== src/Deps/Cycles.antt =====
-- src/deps.ts: `detectCycles`, a depth-first search in three colors.
pub mod Adjacent
pub mod Search
pub mod Body
pub mod Grays
pub mod Total
pub mod Correct
use migraguard.Prelude.{
  ℕ, zero, suc, ◌+◌, Bool, true, false, not, Option, none, some, List, [], ◌∷◌, ◌++◌, ◌>>=◌, foldl,
  length, if◌then◌else◌,
}
use migraguard.Prelude.Text.{Text, ◌==◌}
use migraguard.Prelude.Maps.{lookup, insert}
use migraguard.Deps.{DependencyEdge, DependencyGraph, start_entry, push_to, get_or_nil}

pub data Color : Type 0 where
  white gray black : Color

-- The map from each file to the files to which its edges lead.
unfoldable pub adjacency : DependencyGraph → List (Text × List Text)
adjacency g = foldl (λ m e. push_to e.from e.to m) (foldl start_entry [] g.files) g.edges

-- `color` and `cycles`
pub record Dfs : Type 0 where
  pub color : List (Text × Color)
  pub cycles : List (List Text)

abbrev pub paint : Text → Color → Dfs → Dfs
paint node c s = record { color = insert node c s.color; cycles = s.cycles }

-- path.slice(path.indexOf(node)), for a node of the path
abbrev pub slice_from : Text → List Text → List Text
slice_from node [] = []
slice_from node (x ∷ path) = if x == node then x ∷ path else slice_from node path

abbrev pub push_cycle : Text → List Text → Dfs → Dfs
push_cycle neighbor path s = record {
  color = s.color;
  cycles = s.cycles ++ (slice_from neighbor path ++ neighbor ∷ []) ∷ [];
}

module _ (g : DependencyGraph) where
  abbrev pub neighbors : Text → List Text
  neighbors node = get_or_nil node (adjacency g)

  -- The recursion of `dfs` is the argument `dfs`; the path is what it was when a call returns.
  module _ (dfs : Text → List Text → Dfs → Option Dfs) where
    abbrev pub by_color : Option Color → Text → List Text → Dfs → Option Dfs
    by_color (some gray) neighbor path s = some (push_cycle neighbor path s)
    by_color (some white) neighbor path s = dfs neighbor path s
    by_color _ neighbor path s = some s

    -- The loop over the neighbors.
    abbrev pub visit_neighbors : List Text → List Text → Dfs → Option Dfs
    visit_neighbors [] path s = some s
    visit_neighbors (n ∷ ns) path s = do
      s' ← by_color (lookup n s.color) n path s
      visit_neighbors ns path s'

    unfoldable pub dfs_body : Text → List Text → Dfs → Option Dfs
    unfolding adjacency
    dfs_body node path s = do
      s' ← visit_neighbors (neighbors node) (path ++ node ∷ []) (paint node gray s)
      some (paint node black s')

    abbrev pub by_start_color : Option Color → Text → Dfs → Option Dfs
    by_start_color (some white) file s = dfs file [] s
    by_start_color _ file s = some s

    -- The loop over the files.
    abbrev pub visit_files : List Text → Dfs → Option Dfs
    visit_files [] s = some s
    visit_files (f ∷ fs) s = do s' ← by_start_color (lookup f s.color) f s; visit_files fs s'

  -- The fuel bounds the length of the path.
  unfoldable pub dfs? : (fuel : ℕ) → Text → List Text → Dfs → Option Dfs
  unfolding dfs_body
  dfs? zero node path s = none
  dfs? (suc n) node path s = dfs_body (dfs? n) node path s

  abbrev pub start_dfs : Dfs
  start_dfs = record { color = foldl (λ m f. insert f white m) [] g.files; cycles = [] }

  unfoldable pub final_dfs? : Option Dfs
  unfolding dfs?
  final_dfs? = visit_files (dfs? (suc (length g.files))) g.files start_dfs

abbrev pub cycles_of : Option Dfs → List (List Text)
cycles_of none = []
cycles_of (some s) = s.cycles

unfoldable pub detect_cycles : DependencyGraph → List (List Text)
unfolding final_dfs?
detect_cycles g = cycles_of (final_dfs? g)
