-- ===== src/Deps/Topological.antt =====
-- `topologicalSort`: Kahn's algorithm, with the queue sorted before each pop.
pub mod Queue
pub mod Degrees
pub mod Release
pub mod Rounds
pub mod Correct
pub mod Acyclic
use migraguard.Prelude.{
  ℕ, zero, suc, Bool, true, false, Option, none, some, List, [], ◌∷◌, ◌++◌, foldl, length, nat_eq,
  if◌then◌else◌,
}
use migraguard.Prelude.Text.{Text, text_lt}
use migraguard.Prelude.Maps.{lookup, insert}
use migraguard.Deps.{DependencyEdge, DependencyGraph, children_of, get_or_nil}

-- An in-degree: a number that the code lowers without a test. `below n` is -(n + 1).
pub data Degree : Type 0 where
  degree : ℕ → Degree
  below : ℕ → Degree

abbrev pub raise : Degree → Degree
raise (degree n) = degree (suc n)
raise (below zero) = degree 0
raise (below (suc n)) = below n

abbrev pub lower : Degree → Degree
lower (degree zero) = below 0
lower (degree (suc n)) = degree n
lower (below n) = below (suc n)

-- d === 0
abbrev pub is_zero : Degree → Bool
is_zero (degree zero) = true
is_zero (degree (suc n)) = false
is_zero (below n) = false

-- map.get(f) ?? d
abbrev pub degree_or : Degree → Option Degree → Degree
degree_or d none = d
degree_or d (some e) = e

-- queue.sort(): by code units
unfoldable pub insert_sorted : Text → List Text → List Text
insert_sorted x [] = x ∷ []
insert_sorted x (y ∷ ys) = if text_lt y x then y ∷ insert_sorted x ys else x ∷ y ∷ ys

unfoldable pub sort : List Text → List Text
unfolding insert_sorted
sort [] = []
sort (x ∷ xs) = insert_sorted x (sort xs)

abbrev pub count_edge : List (Text × Degree) → DependencyEdge → List (Text × Degree)
count_edge m e = insert e.from (raise (degree_or (degree 0) (lookup e.from m))) m

unfoldable pub in_degrees : DependencyGraph → List (Text × Degree)
in_degrees g = foldl count_edge (foldl (λ m f. insert f (degree 0) m) [] g.files) g.edges

-- The files of degree 0, in the map's order.
unfoldable pub ready : List (Text × Degree) → List Text
ready [] = []
ready ((f, d) ∷ m) = if is_zero d then f ∷ ready m else ready m

pub record Sorting : Type 0 where
  pub in_degree : List (Text × Degree)
  pub queue : List Text
  pub sorted : List Text

-- The body of the inner loop.
unfoldable pub release : Sorting → Text → Sorting
release s dependent =
    let new_degree = lower (degree_or (degree 1) (lookup dependent s.in_degree)) in
    record s {
      in_degree = insert dependent new_degree s.in_degree;
      queue = if is_zero new_degree then s.queue ++ dependent ∷ [] else s.queue;
    }

module _ (g : DependencyGraph) where
  -- One round, after the queue was sorted and `node` was shifted off it.
  unfoldable pub take_node : Text → List Text → Sorting → Sorting
  take_node node rest s =
      foldl release (record s { queue = rest; sorted = s.sorted ++ node ∷ [] })
        (get_or_nil node (children_of g))

  -- `none` means that the fuel ran out.
  unfoldable pub sort_loop : ℕ → Sorting → Option (List Text)
  sort_loop zero s = none
  sort_loop (suc fuel) s = elim (sort s.queue) [
    | [] ↦ some s.sorted
    | node ∷ rest ↦ sort_loop fuel (take_node node rest s)
  ]

  unfoldable pub start_sorting : Sorting
  start_sorting = record { in_degree = in_degrees g; queue = ready (in_degrees g); sorted = [] }

  -- Each file enters the queue at most once, so one round more than there are files is enough.
  unfoldable pub sorted_files? : Option (List Text)
  sorted_files? = sort_loop (suc (length g.files)) start_sorting

  unfoldable pub topological_sort : Option (List Text)
  topological_sort = elim sorted_files? [
    | none ↦ none
    | some sorted ↦ if nat_eq (length sorted) (length g.files) then some sorted else none
  ]
