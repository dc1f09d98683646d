-- ===== src/Deps/Dependents.antt =====
-- `findTransitiveDependents`: all files from which edges lead to a file.
pub mod Correct
use migraguard.Prelude.{
  ℕ, zero, suc, Bool, true, false, Option, none, some, List, [], ◌∷◌, ◌++◌, foldl, length,
  if◌then◌else◌,
}
use migraguard.Prelude.Text.{Text}
use migraguard.Prelude.Maps.{has, add}
use migraguard.Deps.{DependencyGraph, children_of, get_or_nil}

-- The loop's variables. `queue` is the source's array with its end first, since it pops there.
pub record Search : Type 0 where
  pub result : List Text
  pub queue : List Text

-- if (!result.has(child)) { result.add(child); queue.push(child); }
unfoldable pub offer : Search → Text → Search
offer s child =
    if has s.result child
    then s
    else record { result = add child s.result; queue = child ∷ s.queue }

module _ (g : DependencyGraph) where
  -- One round, after `current` was popped and `rest` is left.
  unfoldable pub expand_node : Text → List Text → Search → Search
  expand_node current rest s =
      foldl offer (record s { queue = rest }) (get_or_nil current (children_of g))

  unfoldable pub search_loop : ℕ → Search → Option (List Text)
  search_loop zero s = none
  search_loop (suc fuel) s = elim s.queue [
    | [] ↦ some s.result
    | current ∷ rest ↦ search_loop fuel (expand_node current rest s)
  ]

  -- Every round pops one entry, and each entry but the first is the start of an edge that is new in
  -- `result`: two rounds more than there are edges are enough.
  unfoldable pub transitive_dependents? : Text → Option (List Text)
  transitive_dependents? file =
      search_loop (suc (suc (length g.edges))) (record { result = []; queue = file ∷ [] })

  unfoldable pub find_transitive_dependents : Text → List Text
  find_transitive_dependents file = elim (transitive_dependents? file) [
    | none ↦ []
    | some result ↦ result
  ]
