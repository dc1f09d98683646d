-- ===== src/Deps/Leaves.antt =====
-- `findLeafNodes`.
use migraguard.Prelude.{
  ◌≡◌, refl, Bool, not, ◌&&◌, ◌||◌, List, [], ◌∷◌, foldl, keep, any, arith, Bool-cases, inl, inr,
  ap,
}
use migraguard.Prelude.Text.{Text, ◌==◌, eq_sound}
use migraguard.Prelude.Maps.{has, add, has-add}
use migraguard.Deps.{DependencyEdge, DependencyGraph, find_leaf_nodes}

-- Some edge leads to the file.
abbrev pub depended_on : List DependencyEdge → Text → Bool
depended_on es f = any (λ e. e.to == f) es

has-foldl-add :
    (seen : List Text) (es : List DependencyEdge) (f : Text)
    → has (foldl (λ (s : List Text) (e : DependencyEdge). add e.to s) seen es) f
      ≡ (has seen f || depended_on es f)
has-foldl-add seen [] f = ground arith
has-foldl-add seen (e ∷ es) f =
    ground (arith, has-foldl-add (add e.to seen) es f, has-add e.to seen f)

pub has-keep : (p : Text → Bool) (xs : List Text) (k : Text) → has (keep p xs) k ≡ (has xs k && p k)
unfolding has
has-keep p [] k = refl
has-keep p (x ∷ xs) k = elim (Bool-cases (x == k)) [
  | inl same ↦ ground (arith, has-keep p xs k, ap p (eq_sound x k same))
  | inr other ↦ ground (arith, has-keep p xs k)
]

-- The leaves are the files of the graph to which no edge leads.
pub has-find_leaf_nodes :
    (g : DependencyGraph) (f : Text)
    → has (find_leaf_nodes g) f ≡ (has g.files f && not (depended_on g.edges f))
unfolding find_leaf_nodes has
has-find_leaf_nodes g f = ground (
  arith,
  has-keep
      (λ x. not (has (foldl (λ (s : List Text) (e : DependencyEdge). add e.to s) [] g.edges) x))
      g.files f,
  has-foldl-add [] g.edges f,
)
