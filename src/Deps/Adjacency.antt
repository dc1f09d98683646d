-- ===== src/Deps/Adjacency.antt =====
-- What the map of children holds, and when one file is a child of another.
use mathlib.Core.List.{append_assoc, append-nil}
use migraguard.Prelude.{
  ◌≡◌, refl, sym, ◌∙◌, ap, Bool, ◌&&◌, Option, none, some, List, [], ◌∷◌, ◌++◌, foldl, arith,
  if◌then◌else◌, Option-cases, inl, inr,
}
use migraguard.Prelude.Text.{Text, ◌==◌, eq_iff}
use migraguard.Prelude.Maps.{has, lookup, insert, lookup-insert}
use migraguard.Deps.{
  DependencyEdge, DependencyGraph, has_edge, start_entry, push_to, children_of, get_or_nil,
}

-- The files with an edge to `t`, one for each edge.
abbrev pub sources : Text → List DependencyEdge → List Text
sources t [] = []
sources t (e ∷ es) = if e.to == t then e.from ∷ sources t es else sources t es

pub lookup-start :
    (m : List (Text × List Text)) (fs : List Text) (k : Text)
    → lookup k (foldl start_entry m fs) ≡ (if has fs k then some [] else lookup k m)
unfolding has
lookup-start m [] k = refl
lookup-start m (f ∷ fs) k =
    ground (arith, lookup-start (insert f [] m) fs k, lookup-insert f k [] m)

abbrev pub append_to : List Text → Option (List Text) → Option (List Text)
append_to vs none = none
append_to vs (some us) = some (us ++ vs)

pub lookup-push_to :
    (key value k : Text) (m : List (Text × List Text))
    → lookup k (push_to key value m)
      ≡ (if key == k then append_to (value ∷ []) (lookup k m) else lookup k m)
lookup-push_to key value k m = elim (Option-cases (lookup key m)) [
  | inl e ↦ ground (arith, eq_iff key k)
  | inr (us, e) ↦ ground (arith, eq_iff key k, lookup-insert key k (us ++ value ∷ []) m)
]

pub append_to-append_to :
    (us vs : List Text) (o : Option (List Text))
    → append_to vs (append_to us o) ≡ append_to (us ++ vs) o
append_to-append_to us vs none = refl
append_to-append_to us vs (some ws) = ap some (append_assoc ws us vs)

pub append_to-nil : (o : Option (List Text)) → append_to [] o ≡ o
append_to-nil none = refl
append_to-nil (some ws) = ap some (append-nil ws)

lookup-push_all :
    (m : List (Text × List Text)) (es : List DependencyEdge) (k : Text)
    → lookup k (foldl (λ m e. push_to e.to e.from m) m es) ≡ append_to (sources k es) (lookup k m)
lookup-push_all m [] k = sym (append_to-nil (lookup k m))
lookup-push_all m (e ∷ es) k =
    lookup-push_all (push_to e.to e.from m) es k
    ∙ ground (
      arith,
      lookup-push_to e.to e.from k m,
      append_to-append_to (e.from ∷ []) (sources k es) (lookup k m),
    )

-- The children of a file of the graph are the starts of the edges to it.
pub get_or_nil-children_of :
    (g : DependencyGraph) (t : Text)
    → get_or_nil t (children_of g) ≡ (if has g.files t then sources t g.edges else [])
unfolding children_of lookup
get_or_nil-children_of g t =
    ground
      (arith, lookup-push_all (foldl start_entry [] g.files) g.edges t, lookup-start [] g.files t)

pub has-sources :
    (t : Text) (es : List DependencyEdge) (f : Text) → has (sources t es) f ≡ has_edge es f t
unfolding has
has-sources t [] f = refl
has-sources t (e ∷ es) f = ground (arith, has-sources t es f)

-- `f` is found among the children of `t`.
abbrev pub child_of : DependencyGraph → Text → Text → Bool
child_of g f t = has g.files t && has_edge g.edges f t

pub has-children_of :
    (g : DependencyGraph) (f t : Text) → has (get_or_nil t (children_of g)) f ≡ child_of g f t
unfolding has
has-children_of g f t = rw (get_or_nil-children_of g t) (ground (arith, has-sources t g.edges f))
