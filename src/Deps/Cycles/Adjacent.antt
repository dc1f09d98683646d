-- ===== src/Deps/Cycles/Adjacent.antt =====
-- src/deps.ts: the neighbors of a file in `detectCycles`.
use migraguard.Prelude.{
  ◌≡◌, refl, sym, ◌∙◌, Bool, true, false, List, [], ◌∷◌, foldl, arith, if◌then◌else◌, All,
}
use migraguard.Prelude.Text.{Text, ◌==◌}
use migraguard.Prelude.Maps.{has, lookup}
use migraguard.Deps.{DependencyEdge, DependencyGraph, start_entry, push_to}
use migraguard.Deps.Adjacency.{
  append_to, lookup-start, lookup-push_to, append_to-append_to, append_to-nil,
}
use migraguard.Deps.Cycles.{adjacency, neighbors}

-- The files to which the edges from `f` lead, one for each edge.
abbrev pub targets : Text → List DependencyEdge → List Text
targets f [] = []
targets f (e ∷ es) = if e.from == f then e.to ∷ targets f es else targets f es

lookup-push_targets :
    (m : List (Text × List Text)) (es : List DependencyEdge) (k : Text)
    → lookup k (foldl (λ m e. push_to e.from e.to m) m es) ≡ append_to (targets k es) (lookup k m)
lookup-push_targets m [] k = sym (append_to-nil (lookup k m))
lookup-push_targets m (e ∷ es) k =
    lookup-push_targets (push_to e.from e.to m) es k
    ∙ ground (
      arith,
      lookup-push_to e.from e.to k m,
      append_to-append_to (e.to ∷ []) (targets k es) (lookup k m),
    )

pub neighbors-targets :
    (g : DependencyGraph) (f : Text)
    → neighbors g f ≡ (if has g.files f then targets f g.edges else [])
unfolding adjacency lookup
neighbors-targets g f =
    ground (
      arith,
      lookup-push_targets (foldl start_entry [] g.files) g.edges f,
      lookup-start [] g.files f,
    )

targets-case {κ} :
    (P : Text → Type κ) (b : Bool) (t : Text) (ts : List Text)
    → (b ≡ true → P t)
    → All P ts
    → All P (if b then t ∷ ts else ts)
targets-case P true t ts h hs = (h refl, hs)
targets-case P false t ts h hs = hs

case-targets {κ} :
    (P : Text → Type κ) (b : Bool) (t : Text) (ts : List Text)
    → All P (if b then t ∷ ts else ts)
    → (b ≡ true → P t) × All P ts
case-targets P true t ts h = (λ _. h.0, h.1)
case-targets P false t ts h = (λ e. cc, h)

-- What holds of the end of each edge from `f` holds of the targets, and the reverse.
pub All-targets {κ} :
    (P : Text → Type κ) (f : Text) (es : List DependencyEdge)
    → All (λ e. (e.from == f) ≡ true → P e.to) es
    → All P (targets f es)
All-targets P f [] h = tt
All-targets P f (e ∷ es) h =
    targets-case P (e.from == f) e.to (targets f es) h.0 (All-targets P f es h.1)

pub targets-All {κ} :
    (P : Text → Type κ) (f : Text) (es : List DependencyEdge)
    → All P (targets f es)
    → All (λ e. (e.from == f) ≡ true → P e.to) es
targets-All P f [] h = tt
targets-All P f (e ∷ es) h = (case.0, targets-All P f es case.1)
  where
    case : ((e.from == f) ≡ true → P e.to) × All P (targets f es)
    case = case-targets P (e.from == f) e.to (targets f es) h
