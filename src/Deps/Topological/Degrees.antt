-- ===== src/Deps/Topological/Degrees.antt =====
-- src/deps.ts: the in-degrees of `topologicalSort`.
use migraguard.Prelude.{
  ℕ, suc, ◌+◌, ◌≡◌, refl, ap, ◌∙◌, true, false, not, ◌&&◌, none, some, List, [], ◌∷◌, ◌++◌, foldl,
  arith, if◌then◌else◌, All, nat_eq, Bool-cases, inl, inr, if_true, if_false,
}
use migraguard.Prelude.Text.{Text, ◌==◌, eq_iff, eq_sound}
use migraguard.Prelude.Maps.{
  has, Distinct, has-append, lookup, insert, lookup-insert, keys, Distinct-keys-insert,
}
use migraguard.Deps.{DependencyEdge, DependencyGraph}
use migraguard.Deps.Adjacency.{sources}
use migraguard.Deps.Topological.{Degree, degree, raise, degree_or, count_edge, in_degrees}
use migraguard.Deps.Topological.Queue.{is_zero_at}

-- The edges from `f` to a file that is not among `done`.
abbrev pub waiting : List DependencyEdge → List Text → Text → ℕ
waiting [] done f = 0
waiting (e ∷ es) done f =
    if (e.from == f) && not (has done e.to) then suc (waiting es done f) else waiting es done f

-- The number of times that `f` stands in a list.
abbrev pub count : List Text → Text → ℕ
count [] f = 0
count (x ∷ xs) f = if x == f then suc (count xs f) else count xs f

-- One more file is done: as many edges fewer as lead to it.
pub waiting-snoc :
    (es : List DependencyEdge) (done : List Text) (node f : Text)
    → has done node ≡ false
    → waiting es done f ≡ waiting es (done ++ node ∷ []) f + count (sources node es) f
unfolding has
waiting-snoc [] done node f h = omega arith
waiting-snoc (e ∷ es) done node f h = ground (
  arith,
  waiting-snoc es done node f h,
  has-append done (node ∷ []) e.to,
  eq_iff e.to node,
  eq_iff node e.to,
)

-- Every edge leads from a file of the graph to a file of the graph.
abbrev pub AreEndpoints : List Text → List DependencyEdge → Type 0
AreEndpoints files = All (λ e. (has files e.from && has files e.to) ≡ true)

lookup-zeros :
    (m : List (Text × Degree)) (fs : List Text) (f : Text)
    → lookup f (foldl (λ m f. insert f (degree 0) m) m fs)
      ≡ (if has fs f then some (degree 0) else lookup f m)
unfolding has
lookup-zeros m [] f = refl
lookup-zeros m (x ∷ fs) f =
    ground (arith, lookup-zeros (insert x (degree 0) m) fs f, lookup-insert x f (degree 0) m)

-- An edge that starts at `f` raises its degree.
counted :
    (e : DependencyEdge) (m : List (Text × Degree)) (f : Text) (n : ℕ)
    → lookup f m ≡ some (degree n)
    → (e.from == f) ≡ true
    → lookup f (count_edge m e) ≡ some (degree (suc n))
counted e m f n h same =
    lookup-insert e.from f (raise (degree_or (degree 0) (lookup e.from m))) m
    ∙ if_true (e.from == f) _ _ same
    ∙ ap (λ o. some (raise (degree_or (degree 0) o)))
        (ap (λ k. lookup k m) (eq_sound e.from f same) ∙ h)

lookup-count_edges :
    (es : List DependencyEdge) (m : List (Text × Degree)) (f : Text) (n : ℕ)
    → lookup f m ≡ some (degree n)
    → lookup f (foldl count_edge m es) ≡ some (degree (n + waiting es [] f))
unfolding has
lookup-count_edges [] m f n h = h ∙ ap (λ k. some (degree k)) (omega arith)
lookup-count_edges (e ∷ es) m f n h = elim (Bool-cases (e.from == f)) [
  | inl same ↦
      lookup-count_edges es (count_edge m e) f (suc n) (counted e m f n h same)
      ∙ ap (λ k. some (degree k)) (ground arith)
  | inr other ↦
      lookup-count_edges es (count_edge m e) f n
        (lookup-insert e.from f (raise (degree_or (degree 0) (lookup e.from m))) m ∙ ground arith)
      ∙ ap (λ k. some (degree k)) (ground arith)
]

lookup-count_other :
    (files : List Text) (es : List DependencyEdge) (m : List (Text × Degree)) (f : Text)
    → AreEndpoints files es
    → has files f ≡ false
    → lookup f m ≡ none
    → lookup f (foldl count_edge m es) ≡ none
lookup-count_other files [] m f ends out h = h
lookup-count_other files (e ∷ es) m f ends out h =
    lookup-count_other files es (count_edge m e) f ends.1 out (
      ground (
        arith,
        h,
        ends.0,
        out,
        eq_iff e.from f,
        lookup-insert e.from f (raise (degree_or (degree 0) (lookup e.from m))) m,
      ))

pub lookup-in_degrees :
    (g : DependencyGraph) (f : Text)
    → has g.files f ≡ true
    → lookup f (in_degrees g) ≡ some (degree (waiting g.edges [] f))
unfolding in_degrees
lookup-in_degrees g f there =
    lookup-count_edges g.edges (foldl (λ m f. insert f (degree 0) m) [] g.files) f 0
      (lookup-zeros [] g.files f ∙ if_true (has g.files f) _ _ there)
    ∙ ap (λ n. some (degree n)) (omega arith)

pub is_zero_at-in_degrees :
    (g : DependencyGraph) (f : Text)
    → AreEndpoints g.files g.edges
    → is_zero_at (lookup f (in_degrees g)) ≡ (has g.files f && nat_eq (waiting g.edges [] f) 0)
unfolding in_degrees lookup
is_zero_at-in_degrees g f ends = elim (Bool-cases (has g.files f)) [
  | inl there ↦ ground (arith, lookup-in_degrees g f there)
  | inr out ↦ ground (
    arith,
    lookup-count_other g.files g.edges (foldl (λ m f. insert f (degree 0) m) [] g.files) f ends out
        (lookup-zeros [] g.files f ∙ if_false (has g.files f) _ _ out),
  )
]

Distinct-zeros :
    (m : List (Text × Degree)) (fs : List Text)
    → Distinct (keys m)
    → Distinct (keys (foldl (λ m f. insert f (degree 0) m) m fs))
Distinct-zeros m [] d = d
Distinct-zeros m (f ∷ fs) d =
    Distinct-zeros (insert f (degree 0) m) fs (Distinct-keys-insert f (degree 0) m d)

Distinct-count_edges :
    (m : List (Text × Degree)) (es : List DependencyEdge)
    → Distinct (keys m)
    → Distinct (keys (foldl count_edge m es))
Distinct-count_edges m [] d = d
Distinct-count_edges m (e ∷ es) d =
    Distinct-count_edges (count_edge m e) es (Distinct-keys-insert e.from _ m d)

pub Distinct-in_degrees : (g : DependencyGraph) → Distinct (keys (in_degrees g))
unfolding in_degrees
Distinct-in_degrees g = Distinct-count_edges _ g.edges (Distinct-zeros [] g.files tt)
