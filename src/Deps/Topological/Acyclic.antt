-- ===== src/Deps/Topological/Acyclic.antt =====
-- src/deps.ts: for which graphs `topologicalSort` has a result.
use mathlib.Core.Path.{subst}
use mathlib.Core.List.{append_assoc}
use migraguard.Prelude.{
  ℕ, suc, ◌<◌, ◌≡◌, ◌↔◌, refl, sym, ap, ◌∙◌, true, false, some, List, [], ◌∷◌, ◌++◌, arith,
  if◌then◌else◌, Bool-cases, inl, inr, All, All-intro, All-zip, All-map, length, and_left,
}
use migraguard.Prelude.Text.{Text, ◌==◌, eq_sound, eq_refl, eq_iff}
use migraguard.Prelude.Maps.{has, has-append, Distinct}
use migraguard.Deps.{DependencyEdge, DependencyGraph}
use migraguard.Deps.Topological.{topological_sort}
use migraguard.Deps.Topological.Degrees.{AreEndpoints}
use migraguard.Deps.Topological.Rounds.{Respects}
use migraguard.Deps.Topological.Correct.{Descends, sorts_descending, topological_sort_sound}

-- xs.indexOf(f), and the length of a list without `f`
abbrev pub position : List Text → Text → ℕ
position [] f = 0
position (x ∷ xs) f = if x == f then 0 else suc (position xs f)

position-in :
    (seen rest : List Text) (f : Text) → has seen f ≡ true → position (seen ++ rest) f < length seen
unfolding has
position-in [] rest f h = cc
position-in (x ∷ seen) rest f h = ground (arith, position-in seen rest f)

position-at :
    (seen rest : List Text) (x : Text)
    → has seen x ≡ false
    → position (seen ++ x ∷ rest) x ≡ length seen
unfolding has
position-at [] rest x h = rw (eq_refl x) refl
position-at (y ∷ seen) rest x h = ground (arith, position-at seen rest x)

Distinct-fresh :
    (seen rest : List Text) (x : Text) → Distinct (seen ++ x ∷ rest) → has seen x ≡ false
unfolding has
Distinct-fresh [] rest x d = refl
Distinct-fresh (y ∷ seen) rest x d = ground (
  arith,
  Distinct-fresh seen rest x d.1,
  d.0,
  has-append seen (x ∷ rest) y,
  eq_iff x y,
  eq_iff y x,
)

-- The edges that start in `xs` fall along the positions in `order`.
abbrev pub FallsIn : List Text → List Text → DependencyEdge → Type 0
FallsIn order xs e = has xs e.from ≡ true → position order e.to < position order e.from

FallsIn-cons :
    (seen xs : List Text) (x : Text) (e : DependencyEdge)
    → Distinct (seen ++ x ∷ xs)
    → ((e.from == x) ≡ true → has seen e.to ≡ true)
    → FallsIn (seen ++ x ∷ xs) xs e
    → FallsIn (seen ++ x ∷ xs) (x ∷ xs) e
unfolding has
FallsIn-cons seen xs x e d dep rest h = elim (Bool-cases (e.from == x)) [
  | inr other ↦ rest (ground (arith, eq_iff x e.from, eq_iff e.from x))
  | inl same ↦ omega (
    arith,
    position-in seen (x ∷ xs) e.to (dep same),
    ap (position (seen ++ x ∷ xs)) (eq_sound e.from x same),
    position-at seen xs x (Distinct-fresh seen xs x d),
  )
]

pub Respects-falls :
    (es : List DependencyEdge) (seen xs : List Text)
    → Distinct (seen ++ xs)
    → Respects es seen xs
    → All (FallsIn (seen ++ xs) xs) es
unfolding has
Respects-falls es seen [] d h = All-intro _ es (λ e k. cc)
Respects-falls es seen (x ∷ xs) d h =
    let moved : (seen ++ x ∷ []) ++ xs ≡ seen ++ x ∷ xs = append_assoc seen (x ∷ []) xs in
    let rest : All (FallsIn (seen ++ x ∷ xs) xs) es =
      subst (λ order. All (FallsIn order xs) es) moved
        (Respects-falls es (seen ++ x ∷ []) xs (subst Distinct (sym moved) d) h.1) in
    All-zip _ _ es (All-map _ _ es (λ e dep rest_e. FallsIn-cons seen xs x e d dep rest_e) h.0) rest

module _ (g : DependencyGraph) (ends : AreEndpoints g.files g.edges)
    (distinct : Distinct g.files) where
  sorted-Descends :
      (sorted : List Text) → topological_sort g ≡ some sorted → Descends (position sorted) g.edges
  sorted-Descends sorted h =
      let (members, once, respects) = topological_sort_sound g ends distinct sorted h in
      All-zip _ _ g.edges
        (All-map _ _ g.edges
          (λ e falls ends_e.
            falls (members e.from ∙ and_left (has g.files e.from) (has g.files e.to) ends_e))
          (Respects-falls g.edges [] sorted once respects))
        ends

  -- If every edge joins files of the graph, and no file is there twice: the sort has a result exactly
  -- if some rank of the files falls along every edge, that is, if the graph has no cycle.
  pub topological_sort_complete :
      ((sorted : List Text) × (topological_sort g ≡ some sorted))
      ↔ ((rank : Text → ℕ) × Descends rank g.edges)
  topological_sort_complete = (
    λ (sorted, h). (position sorted, sorted-Descends sorted h),
    λ (rank, down). sorts_descending g ends distinct rank down,
  )
