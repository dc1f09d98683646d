-- ===== src/Deps/Cycles/Grays.antt =====
-- src/deps.ts: which files are gray in `detectCycles`, and when a gray neighbor is met.
use mathlib.Core.Path.{subst}
use mathlib.Core.Option.{some-injective}
use migraguard.Prelude.{
  ℕ, zero, suc, ◌<◌, ◌≤◌, ◌≡◌, refl, sym, ap, ◌∙◌, true, false, Option, none, some, List, [], ◌∷◌,
  ◌++◌, if_true, All, All-map, Bool-cases, inl, inr, arith,
}
use migraguard.Prelude.Text.{Text, ◌==◌, eq_sound}
use migraguard.Prelude.Maps.{has}
use migraguard.Deps.{DependencyGraph}
use migraguard.Deps.Topological.Degrees.{AreEndpoints}
use migraguard.Deps.Topological.Correct.{Descends}
use migraguard.Deps.Cycles.{
  Color, white, gray, black, Dfs, paint, neighbors, by_color, visit_neighbors, dfs_body, dfs?,
  push_cycle,
}
use migraguard.Deps.Cycles.Adjacent.{neighbors-targets, All-targets}
use migraguard.Deps.Cycles.Search.{color_of, color_of-paint, bind_inversion}
use migraguard.Deps.Cycles.Body.{color_of-paint_other, neighbors-files}

-- No file becomes gray for good.
abbrev pub GraysBack : Dfs → Dfs → Type 0
GraysBack s s' = (k : Text) → color_of s' k ≡ some gray → color_of s k ≡ some gray

less_self : {n : ℕ} → n < n → ⊥
less_self h = omega arith

gray-white : some gray ≡ some white → ⊥
gray-white h = cc

black-gray : some black ≡ some gray → ⊥
black-gray h = cc

-- A file that is gray behind a painting in black was gray before.
unpaint_black :
    (node : Text) (s : Dfs) (k : Text)
    → color_of (paint node black s) k ≡ some gray
    → ((node == k) ≡ false) × (color_of s k ≡ some gray)
unpaint_black node s k h = elim (Bool-cases (node == k)) [
  | inl same ↦ absurd (black-gray (sym (color_of-paint node black s k ∙ if_true _ _ _ same) ∙ h))
  | inr other ↦ (other, sym (color_of-paint_other node black s k other) ∙ h)
]

module _ (g : DependencyGraph) where
  module _ (dfs : Text → List Text → Dfs → Option Dfs) where
    abbrev DfsGraysBack : Type 0
    DfsGraysBack =
        (node : Text) (path : List Text) (s s' : Dfs) → dfs node path s ≡ some s' → GraysBack s s'

    by_color-GraysBack :
        (o : Option Color) (n : Text) (path : List Text) (s s' : Dfs)
        → DfsGraysBack
        → by_color g dfs o n path s ≡ some s'
        → GraysBack s s'
    by_color-GraysBack (some white) n path s s' back h = back n path s s' h
    by_color-GraysBack (some gray) n path s s' back h =
        subst (GraysBack s) (some-injective (push_cycle n path s) s' h) (λ k e. e)
    by_color-GraysBack (some black) n path s s' back h =
        subst (GraysBack s) (some-injective s s' h) (λ k e. e)
    by_color-GraysBack none n path s s' back h =
        subst (GraysBack s) (some-injective s s' h) (λ k e. e)

    visit_neighbors-GraysBack :
        (ns path : List Text) (s s' : Dfs)
        → DfsGraysBack
        → visit_neighbors g dfs ns path s ≡ some s'
        → GraysBack s s'
    visit_neighbors-GraysBack [] path s s' back h =
        subst (GraysBack s) (some-injective s s' h) (λ k e. e)
    visit_neighbors-GraysBack (n ∷ ns) path s s' back h =
        let (t, first, rest) = bind_inversion _ _ s' h in
        λ k e.
          by_color-GraysBack (color_of s n) n path s t back first k
            (visit_neighbors-GraysBack ns path t s' back rest k e)

    body-GraysBack :
        (node : Text) (path : List Text) (s s' : Dfs)
        → DfsGraysBack
        → dfs_body g dfs node path s ≡ some s'
        → GraysBack s s'
    unfolding dfs_body
    body-GraysBack node path s s' back h =
        let (t, loop, last) = bind_inversion _ _ s' h in
        subst (GraysBack s) (some-injective (paint node black t) s' last) (λ k e.
          let (other, gray_k) = unpaint_black node t k e in
          sym (color_of-paint_other node gray s k other)
          ∙ visit_neighbors-GraysBack (neighbors g node) (path ++ node ∷ []) (paint node gray s) t
              back loop k gray_k)

  pub dfs-GraysBack : (n : ℕ) → DfsGraysBack (dfs? g n)
  unfolding dfs?
  dfs-GraysBack zero node path s s' h = cc
  dfs-GraysBack (suc n) node path s s' h =
      body-GraysBack (dfs? g n) node path s s' (dfs-GraysBack n) h

  -- Under a rank that falls along every edge, a call for a file below all gray ones meets none.
  module _ (rank : Text → ℕ) (falls : Descends rank g.edges) where
    abbrev pub Below : Text → Dfs → Type 0
    Below node s = (k : Text) → color_of s k ≡ some gray → rank node < rank k

    neighbors-below :
        (node : Text) → has g.files node ≡ true → All (λ n. rank n < rank node) (neighbors g node)
    neighbors-below node there =
        subst (All (λ n. rank n < rank node)) (sym (neighbors-targets g node ∙ if_true _ _ _ there))
          (All-targets (λ n. rank n < rank node) node g.edges
            (All-map _ _ g.edges
              (λ e less same. subst (λ x. rank e.to < rank x) (eq_sound e.from node same) less)
              falls))

    abbrev pub SameCycles : Dfs → Dfs → Type 0
    SameCycles s s' = s'.cycles ≡ s.cycles

    module _ (m : ℕ) where
      abbrev DfsClean : Type 0
      DfsClean =
          (node : Text) (path : List Text) (s s' : Dfs)
          → has g.files node ≡ true
          → Below node s
          → dfs? g m node path s ≡ some s'
          → SameCycles s s'

      by_color-clean :
          (o : Option Color) (n : Text) (path : List Text) (s s' : Dfs)
          → DfsClean
          → has g.files n ≡ true
          → Below n s
          → color_of s n ≡ o
          → by_color g (dfs? g m) o n path s ≡ some s'
          → SameCycles s s'
      by_color-clean (some white) n path s s' clean there below e h =
          clean n path s s' there below h
      by_color-clean (some gray) n path s s' clean there below e h = absurd (less_self (below n e))
      by_color-clean (some black) n path s s' clean there below e h =
          subst (SameCycles s) (some-injective s s' h) refl
      by_color-clean none n path s s' clean there below e h =
          subst (SameCycles s) (some-injective s s' h) refl

      -- All neighbors are below `top`, and no gray file is.
      visit_neighbors-clean :
          (top : ℕ) (ns path : List Text) (s s' : Dfs)
          → DfsClean
          → All (λ n. has g.files n ≡ true) ns
          → All (λ n. rank n < top) ns
          → ((k : Text) → color_of s k ≡ some gray → top ≤ rank k)
          → visit_neighbors g (dfs? g m) ns path s ≡ some s'
          → SameCycles s s'
      visit_neighbors-clean top [] path s s' clean there low high h =
          subst (SameCycles s) (some-injective s s' h) refl
      visit_neighbors-clean top (n ∷ ns) path s s' clean there low high h =
          let (t, first, rest) = bind_inversion _ _ s' h in
          let back =
            by_color-GraysBack (dfs? g m) (color_of s n) n path s t (dfs-GraysBack m) first in
          visit_neighbors-clean top ns path t s' clean there.1 low.1 (λ k e. high k (back k e)) rest
          ∙ by_color-clean (color_of s n) n path s t clean there.0
              (λ k e. omega (arith, low.0, high k e)) refl first

    pub dfs-clean : AreEndpoints g.files g.edges → (m : ℕ) → DfsClean m
    unfolding dfs? dfs_body
    dfs-clean ends zero node path s s' there below h = cc
    dfs-clean ends (suc m) node path s s' there below h =
        let (t, loop, last) = bind_inversion _ _ s' h in
        subst (SameCycles s) (some-injective (paint node black t) s' last) (
          visit_neighbors-clean m (rank node) (neighbors g node) (path ++ node ∷ [])
            (paint node gray s) t (dfs-clean ends m) (neighbors-files g node ends there)
            (neighbors-below node there)
            (λ k e. elim (Bool-cases (node == k)) [
              | inl same ↦ omega (arith, ap rank (eq_sound node k same))
              | inr other ↦
                  omega (arith, below k (sym (color_of-paint_other node gray s k other) ∙ e))
            ])
            loop)
