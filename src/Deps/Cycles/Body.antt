-- ===== src/Deps/Cycles/Body.antt =====
-- src/deps.ts: one call of `dfs` in `detectCycles`, and the loop over the files.
use mathlib.Core.Path.{subst}
use mathlib.Core.Option.{some-injective}
use migraguard.Prelude.{
  ℕ, zero, suc, ◌≡◌, sym, ap, ◌∙◌, true, false, Option, none, some, List, [], ◌∷◌, ◌++◌, if_true,
  if_false, All, All-map, and_right, ◌||◌, Bool-cases, inl, inr, arith,
}
use migraguard.Prelude.Text.{Text, ◌==◌, eq_sound, eq_refl}
use migraguard.Prelude.Maps.{has, has-append, Distinct-snoc}
use migraguard.Deps.{DependencyGraph}
use migraguard.Deps.Topological.Degrees.{AreEndpoints}
use migraguard.Deps.Topological.Rounds.{Respects-snoc}
use migraguard.Deps.Cycles.{
  Color, white, gray, black, Dfs, paint, neighbors, dfs_body, by_start_color, dfs?,
}
use migraguard.Deps.Cycles.Adjacent.{neighbors-targets, All-targets, targets-All}
use migraguard.Deps.Cycles.Search.{
  color_of, color_of-paint, none-some, bind_inversion, Sound, Step, DfsSteps, visit_neighbors-Step,
}

pub color_of-paint_self :
    (node : Text) (c : Color) (s : Dfs) → color_of (paint node c s) node ≡ some c
color_of-paint_self node c s = color_of-paint node c s node ∙ if_true _ _ _ (eq_refl node)

pub color_of-paint_other :
    (node : Text) (c : Color) (s : Dfs) (k : Text)
    → (node == k) ≡ false
    → color_of (paint node c s) k ≡ color_of s k
color_of-paint_other node c s k h = color_of-paint node c s k ∙ if_false _ _ _ h

-- A file of one color is not a file of another.
differ_by_color :
    (s : Dfs) (a b : Text) (c d : Color)
    → color_of s a ≡ some c
    → color_of s b ≡ some d
    → (some c ≡ some d → ⊥)
    → (a == b) ≡ false
differ_by_color s a b c d ha hb h = elim (Bool-cases (a == b)) [
  | inl same ↦ absurd (h (sym ha ∙ ap (color_of s) (eq_sound a b same) ∙ hb))
  | inr other ↦ other
]

white-gray : some white ≡ some gray → ⊥
white-gray h = cc

white-black : some white ≡ some black → ⊥
white-black h = cc

gray-black : some gray ≡ some black → ⊥
gray-black h = cc

module _ (g : DependencyGraph) where
  -- What is painted has a color.
  known-paint :
      (node : Text) (c : Color) (s : Dfs)
      → ((k : Text) → has g.files k ≡ true → (d : Color) × (color_of s k ≡ some d))
      → ((k : Text) → has g.files k ≡ true → (d : Color) × (color_of (paint node c s) k ≡ some d))
  known-paint node c s known k there = elim (Bool-cases (node == k)) [
    | inl same ↦ (c, color_of-paint node c s k ∙ if_true _ _ _ same)
    | inr other ↦ ((known k there).0, color_of-paint_other node c s k other ∙ (known k there).1)
  ]

  gray-Sound :
      (node : Text) (s : Dfs) (done : List Text)
      → color_of s node ≡ some white
      → Sound g s done
      → Sound g (paint node gray s) done
  gray-Sound node s done w sound = (
    λ k. elim (Bool-cases (node == k)) [
      | inl same ↦
          let painted = color_of-paint node gray s k ∙ if_true _ _ _ same in
          let is_white = ap (color_of s) (sym (eq_sound node k same)) ∙ w in
          (
            λ b. absurd (gray-black (sym painted ∙ b)),
            λ d. absurd (white-black (sym is_white ∙ (sound.0 k).1 d)),
          )
      | inr other ↦
          let kept = color_of-paint_other node gray s k other in
          (λ b. (sound.0 k).0 (sym kept ∙ b), λ d. kept ∙ (sound.0 k).1 d)
    ],
    sound.1,
    sound.2,
    known-paint node gray s sound.3,
  )

  has-snoc_self : (done : List Text) (node : Text) → has (done ++ node ∷ []) node ≡ true
  unfolding has
  has-snoc_self done node = ground (arith, has-append done (node ∷ []) node, eq_refl node)

  has-snoc_other :
      (done : List Text) (node k : Text)
      → (node == k) ≡ false
      → has (done ++ node ∷ []) k ≡ has done k
  unfolding has
  has-snoc_other done node k h = ground (arith, has-append done (node ∷ []) k)

  has-snoc_more :
      (done : List Text) (node k : Text) → has done k ≡ true → has (done ++ node ∷ []) k ≡ true
  has-snoc_more done node k h = has-append done (node ∷ []) k ∙ ap (λ b. b || has (node ∷ []) k) h

  not_done :
      (s : Dfs) (done : List Text) (node : Text)
      → Sound g s done
      → color_of s node ≡ some gray
      → has done node ≡ false
  not_done s done node sound is_gray = elim (Bool-cases (has done node)) [
    | inl d ↦ absurd (gray-black (sym is_gray ∙ (sound.0 node).1 d))
    | inr n ↦ n
  ]

  black-Sound :
      (node : Text) (s : Dfs) (done : List Text)
      → color_of s node ≡ some gray
      → has g.files node ≡ true
      → All (λ n. has done n ≡ true) (neighbors g node)
      → Sound g s done
      → Sound g (paint node black s) (done ++ node ∷ [])
  black-Sound node s done is_gray there deps sound = (
    λ k. elim (Bool-cases (node == k)) [
      | inl same ↦
          let e = eq_sound node k same in
          (
            λ b. subst (λ j. has (done ++ node ∷ []) j ≡ true) e (has-snoc_self done node),
            λ d.
                subst (λ j. color_of (paint node black s) j ≡ some black) e
                  (color_of-paint_self node black s),
          )
      | inr other ↦
          let kept = color_of-paint_other node black s k other in
          (
            λ b. has-snoc_other done node k other ∙ (sound.0 k).0 (sym kept ∙ b),
            λ d. kept ∙ (sound.0 k).1 (sym (has-snoc_other done node k other) ∙ d),
          )
    ],
    Distinct-snoc done node sound.1 (not_done s done node sound is_gray),
    Respects-snoc g.edges [] done node sound.2 (
        targets-All (λ t. has done t ≡ true) node g.edges
          (subst (λ ns. All (λ n. has done n ≡ true) ns)
            (neighbors-targets g node ∙ if_true _ _ _ there) deps)),
    known-paint node black s sound.3,
  )

  -- The neighbors of a file are files.
  pub neighbors-files :
      (node : Text)
      → AreEndpoints g.files g.edges
      → has g.files node ≡ true
      → All (λ n. has g.files n ≡ true) (neighbors g node)
  neighbors-files node ends there =
      subst (λ ns. All (λ n. has g.files n ≡ true) ns)
        (sym (neighbors-targets g node ∙ if_true _ _ _ there))
        (All-targets (λ n. has g.files n ≡ true) node g.edges
          (All-map _ _ g.edges (λ e h same. and_right (has g.files e.from) (has g.files e.to) h)
            ends))

  module _ (ends : AreEndpoints g.files g.edges) where
    dfs_body-Step :
        (dfs : Text → List Text → Dfs → Option Dfs) → DfsSteps g dfs → DfsSteps g (dfs_body g dfs)
    unfolding dfs_body
    dfs_body-Step dfs steps node path s s' there w h =
        let (t, loop, last) = bind_inversion _ _ s' h in
        let painted = paint node gray s in
        let b =
          visit_neighbors-Step g dfs (neighbors g node) (path ++ node ∷ []) painted t steps
            (neighbors-files node ends there) loop in
        subst (λ r. Step g (λ done. has done node ≡ true) s r)
          (some-injective (paint node black t) s' last)
          (
            λ k gray_k.
                let other = differ_by_color s node k white gray w gray_k white-gray in
                color_of-paint_other node black t k other
                ∙ b.0 k (color_of-paint_other node gray s k other ∙ gray_k),
            b.1,
            λ none_found done sound.
                let (done1, sound1, more, deps) =
                  b.2 none_found done (gray-Sound node s done w sound) in
                (
                  done1 ++ node ∷ [],
                  black-Sound node t done1 (b.0 node (color_of-paint_self node gray s)) there deps
                      sound1,
                  (λ k d. has-snoc_more done1 node k (more k d)),
                  has-snoc_self done1 node,
                ),
          )

    pub dfs-Steps : (n : ℕ) → DfsSteps g (dfs? g n)
    unfolding dfs?
    dfs-Steps zero node path s s' there w h = cc
    dfs-Steps (suc n) node path s s' there w h =
        dfs_body-Step (dfs? g n) (dfs-Steps n) node path s s' there w h

    pub by_start_color-Step :
        (dfs : Text → List Text → Dfs → Option Dfs) (o : Option Color) (f : Text) (s s' : Dfs)
        → DfsSteps g dfs
        → has g.files f ≡ true
        → ((k : Text) → color_of s k ≡ some gray → ⊥)
        → color_of s f ≡ o
        → by_start_color g dfs o f s ≡ some s'
        → Step g (λ done. has done f ≡ true) s s'
    by_start_color-Step dfs (some white) f s s' steps there no_gray e h = steps f [] s s' there e h
    by_start_color-Step dfs (some gray) f s s' steps there no_gray e h = absurd (no_gray f e)
    by_start_color-Step dfs (some black) f s s' steps there no_gray e h =
        subst (λ t. Step g (λ done. has done f ≡ true) s t) (some-injective s s' h)
          (
            λ k gray_k. gray_k,
            λ none_found. none_found,
            λ none_found done sound. (done, sound, (λ k d. d), (sound.0 f).0 e),
          )
    by_start_color-Step dfs none f s s' steps there no_gray e h =
        subst (λ t. Step g (λ done. has done f ≡ true) s t) (some-injective s s' h)
          (
            λ k gray_k. gray_k,
            λ none_found. none_found,
            λ none_found done sound.
                let (c, known) = sound.3 f there in absurd (none-some c (sym e ∙ known)),
          )
