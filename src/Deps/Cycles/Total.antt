-- ===== src/Deps/Cycles/Total.antt =====
-- src/deps.ts: the depth of the recursion of `detectCycles`.
use mathlib.Core.Option.{some-injective}
use migraguard.Prelude.{
  ℕ, zero, suc, ◌<◌, ◌≤◌, ◌≡◌, refl, ap, Bool, true, false, Option, none, some, List, [], ◌∷◌, ◌++◌,
  ◌>>=◌, if◌then◌else◌, length, All, Bool-cases, inl, inr, arith,
}
use migraguard.Prelude.Text.{Text, ◌==◌, eq_sound, eq_iff}
use migraguard.Prelude.Maps.{has}
use migraguard.Deps.{DependencyGraph}
use migraguard.Deps.Topological.Degrees.{AreEndpoints}
use migraguard.Deps.Cycles.{
  Color, white, gray, black, Dfs, paint, neighbors, by_color, visit_neighbors, dfs_body, dfs?,
  push_cycle, by_start_color, visit_files,
}
use migraguard.Deps.Cycles.Search.{color_of, color_of-paint}
use migraguard.Deps.Cycles.Body.{neighbors-files}

abbrev is_white : Option Color → Bool
is_white (some white) = true
is_white _ = false

-- The white ones among some files.
abbrev pub whites : List Text → Dfs → ℕ
whites [] s = 0
whites (f ∷ fs) s = if is_white (color_of s f) then suc (whites fs s) else whites fs s

-- Painting in another color makes none white.
whites-paint :
    (fs : List Text) (node : Text) (c : Color) (s : Dfs)
    → is_white (some c) ≡ false
    → whites fs (paint node c s) ≤ whites fs s
whites-paint [] node c s h = omega arith
whites-paint (f ∷ fs) node c s h =
    ground (arith, whites-paint fs node c s h, color_of-paint node c s f)

whites-paint_white :
    (fs : List Text) (node : Text) (s : Dfs)
    → has fs node ≡ true
    → color_of s node ≡ some white
    → whites fs (paint node gray s) < whites fs s
unfolding has
whites-paint_white [] node s there w = cc
whites-paint_white (f ∷ fs) node s there w = elim (Bool-cases (f == node)) [
  | inl same ↦ ground (
    arith,
    color_of-paint node gray s f,
    eq_iff node f,
    eq_iff f node,
    ap (color_of s) (eq_sound f node same),
    whites-paint fs node gray s refl,
  )
  | inr other ↦ ground (
    arith,
    color_of-paint node gray s f,
    eq_iff node f,
    eq_iff f node,
    whites-paint_white fs node s,
  )
]

whites-push_cycle :
    (fs : List Text) (node : Text) (path : List Text) (s : Dfs)
    → whites fs (push_cycle node path s) ≡ whites fs s
whites-push_cycle [] node path s = refl
whites-push_cycle (f ∷ fs) node path s =
    ap (λ n. if is_white (color_of s f) then suc n else n) (whites-push_cycle fs node path s)

whites_le : (fs : List Text) (s : Dfs) → whites fs s ≤ length fs
whites_le [] s = omega arith
whites_le (f ∷ fs) s = ground (arith, whites_le fs s)

module _ (g : DependencyGraph) where
  -- A call returns and leaves no more white files than there were.
  abbrev Ends : Dfs → Option Dfs → Type 0
  Ends s o = (s' : Dfs) × (o ≡ some s') × (whites g.files s' ≤ whites g.files s)

  Ends-bind :
      (s : Dfs) (o : Option Dfs) (f : Dfs → Option Dfs)
      → Ends s o
      → ((t : Dfs) → whites g.files t ≤ whites g.files s → Ends t (f t))
      → Ends s (o >>= f)
  Ends-bind s none f h k = cc h.1
  Ends-bind s (some a) f (b, e, less) k =
      let less_a : whites g.files a ≤ whites g.files s =
        omega (arith, less, ap (whites g.files) (some-injective a b e)) in
      let (s', e', less') = k a less_a in (s', e', omega (arith, less', less_a))

  module _ (n : ℕ) where
    abbrev DfsEnds : Type 0
    DfsEnds =
        (node : Text) (path : List Text) (s : Dfs)
        → has g.files node ≡ true
        → color_of s node ≡ some white
        → whites g.files s ≤ n
        → Ends s (dfs? g n node path s)

    by_color-Ends :
        (o : Option Color) (node : Text) (path : List Text) (s : Dfs)
        → DfsEnds
        → has g.files node ≡ true
        → color_of s node ≡ o
        → whites g.files s ≤ n
        → Ends s (by_color g (dfs? g n) o node path s)
    by_color-Ends (some white) node path s ends there e h = ends node path s there e h
    by_color-Ends (some gray) node path s ends there e h =
        (push_cycle node path s, refl, omega (arith, whites-push_cycle g.files node path s))
    by_color-Ends (some black) node path s ends there e h = (s, refl, omega arith)
    by_color-Ends none node path s ends there e h = (s, refl, omega arith)

    visit_neighbors-Ends :
        (ns path : List Text) (s : Dfs)
        → DfsEnds
        → All (λ m. has g.files m ≡ true) ns
        → whites g.files s ≤ n
        → Ends s (visit_neighbors g (dfs? g n) ns path s)
    visit_neighbors-Ends [] path s ends there h = (s, refl, omega arith)
    visit_neighbors-Ends (m ∷ ns) path s ends there h =
        Ends-bind s _ _ (by_color-Ends (color_of s m) m path s ends there.0 refl h)
          (λ t less. visit_neighbors-Ends ns path t ends there.1 (omega (arith, less, h)))

    by_start_color-Ends :
        (o : Option Color) (f : Text) (s : Dfs)
        → DfsEnds
        → has g.files f ≡ true
        → color_of s f ≡ o
        → whites g.files s ≤ n
        → Ends s (by_start_color g (dfs? g n) o f s)
    by_start_color-Ends (some white) f s ends there e h = ends f [] s there e h
    by_start_color-Ends (some gray) f s ends there e h = (s, refl, omega arith)
    by_start_color-Ends (some black) f s ends there e h = (s, refl, omega arith)
    by_start_color-Ends none f s ends there e h = (s, refl, omega arith)

    visit_files-Ends :
        (fs : List Text) (s : Dfs)
        → DfsEnds
        → All (λ f. has g.files f ≡ true) fs
        → whites g.files s ≤ n
        → Ends s (visit_files g (dfs? g n) fs s)
    visit_files-Ends [] s ends there h = (s, refl, omega arith)
    visit_files-Ends (f ∷ fs) s ends there h =
        Ends-bind s _ _ (by_start_color-Ends (color_of s f) f s ends there.0 refl h)
          (λ t less. visit_files-Ends fs t ends there.1 (omega (arith, less, h)))

  body-Ends :
      (n : ℕ) (node : Text) (path : List Text) (s : Dfs)
      → AreEndpoints g.files g.edges
      → DfsEnds n
      → has g.files node ≡ true
      → color_of s node ≡ some white
      → whites g.files s ≤ suc n
      → Ends s (dfs_body g (dfs? g n) node path s)
  unfolding dfs_body
  body-Ends n node path s joined ends there w h =
      let fewer = whites-paint_white g.files node s there w in
      let (t, e, less) =
        visit_neighbors-Ends n (neighbors g node) (path ++ node ∷ []) (paint node gray s) ends
          (neighbors-files g node joined there) (omega (arith, fewer, h)) in
      (
        paint node black t,
        ap (λ o. o >>= (λ r. some (paint node black r))) e,
        omega (arith, less, fewer, whites-paint g.files node black t refl),
      )

  dfs-Ends : (n : ℕ) → AreEndpoints g.files g.edges → DfsEnds n
  unfolding dfs?
  dfs-Ends zero joined node path s there w h =
      absurd (omega (arith, h, whites-paint_white g.files node s there w))
  dfs-Ends (suc n) joined node path s there w h =
      body-Ends n node path s joined (dfs-Ends n joined) there w h

  pub files_end :
      (fs : List Text) (s : Dfs)
      → AreEndpoints g.files g.edges
      → All (λ f. has g.files f ≡ true) fs
      → (s' : Dfs) × (visit_files g (dfs? g (suc (length g.files))) fs s ≡ some s')
  files_end fs s joined there =
      let n = suc (length g.files) in
      let (s', e, less) =
        visit_files-Ends n fs s (dfs-Ends n joined) there (omega (arith, whites_le g.files s)) in
      (s', e)
