-- ===== src/Deps/Cycles/Correct.antt =====
-- src/deps.ts: when `detectCycles` finds a cycle.
use mathlib.Core.Path.{subst}
use mathlib.Core.Option.{some-injective}
use migraguard.Prelude.{
  ℕ, suc, ◌≡◌, refl, sym, ap, ◌∙◌, ◌↔◌, true, Option, none, some, List, [], ◌∷◌, foldl,
  if◌then◌else◌, length, All, All-map, All-zip, if_true, and_left, or_right, Bool-cases, inl, inr,
  arith,
}
use migraguard.Prelude.Text.{Text, ◌==◌, eq_sound, eq_refl}
use migraguard.Prelude.Maps.{has, lookup, insert, lookup-insert}
use migraguard.Deps.{DependencyGraph}
use migraguard.Deps.Topological.Degrees.{AreEndpoints}
use migraguard.Deps.Topological.Correct.{Descends}
use migraguard.Deps.Topological.Acyclic.{position, Respects-falls}
use migraguard.Deps.Cycles.{
  Color, white, gray, black, Dfs, start_dfs, by_start_color, visit_files, dfs?, final_dfs?,
  cycles_of, detect_cycles,
}
use migraguard.Deps.Cycles.Search.{color_of, bind_inversion, Sound, Step}
use migraguard.Deps.Cycles.Body.{dfs-Steps, by_start_color-Step}
use migraguard.Deps.Cycles.Grays.{GraysBack, dfs-GraysBack, dfs-clean}
use migraguard.Deps.Cycles.Total.{files_end}

lookup-whites :
    (fs : List Text) (m : List (Text × Color)) (k : Text)
    → lookup k (foldl (λ m f. insert f white m) m fs)
      ≡ (if has fs k then some white else lookup k m)
unfolding has
lookup-whites [] m k = refl
lookup-whites (f ∷ fs) m k =
    ground (arith, lookup-whites fs (insert f white m) k, lookup-insert f k white m)

has_of_All :
    (done fs : List Text) (k : Text)
    → All (λ f. has done f ≡ true) fs
    → has fs k ≡ true
    → has done k ≡ true
unfolding has
has_of_All done [] k h there = cc
has_of_All done (f ∷ fs) k h there = elim (Bool-cases (f == k)) [
  | inl same ↦ ap (has done) (sym (eq_sound f k same)) ∙ h.0
  | inr other ↦ has_of_All done fs k h.1 (ground arith)
]

has-All_of :
    (all fs : List Text)
    → ((k : Text) → has fs k ≡ true → has all k ≡ true)
    → All (λ f. has all f ≡ true) fs
unfolding has
has-All_of all [] h = tt
has-All_of all (f ∷ fs) h = (
  h f (ground (arith, eq_refl f)),
  has-All_of all fs (λ k there. h k (or_right (f == k) (has fs k) there)),
)

abbrev NoGray : Dfs → Type 0
NoGray s = (k : Text) → color_of s k ≡ some gray → ⊥

module _ (g : DependencyGraph) where
  start-color : (k : Text) → color_of (start_dfs g) k ≡ (if has g.files k then some white else none)
  unfolding lookup
  start-color k = lookup-whites g.files [] k

  start-NoGray : NoGray (start_dfs g)
  start-NoGray k h = ground (arith, start-color k)

  start-Sound : Sound g (start_dfs g) []
  unfolding has
  start-Sound = (
    λ k. (λ h. absurd (ground (arith, start-color k)), λ h. cc),
    tt,
    tt,
    λ k there. (white, start-color k ∙ if_true _ _ _ there),
  )

  module _ (n : ℕ) where
    by_start_color-GraysBack :
        (o : Option Color) (f : Text) (s s' : Dfs)
        → by_start_color g (dfs? g n) o f s ≡ some s'
        → GraysBack s s'
    by_start_color-GraysBack (some white) f s s' h = dfs-GraysBack g n f [] s s' h
    by_start_color-GraysBack (some gray) f s s' h =
        subst (GraysBack s) (some-injective s s' h) (λ k e. e)
    by_start_color-GraysBack (some black) f s s' h =
        subst (GraysBack s) (some-injective s s' h) (λ k e. e)
    by_start_color-GraysBack none f s s' h = subst (GraysBack s) (some-injective s s' h) (λ k e. e)

    visit_files-Step :
        (fs : List Text) (s s' : Dfs)
        → AreEndpoints g.files g.edges
        → All (λ f. has g.files f ≡ true) fs
        → NoGray s
        → visit_files g (dfs? g n) fs s ≡ some s'
        → Step g (λ done. All (λ f. has done f ≡ true) fs) s s'
    visit_files-Step [] s s' ends there no_gray h =
        subst (λ t. Step g (λ done. Unit) s t) (some-injective s s' h)
          (λ k e. e, λ e. e, λ e done sound. (done, sound, (λ k d. d), tt))
    visit_files-Step (f ∷ fs) s s' ends there no_gray h =
        let (t, first, rest) = bind_inversion _ _ s' h in
        let a =
          by_start_color-Step g ends (dfs? g n) (color_of s f) f s t (dfs-Steps g ends n) there.0
            no_gray refl first in
        let back = by_start_color-GraysBack (color_of s f) f s t first in
        let b = visit_files-Step fs t s' ends there.1 (λ k e. no_gray k (back k e)) rest in
        (
          λ k e. b.0 k (a.0 k e),
          λ none_found. a.1 (b.1 none_found),
          λ none_found done sound.
              let (done1, sound1, more1, has_f) = a.2 (b.1 none_found) done sound in
              let (done2, sound2, more2, has_fs) = b.2 none_found done1 sound1 in
              (done2, sound2, (λ k d. more2 k (more1 k d)), (more2 f has_f, has_fs)),
        )

    module _ (ends : AreEndpoints g.files g.edges) (rank : Text → ℕ)
        (falls : Descends rank g.edges) where
      by_start_color-clean :
          (o : Option Color) (f : Text) (s s' : Dfs)
          → has g.files f ≡ true
          → NoGray s
          → by_start_color g (dfs? g n) o f s ≡ some s'
          → s'.cycles ≡ s.cycles
      by_start_color-clean (some white) f s s' there no_gray h =
          dfs-clean g rank falls ends n f [] s s' there (λ k e. absurd (no_gray k e)) h
      by_start_color-clean (some gray) f s s' there no_gray h =
          ap (λ (r : Dfs). r.cycles) (sym (some-injective s s' h))
      by_start_color-clean (some black) f s s' there no_gray h =
          ap (λ (r : Dfs). r.cycles) (sym (some-injective s s' h))
      by_start_color-clean none f s s' there no_gray h =
          ap (λ (r : Dfs). r.cycles) (sym (some-injective s s' h))

      visit_files-clean :
          (fs : List Text) (s s' : Dfs)
          → All (λ f. has g.files f ≡ true) fs
          → NoGray s
          → visit_files g (dfs? g n) fs s ≡ some s'
          → s'.cycles ≡ s.cycles
      visit_files-clean [] s s' there no_gray h =
          ap (λ (r : Dfs). r.cycles) (sym (some-injective s s' h))
      visit_files-clean (f ∷ fs) s s' there no_gray h =
          let (t, first, rest) = bind_inversion _ _ s' h in
          let back = by_start_color-GraysBack (color_of s f) f s t first in
          visit_files-clean fs t s' there.1 (λ k e. no_gray k (back k e)) rest
          ∙ by_start_color-clean (color_of s f) f s t there.0 no_gray first

  done-Descends :
      (done : List Text) (s : Dfs)
      → AreEndpoints g.files g.edges
      → Sound g s done
      → All (λ f. has done f ≡ true) g.files
      → Descends (position done) g.edges
  done-Descends done s ends sound all =
      All-zip _ _ g.edges
        (All-map _ _ g.edges
          (λ e falls ends_e. falls (
            has_of_All done g.files e.from all
              (and_left (has g.files e.from) (has g.files e.to) ends_e)))
          (Respects-falls g.edges [] done sound.1 sound.2))
        ends

  -- If every edge joins files of the graph: the search of `detectCycles` ends within its fuel, and
  -- it reports no cycle exactly if some rank of the files falls along every edge, that is, if the
  -- graph has no cycle.
  pub detect_cycles_correct :
      AreEndpoints g.files g.edges
      → ((s : Dfs) × (final_dfs? g ≡ some s))
        × ((detect_cycles g ≡ []) ↔ ((rank : Text → ℕ) × Descends rank g.edges))
  unfolding detect_cycles final_dfs?
  detect_cycles_correct ends =
      let n = suc (length g.files) in
      let all = has-All_of g.files g.files (λ k h. h) in
      let (s, e) = files_end g g.files (start_dfs g) ends all in
      let cycles : cycles_of (visit_files g (dfs? g n) g.files (start_dfs g)) ≡ s.cycles =
        ap cycles_of e in
      (
        (s, e),
        (
          λ none_found.
              let step = visit_files-Step n g.files (start_dfs g) s ends all start-NoGray e in
              let (done, sound, more, has_all) = step.2 (sym cycles ∙ none_found) [] start-Sound in
              (position done, done-Descends done s ends sound has_all),
          λ (rank, falls).
              cycles
              ∙ visit_files-clean n ends rank falls g.files (start_dfs g) s all start-NoGray e,
        ),
      )
