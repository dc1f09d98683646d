-- ===== src/Deps/Cycles/Search.antt =====
-- src/deps.ts: what a call of `dfs` in `detectCycles` leaves.
use mathlib.Core.Path.{subst}
use mathlib.Core.Option.{some-injective}
use migraguard.Prelude.{
  ◌≡◌, refl, sym, ◌∙◌, ◌↔◌, true, Option, none, some, List, [], ◌∷◌, ◌++◌, ◌>>=◌, if◌then◌else◌,
  All,
}
use migraguard.Prelude.Text.{Text, ◌==◌}
use migraguard.Prelude.Maps.{has, lookup, lookup-insert, Distinct}
use migraguard.Deps.{DependencyGraph}
use migraguard.Deps.Topological.Rounds.{Respects}
use migraguard.Deps.Cycles.{
  Color, white, gray, black, Dfs, paint, push_cycle, by_color, visit_neighbors,
}

abbrev pub color_of : Dfs → Text → Option Color
color_of s k = lookup k s.color

pub color_of-paint :
    (node : Text) (c : Color) (s : Dfs) (k : Text)
    → color_of (paint node c s) k ≡ (if node == k then some c else color_of s k)
color_of-paint node c s k = lookup-insert node k c s.color

pub bind_inversion {ℓ κ} :
    {A : Type ℓ} {B : Type κ} (o : Option A) (f : A → Option B) (b : B)
    → (o >>= f) ≡ some b
    → (a : A) × (o ≡ some a) × (f a ≡ some b)
bind_inversion none f b h = cc
bind_inversion (some a) f b h = (a, refl, h)

not_nil {ℓ} : {A : Type ℓ} (xs : List A) (x : A) → (xs ++ x ∷ [] ≡ []) → ⊥
not_nil [] x h = cc
not_nil (y ∷ xs) x h = cc

abbrev pub Includes : List Text → List Text → Type 0
Includes done done' = (k : Text) → has done k ≡ true → has done' k ≡ true

pub none-some {ℓ} : {A : Type ℓ} (a : A) → (none ≡ some a) → ⊥
none-some a h = cc

module _ (g : DependencyGraph) where
  -- `done` lists the black files, each behind all the files to which its edges lead, and all
  -- files have a color.
  abbrev pub Sound : Dfs → List Text → Type 0
  Sound s done =
      ((k : Text) → (color_of s k ≡ some black) ↔ (has done k ≡ true))
      × Distinct done
      × Respects g.edges [] done
      × ((k : Text) → has g.files k ≡ true → (c : Color) × (color_of s k ≡ some c))

  -- Gray files stay gray; no cycle is taken back; and if none was found, more files are done, of
  -- which `Q` holds.
  abbrev pub Step : (List Text → Type 0) → Dfs → Dfs → Type 0
  Step Q s s' =
      ((k : Text) → color_of s k ≡ some gray → color_of s' k ≡ some gray)
      × (s'.cycles ≡ [] → s.cycles ≡ [])
      × (s'.cycles ≡ []
          → (done : List Text) → Sound s done
          → (done' : List Text) × Sound s' done' × Includes done done' × Q done')

  module _ (dfs : Text → List Text → Dfs → Option Dfs) where
    abbrev pub DfsSteps : Type 0
    DfsSteps =
        (node : Text) (path : List Text) (s s' : Dfs)
        → has g.files node ≡ true
        → color_of s node ≡ some white
        → dfs node path s ≡ some s'
        → Step (λ done. has done node ≡ true) s s'

    by_color-Step :
        (o : Option Color) (n : Text) (path : List Text) (s s' : Dfs)
        → DfsSteps
        → has g.files n ≡ true
        → color_of s n ≡ o
        → by_color g dfs o n path s ≡ some s'
        → Step (λ done. has done n ≡ true) s s'
    by_color-Step (some white) n path s s' steps there e h = steps n path s s' there e h
    by_color-Step (some gray) n path s s' steps there e h =
        subst (λ t. Step (λ done. has done n ≡ true) s t)
          (some-injective (push_cycle n path s) s' h)
          (
            λ k gray_k. gray_k,
            λ none_found. absurd (not_nil s.cycles _ none_found),
            λ none_found. absurd (not_nil s.cycles _ none_found),
          )
    by_color-Step (some black) n path s s' steps there e h =
        subst (λ t. Step (λ done. has done n ≡ true) s t) (some-injective s s' h)
          (
            λ k gray_k. gray_k,
            λ none_found. none_found,
            λ none_found done sound. (done, sound, (λ k h. h), (sound.0 n).0 e),
          )
    by_color-Step none n path s s' steps there e h =
        subst (λ t. Step (λ done. has done n ≡ true) s t) (some-injective s s' h)
          (
            λ k gray_k. gray_k,
            λ none_found. none_found,
            λ none_found done sound.
                let (c, known) = sound.3 n there in absurd (none-some c (sym e ∙ known)),
          )

    pub visit_neighbors-Step :
        (ns path : List Text) (s s' : Dfs)
        → DfsSteps
        → All (λ n. has g.files n ≡ true) ns
        → visit_neighbors g dfs ns path s ≡ some s'
        → Step (λ done. All (λ n. has done n ≡ true) ns) s s'
    visit_neighbors-Step [] path s s' steps there h =
        subst (λ t. Step (λ done. Unit) s t) (some-injective s s' h)
          (
            λ k gray_k. gray_k,
            λ none_found. none_found,
            λ none_found done sound. (done, sound, (λ k h. h), tt),
          )
    visit_neighbors-Step (n ∷ ns) path s s' steps there h =
        let (t, first, rest) = bind_inversion _ _ s' h in
        let a = by_color-Step (color_of s n) n path s t steps there.0 refl first in
        let b = visit_neighbors-Step ns path t s' steps there.1 rest in
        (
          λ k gray_k. b.0 k (a.0 k gray_k),
          λ none_found. a.1 (b.1 none_found),
          λ none_found done sound.
              let (done1, sound1, more1, has_n) = a.2 (b.1 none_found) done sound in
              let (done2, sound2, more2, has_ns) = b.2 none_found done1 sound1 in
              (done2, sound2, (λ k h. more2 k (more1 k h)), (more2 n has_n, has_ns)),
        )
