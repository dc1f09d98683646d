-- ===== src/Deps/Topological/Correct.antt =====
-- src/deps.ts: what `topologicalSort` returns.
use mathlib.Core.Path.{subst}
use mathlib.Core.Option.{some-injective}
use migraguard.Prelude.{
  ℕ, zero, suc, ◌<◌, ◌≡◌, refl, sym, ap, ◌∙◌, true, false, none, some, List, [], ◌∷◌, arith,
  if◌then◌else◌, nat_eq, Bool-cases, List-cases, Option-cases, if_true, if_false, inl, inr,
  or_right, and_right, All, length, length-append,
}
use migraguard.Prelude.Text.{Text, ◌==◌, eq_sound, eq_refl}
use migraguard.Prelude.Maps.{has, Distinct}
use migraguard.Deps.{DependencyEdge, DependencyGraph}
use migraguard.Deps.Topological.{
  Sorting, take_node, sort, sort_loop, start_sorting, sorted_files?, topological_sort,
}
use migraguard.Deps.Topological.Queue.{has-sort}
use migraguard.Deps.Topological.Degrees.{waiting, AreEndpoints}
use migraguard.Deps.Topological.Rounds.{
  unsorted, Respects, Between, take_node-Between, take_node-sorted, start-Between,
}

unsorted-zero :
    (fs sorted : List Text) (f : Text)
    → unsorted fs sorted ≡ 0
    → has fs f ≡ true
    → has sorted f ≡ true
unfolding has
unsorted-zero [] sorted f h k = cc
unsorted-zero (x ∷ fs) sorted f h k = ground (arith, unsorted-zero fs sorted f, eq_sound x f)

zero-unsorted :
    (fs sorted : List Text)
    → ((f : Text) → has fs f ≡ true → has sorted f ≡ true)
    → unsorted fs sorted ≡ 0
unfolding has
zero-unsorted [] sorted h = refl
zero-unsorted (x ∷ fs) sorted h =
    ground (
      arith,
      h x (rw eq_refl),
      zero-unsorted fs sorted (λ f k. h f (or_right (x == f) (has fs f) k)),
    )

-- Edges lead down in rank.
abbrev pub Descends : (Text → ℕ) → List DependencyEdge → Type 0
Descends rank = All (λ e. rank e.to < rank e.from)

-- A file all of whose edges lead to sorted files does not wait.
waiting-zero :
    (files : List Text) (rank : Text → ℕ) (es : List DependencyEdge) (done : List Text) (f : Text)
    → AreEndpoints files es
    → Descends rank es
    → ((t : Text) → has files t ≡ true → rank t < rank f → has done t ≡ true)
    → waiting es done f ≡ 0
waiting-zero files rank [] done f ends down h = refl
waiting-zero files rank (e ∷ es) done f ends down h = elim (Bool-cases (e.from == f)) [
  | inr other ↦ ground (arith, waiting-zero files rank es done f ends.1 down.1 h)
  | inl same ↦
      let lower : rank e.to < rank f =
        subst (λ x. rank e.to < rank x) (eq_sound e.from f same) down.0 in
      ground (
        arith,
        waiting-zero files rank es done f ends.1 down.1 h,
        h e.to (and_right (has files e.from) (has files e.to) ends.0) lower,
      )
]

module _ (g : DependencyGraph) (ends : AreEndpoints g.files g.edges)
    (distinct : Distinct g.files) where
  -- The end of the loop: nothing waits in the queue.
  record Ended (sorted : List Text) : Type 0 where
    last : Sorting
    between : Between g ends distinct last
    none_left : (f : Text) → has last.queue f ≡ false
    returned : sorted ≡ last.sorted

  sort_loop-Ended :
      (fuel : ℕ) (s : Sorting)
      → Between g ends distinct s
      → unsorted g.files s.sorted < fuel
      → (sorted : List Text) × (sort_loop g fuel s ≡ some sorted) × Ended sorted
  unfolding sort_loop has
  sort_loop-Ended zero s h enough = absurd (omega arith)
  sort_loop-Ended (suc fuel) s h enough = elim (List-cases (sort s.queue)) [
    | inl empty ↦ (
      s.sorted,
      rw (empty, sort_loop) refl,
      record {
        last = s;
        between = h;
        none_left = λ f. sym (has-sort s.queue f) ∙ ap (λ (q : List Text). has q f) empty;
        returned = refl;
      },
    )
    | inr (node, rest, e) ↦
        let next = take_node-Between g ends distinct s node rest h e in
        let (sorted, ends_with, ended) = sort_loop-Ended fuel (take_node g node rest s) next (
          omega (
            arith,
            h.lengths,
            next.lengths,
            ap (λ (q : List Text). length q) (take_node-sorted g ends distinct s node rest),
            length-append s.sorted (node ∷ []),
          )) in
        (sorted, rw (e, sort_loop) ends_with, ended)
  ]

  sorted_files-Ended : (sorted : List Text) × (sorted_files? g ≡ some sorted) × Ended sorted
  unfolding sorted_files? start_sorting
  sorted_files-Ended =
      sort_loop-Ended (suc (length g.files)) (start_sorting g) (start-Between g ends distinct)
        (omega (arith, (start-Between g ends distinct).lengths))

  -- If every edge joins files of the graph, and no file is there twice: the loop returns within its fuel,
  -- with or without a cycle in the graph.
  pub sorted_files_total : (sorted : List Text) × (sorted_files? g ≡ some sorted)
  sorted_files_total = let (sorted, e, _) = sorted_files-Ended in (sorted, e)

  -- In a graph whose edges descend, no file is left.
  Ended-all :
      (rank : Text → ℕ)
      → Descends rank g.edges
      → (sorted : List Text) → (e : Ended sorted) → (k : ℕ) (f : Text) → rank f < k
      → has g.files f ≡ true
      → has e.last.sorted f ≡ true
  Ended-all rank down sorted e zero f h there = absurd (omega arith)
  Ended-all rank down sorted e (suc k) f h there =
      let none_waits =
        waiting-zero g.files rank g.edges e.last.sorted f ends down
          (λ t in_files lower. Ended-all rank down sorted e k t (omega arith) in_files) in
      ground (arith, e.between.counting.queued f, e.none_left f, none_waits)

  returns_sorted :
      (sorted : List Text)
      → sorted_files? g ≡ some sorted
      → length sorted ≡ length g.files
      → topological_sort g ≡ some sorted
  unfolding topological_sort
  returns_sorted sorted e h =
      rw (e, topological_sort)
        (if_true (nat_eq (length sorted) (length g.files)) (some sorted) none (ground arith))

  -- If a rank falls along every edge, the sort succeeds.
  pub sorts_descending :
      (rank : Text → ℕ)
      → Descends rank g.edges
      → (sorted : List Text) × (topological_sort g ≡ some sorted)
  sorts_descending rank down =
      let (sorted, e, ended) = sorted_files-Ended in
      (
        sorted,
        returns_sorted sorted e (
            omega (
              arith,
              ended.between.lengths,
              ap (λ (xs : List Text). length xs) ended.returned,
              zero-unsorted g.files ended.last.sorted (λ f there.
                  Ended-all rank down sorted ended (suc (rank f)) f (omega arith) there),
            )),
      )

  full_length :
      (sorted xs : List Text)
      → sorted_files? g ≡ some xs
      → (if nat_eq (length xs) (length g.files) then some xs else none) ≡ some sorted
      → (sorted_files? g ≡ some sorted) × (length sorted ≡ length g.files)
  full_length sorted xs e h = elim (Bool-cases (nat_eq (length xs) (length g.files))) [
    | inr other ↦ cc (sym (if_false (nat_eq (length xs) (length g.files)) (some xs) none other) ∙ h)
    | inl full ↦
        let same =
          some-injective _ _
            (sym (if_true (nat_eq (length xs) (length g.files)) (some xs) none full) ∙ h) in
        subst (λ ys. (sorted_files? g ≡ some ys) × (length ys ≡ length g.files)) same
          (e, ground arith)
  ]

  -- What a result says of the run that returned it.
  returned-inversion :
      (sorted : List Text)
      → topological_sort g ≡ some sorted
      → (sorted_files? g ≡ some sorted) × (length sorted ≡ length g.files)
  unfolding topological_sort
  returned-inversion sorted h = elim (Option-cases (sorted_files? g)) [
    | inl nothing ↦ cc (rw (nothing, topological_sort) at h)
    | inr (xs, e) ↦ full_length sorted xs e (rw (e, topological_sort) at h)
  ]

  -- If every edge joins files of the graph, and no file is there twice: a result has exactly the files of
  -- the graph, each of them once, and each behind all the files to which its edges lead.
  pub topological_sort_sound :
      (sorted : List Text)
      → topological_sort g ≡ some sorted
      → ((f : Text) → has sorted f ≡ has g.files f) × Distinct sorted × Respects g.edges [] sorted
  topological_sort_sound sorted h =
      let (e, full) = returned-inversion sorted h in
      let (xs, e', ended) = sorted_files-Ended in
      let same = some-injective sorted xs (sym e ∙ e') ∙ ended.returned in
      let b = ended.between in
      let complete = unsorted-zero g.files ended.last.sorted in
      subst (λ ys. ((f : Text) → has ys f ≡ has g.files f) × Distinct ys × Respects g.edges [] ys)
        (sym same)
        (
          λ f. ground (
            arith,
            b.from_files f,
            complete f (omega (arith, b.lengths, full, ap (λ (xs : List Text). length xs) same)),
          ),
          b.sorted_distinct,
          b.respects,
        )
