-- ===== src/Deps/Topological/Rounds.antt =====
-- src/deps.ts: the outer loop of `topologicalSort`.
use mathlib.Core.Path.{subst}
use mathlib.Core.List.{append_assoc, append-nil}
use migraguard.Prelude.{
  ℕ, suc, ◌+◌, ◌≡◌, refl, sym, ap, ◌∙◌, true, false, not, ◌&&◌, some, List, [], ◌∷◌, ◌++◌, foldl,
  arith, if◌then◌else◌, nat_eq, Bool-cases, inl, inr, if_true, All, All-if, and_left, length,
  length-append,
}
use migraguard.Prelude.Text.{Text, ◌==◌, eq_iff, eq_sound, eq_refl}
use migraguard.Prelude.Maps.{has, Distinct, Distinct-snoc, has-append}
use migraguard.Deps.{DependencyEdge, DependencyGraph, children_of, get_or_nil}
use migraguard.Deps.Adjacency.{sources, get_or_nil-children_of}
use migraguard.Deps.Topological.{
  degree, Sorting, release, take_node, sort, start_sorting, in_degrees,
}
use migraguard.Deps.Topological.Queue.{has-sort, Distinct-sort, has-ready, Distinct-ready}
use migraguard.Deps.Topological.Degrees.{
  waiting, waiting-snoc, AreEndpoints, lookup-in_degrees, is_zero_at-in_degrees,
  Distinct-in_degrees,
}
use migraguard.Deps.Topological.Release.{Counting, releases-Counting, releases-sorted}

-- The files that are not sorted yet.
abbrev pub unsorted : List Text → List Text → ℕ
unsorted [] sorted = 0
unsorted (f ∷ fs) sorted = if has sorted f then unsorted fs sorted else suc (unsorted fs sorted)

unsorted-nil : (fs : List Text) → unsorted fs [] ≡ length fs
unfolding has
unsorted-nil [] = refl
unsorted-nil (f ∷ fs) = ap suc (unsorted-nil fs)

unsorted-out :
    (fs sorted : List Text) (x : Text)
    → has fs x ≡ false
    → unsorted fs (sorted ++ x ∷ []) ≡ unsorted fs sorted
unfolding has
unsorted-out [] sorted x h = refl
unsorted-out (f ∷ fs) sorted x h =
    ground (arith, unsorted-out fs sorted x, has-append sorted (x ∷ []) f, eq_iff f x, eq_iff x f)

unsorted-snoc :
    (fs sorted : List Text) (x : Text)
    → Distinct fs
    → has fs x ≡ true
    → has sorted x ≡ false
    → unsorted fs sorted ≡ suc (unsorted fs (sorted ++ x ∷ []))
unfolding has
unsorted-snoc [] sorted x d h n = cc
unsorted-snoc (f ∷ fs) sorted x d h n = elim (Bool-cases (f == x)) [
  | inl same ↦ ground (
    arith,
    unsorted-out fs sorted x,
    has-append sorted (x ∷ []) f,
    eq_iff x f,
    eq_sound f x same,
    ap (has fs) (eq_sound f x same),
    ap (has sorted) (eq_sound f x same),
    d.0,
  )
  | inr other ↦
      ground
        (arith, unsorted-snoc fs sorted x d.1, has-append sorted (x ∷ []) f, eq_iff f x, eq_iff x f)
]

-- All the edges of `x` lead to files of `seen`.
abbrev pub DepsIn : List DependencyEdge → List Text → Text → Type 0
DepsIn es seen x = All (λ e. (e.from == x) ≡ true → has seen e.to ≡ true) es

-- Each file stands behind all the files to which its edges lead.
abbrev pub Respects : List DependencyEdge → List Text → List Text → Type 0
Respects es seen [] = Unit
Respects es seen (x ∷ xs) = DepsIn es seen x × Respects es (seen ++ x ∷ []) xs

DepsIn-waiting :
    (es : List DependencyEdge) (done : List Text) (f : Text)
    → waiting es done f ≡ 0
    → DepsIn es done f
DepsIn-waiting [] done f h = tt
DepsIn-waiting (e ∷ es) done f h = ((λ k. ground arith), DepsIn-waiting es done f (ground arith))

pub Respects-snoc :
    (es : List DependencyEdge) (seen xs : List Text) (x : Text)
    → Respects es seen xs
    → DepsIn es (seen ++ xs) x
    → Respects es seen (xs ++ x ∷ [])
Respects-snoc es seen [] x h k = (subst (λ ys. DepsIn es ys x) (append-nil seen) k, tt)
Respects-snoc es seen (y ∷ ys) x h k = (
  h.0,
  Respects-snoc es (seen ++ y ∷ []) ys x h.1
      (subst (λ zs. DepsIn es zs x) (sym (append_assoc seen (y ∷ []) ys)) k),
)

All-sources :
    (files : List Text) (t : Text) (es : List DependencyEdge)
    → AreEndpoints files es
    → All (λ c. has files c ≡ true) (sources t es)
All-sources files t [] h = tt
All-sources files t (e ∷ es) h =
    All-if (λ c. has files c ≡ true) (e.to == t) e.from (sources t es) (and_left _ _ h.0)
      (All-sources files t es h.1)

module _ (g : DependencyGraph) (ends : AreEndpoints g.files g.edges)
    (distinct : Distinct g.files) where
  -- Between two rounds.
  pub record Between (s : Sorting) : Type 0 where
    pub counting : Counting g.files (waiting g.edges s.sorted) [] s
    pub sorted_distinct : Distinct s.sorted
    pub from_files : (f : Text) → has s.sorted f ≡ true → has g.files f ≡ true
    pub respects : Respects g.edges [] s.sorted
    pub lengths : length g.files ≡ length s.sorted + unsorted g.files s.sorted

  -- The file at the head of the sorted queue.
  head_facts :
      (s : Sorting) (node : Text) (rest : List Text)
      → Between s
      → sort s.queue ≡ node ∷ rest
      → (has g.files node ≡ true)
        × (has s.sorted node ≡ false)
        × (waiting g.edges s.sorted node ≡ 0)
  unfolding has
  head_facts s node rest h e =
      let queued : has s.queue node ≡ true =
        sym (has-sort s.queue node)
        ∙ ap (λ (q : List Text). has q node) e
        ∙ ground (arith, eq_refl node) in
      let means = sym (h.counting.queued node) ∙ queued in
      (ground arith, ground arith, ground arith)

  -- The queue behind its head, with the head as sorted.
  rest_queued :
      (s : Sorting) (node : Text) (rest : List Text) (f : Text)
      → Between s
      → sort s.queue ≡ node ∷ rest
      → has rest f ≡ (
          has g.files f
          && (nat_eq (waiting g.edges s.sorted f) 0 && not (has (s.sorted ++ node ∷ []) f)))
  unfolding has
  rest_queued s node rest f h e =
      let parts =
        sym (ap (λ (q : List Text). has q f) e) ∙ has-sort s.queue f ∙ h.counting.queued f in
      let unique = subst Distinct e (Distinct-sort s.queue h.counting.distinct) in
      ground (
        arith,
        parts,
        has-append s.sorted (node ∷ []) f,
        unique.0,
        eq_sound node f,
        head_facts s node rest h e,
      )

  take_node-Counting :
      (s : Sorting) (node : Text) (rest : List Text)
      → Between s
      → sort s.queue ≡ node ∷ rest
      → Counting g.files
          (waiting g.edges (s.sorted ++ node ∷ []))
          (sources node g.edges)
          (record s { queue = rest; sorted = s.sorted ++ node ∷ [] })
  unfolding has
  take_node-Counting s node rest h e =
      let (there, free, ready_now) = head_facts s node rest h e in
      let fewer = λ (f : Text). waiting-snoc g.edges s.sorted node f free in
      record {
        degrees =
            λ f k. h.counting.degrees f k ∙ ap (λ n. some (degree n)) (omega (arith, fewer f));
        queued = λ f.
            rest_queued s node rest f h e
            ∙ ap (λ n. has g.files f && (nat_eq n 0 && not (has (s.sorted ++ node ∷ []) f)))
                (fewer f);
        distinct = (subst Distinct e (Distinct-sort s.queue h.counting.distinct)).1;
        done = λ f k. ground (
          arith,
          fewer f,
          h.counting.done f,
          has-append s.sorted (node ∷ []) f,
          eq_sound node f,
          ready_now,
        );
      }

  pub take_node-Between :
      (s : Sorting) (node : Text) (rest : List Text)
      → Between s
      → sort s.queue ≡ node ∷ rest
      → Between (take_node g node rest s)
  unfolding take_node has
  take_node-Between s node rest h e =
      let (there, free, ready_now) = head_facts s node rest h e in
      let children : get_or_nil node (children_of g) ≡ sources node g.edges =
        get_or_nil-children_of g node ∙ if_true (has g.files node) _ _ there in
      let same =
        releases-sorted (sources node g.edges)
          (record s { queue = rest; sorted = s.sorted ++ node ∷ [] }) in
      let released =
        releases-Counting g.files (waiting g.edges (s.sorted ++ node ∷ [])) (sources node g.edges)
          (record s { queue = rest; sorted = s.sorted ++ node ∷ [] })
          (All-sources g.files node g.edges ends) (take_node-Counting s node rest h e) in
      subst
        (λ cs.
          Between (foldl release (record s { queue = rest; sorted = s.sorted ++ node ∷ [] }) cs))
        (sym children)
        (record {
          counting =
              subst
                (λ done. Counting g.files (waiting g.edges done) [] (
                  foldl release (record s { queue = rest; sorted = s.sorted ++ node ∷ [] })
                    (sources node g.edges)))
                (sym same) released;
          sorted_distinct =
              subst Distinct (sym same) (Distinct-snoc s.sorted node h.sorted_distinct free);
          from_files = λ f k. ground (
            arith,
            ap (λ (xs : List Text). has xs f) same,
            has-append s.sorted (node ∷ []) f,
            eq_sound node f,
            there,
            h.from_files f,
          );
          respects = subst (Respects g.edges []) (sym same) (
              Respects-snoc g.edges [] s.sorted node h.respects
                (DepsIn-waiting g.edges s.sorted node ready_now));
          lengths =
              subst (λ xs. length g.files ≡ length xs + unsorted g.files xs) (sym same)
                (omega (
                  arith,
                  h.lengths,
                  unsorted-snoc g.files s.sorted node distinct there free,
                  length-append s.sorted (node ∷ []),
                ));
        })

  pub start-Between : Between (start_sorting g)
  unfolding start_sorting has
  start-Between = record {
    counting = record {
      degrees = λ f k. lookup-in_degrees g f k ∙ ap (λ n. some (degree n)) (omega arith);
      queued = λ f.
          has-ready (in_degrees g) f (Distinct-in_degrees g)
          ∙ is_zero_at-in_degrees g f ends
          ∙ ground arith;
      distinct = Distinct-ready (in_degrees g) (Distinct-in_degrees g);
      done = λ f k. cc;
    };
    sorted_distinct = tt;
    from_files = λ f k. cc;
    respects = tt;
    lengths = omega (arith, unsorted-nil g.files);
  }

  pub take_node-sorted :
      (s : Sorting) (node : Text) (rest : List Text)
      → (take_node g node rest s).sorted ≡ s.sorted ++ node ∷ []
  unfolding take_node
  take_node-sorted s node rest =
      releases-sorted (get_or_nil node (children_of g))
        (record s { queue = rest; sorted = s.sorted ++ node ∷ [] })
