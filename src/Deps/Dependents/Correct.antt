-- ===== src/Deps/Dependents/Correct.antt =====
-- `findTransitiveDependents` against walks of edges.
use mathlib.Core.Path.{subst}
use mathlib.Core.Bool.{So-prop}
use mathlib.Core.Logic.{∥∥₁_elim}
use migraguard.Prelude.{
  ℕ, zero, suc, ◌+◌, ◌≤◌, ◌<◌, ◌≡◌, refl, ap, sym, ◌∙◌, Bool, true, false, not, ◌&&◌, ◌||◌, ◌⊎◌,
  ◌↔◌, inl, inr, some, List, [], ◌∷◌, foldl, length, arith, if◌then◌else◌, List-cases,
}
use migraguard.Prelude.Text.{Text, ◌==◌, eq_iff, eq_refl}
use migraguard.Prelude.Maps.{has, add, has-add}
use migraguard.Deps.{DependencyEdge, DependencyGraph, has_edge, children_of, get_or_nil}
use migraguard.Deps.Adjacency.{child_of, has-children_of}
use migraguard.Deps.Dependents.{
  Search, offer, expand_node, search_loop, transitive_dependents?, find_transitive_dependents,
}

-- The files that depend on `target`, over any number of edges.
pub data Depends (g : DependencyGraph) (target : Text) : Text → Type 0 where
  direct : {f : Text} → child_of g f target ≡ true → Depends g target f
  indirect : {m f : Text} → Depends g target m → child_of g f m ≡ true → Depends g target f

has-result-offer :
    (s : Search) (c f : Text) → has (offer s c).result f ≡ (has s.result f || (c == f))
unfolding offer
has-result-offer s c f = ground (arith, has-add c s.result f, eq_iff c f)

has-queue-offer :
    (s : Search) (c f : Text)
    → has (offer s c).queue f ≡ (has s.queue f || ((c == f) && not (has s.result f)))
unfolding offer has
has-queue-offer s c f = ground (arith, eq_iff c f)

has-result-offers :
    (s : Search) (cs : List Text) (f : Text)
    → has (foldl offer s cs).result f ≡ (has s.result f || has cs f)
unfolding has
has-result-offers s [] f = ground arith
has-result-offers s (c ∷ cs) f =
    ground (arith, has-result-offers (offer s c) cs f, has-result-offer s c f)

has-queue-offers :
    (s : Search) (cs : List Text) (f : Text)
    → has (foldl offer s cs).queue f ≡ (has s.queue f || (has cs f && not (has s.result f)))
unfolding has
has-queue-offers s [] f = ground arith
has-queue-offers s (c ∷ cs) f =
    ground (arith, has-queue-offers (offer s c) cs f, has-queue-offer s c f, has-result-offer s c f)

-- The edges whose start is not in the result yet.
abbrev unseen : List DependencyEdge → List Text → ℕ
unseen [] seen = 0
unseen (e ∷ es) seen = if has seen e.from then unseen es seen else suc (unseen es seen)

unseen-nil : (es : List DependencyEdge) → unseen es [] ≡ length es
unfolding has
unseen-nil [] = refl
unseen-nil (e ∷ es) = ap suc (unseen-nil es)

unseen-add-le :
    (es : List DependencyEdge) (c : Text) (seen : List Text)
    → unseen es (add c seen) ≤ unseen es seen
unseen-add-le [] c seen = omega arith
unseen-add-le (e ∷ es) c seen = ground (arith, unseen-add-le es c seen, has-add c seen e.from)

-- A start of an edge that is new is counted no more.
unseen-add-lt :
    (es : List DependencyEdge) (c t : Text) (seen : List Text)
    → has seen c ≡ false
    → has_edge es c t ≡ true
    → unseen es (add c seen) < unseen es seen
unseen-add-lt [] c t seen n h = cc
unseen-add-lt (e ∷ es) c t seen n h = ground (
  arith,
  unseen-add-lt es c t seen n,
  unseen-add-le es c seen,
  has-add c seen e.from,
  eq_iff c e.from,
  eq_iff e.from c,
)

not-waiting : (t : Search) → t.queue ≡ [] → (x : Text) → has t.queue x ≡ true → ⊥
unfolding has
not-waiting t e x h = ground (arith, ap (λ (q : List Text). has q x) e)

or_cases : (a b : Bool) → (a || b) ≡ true → (a ≡ true) ⊎ (b ≡ true)
or_cases a b h = ground arith

module _ (g : DependencyGraph) where
  abbrev work : Search → ℕ
  work s = unseen g.edges s.result + length s.queue

  work-offer : (s : Search) (c t : Text) → has_edge g.edges c t ≡ true → work (offer s c) ≤ work s
  unfolding offer
  work-offer s c t h = ground (arith, unseen-add-lt g.edges c t s.result)

  work-offers :
      (s : Search) (cs : List Text) (t : Text)
      → ((c : Text) → has cs c ≡ true → has_edge g.edges c t ≡ true)
      → work (foldl offer s cs) ≤ work s
  unfolding has
  work-offers s [] t h = omega arith
  work-offers s (c ∷ cs) t h = omega (
    arith,
    work-offer s c t (h c (rw eq_refl)),
    work-offers (offer s c) cs t (λ x k. h x (ground arith)),
  )

  edge-of_child :
      (u c : Text) → has (get_or_nil u (children_of g)) c ≡ true → has_edge g.edges c u ≡ true
  edge-of_child u c h = ground (arith, has-children_of g c u)

  -- Enough fuel is given.
  search_loop-ends :
      (fuel : ℕ) (s : Search)
      → work s < fuel
      → (result : List Text) × (search_loop g fuel s ≡ some result)
  unfolding search_loop expand_node
  search_loop-ends zero s h = absurd (omega arith)
  search_loop-ends (suc fuel) s h = elim (List-cases s.queue) [
    | inl empty ↦ (s.result, rw (empty, search_loop) refl)
    | inr (u, rest, e) ↦
        let kept =
          work-offers (record s { queue = rest }) (get_or_nil u (children_of g)) u
            (edge-of_child u) in
        let (result, ends) =
          search_loop-ends fuel (expand_node g u rest s) (omega (arith, ap length e)) in
        (result, rw (e, search_loop) ends)
  ]

  module _ (target : Text) where
    record Inv (s : Search) : Type 0 where
      sound : (f : Text) → has s.result f ≡ true → Depends g target f
      queued : (u : Text) → has s.queue u ≡ true → (u ≡ target) ⊎ (has s.result u ≡ true)
      closed :
          (u f : Text)
          → (u ≡ target) ⊎ (has s.result u ≡ true)
          → child_of g f u ≡ true
          → (has s.queue u ≡ true) ⊎ (has s.result f ≡ true)

    -- A child of a file that was reached is reached.
    Depends-child :
        (s : Search) (u f : Text)
        → Inv s
        → (u ≡ target) ⊎ (has s.result u ≡ true)
        → child_of g f u ≡ true
        → Depends g target f
    Depends-child s u f h (inl start) c = direct (subst (λ x. child_of g f x ≡ true) start c)
    Depends-child s u f h (inr reached) c = indirect (h.sound u reached) c

    Inv-expand :
        (s : Search) (u : Text) (rest : List Text)
        → s.queue ≡ u ∷ rest
        → Inv s
        → Inv (expand_node g u rest s)
    unfolding expand_node has
    Inv-expand s u rest e h =
        let s' : Search = record s { queue = rest } in
        let cs = get_or_nil u (children_of g) in
        let flags = λ (f : Text). has-result-offers s' cs f in
        let waits = λ (f : Text). has-queue-offers s' cs f in
        let child = λ (f : Text). has-children_of g f u in
        let front = λ (x : Text). ap (λ (q : List Text). has q x) e in
        let to_u = h.queued u (front u ∙ rw (eq_refl u) refl) in
        record {
          sound = λ f m. elim (or_cases _ _ (sym (flags f) ∙ m)) [
            | inl old ↦ h.sound f old
            | inr new ↦ Depends-child s u f h to_u (sym (child f) ∙ new)
          ];
          queued = λ x q. ground (arith, flags x, waits x, h.queued x, front x);
          closed = λ x f m c.
              ground (arith, flags x, flags f, waits x, child f, h.closed x f, front x, eq_iff u x);
        }

    Inv-start : Inv (record { result = []; queue = target ∷ [] })
    unfolding has
    Inv-start = record {
      sound = λ f m. cc;
      queued = λ u q. inl (ground (arith, eq_iff target u));
      closed = λ u f m c. inl (ground (arith, eq_iff target u));
    }

    loop_rule :
        (fuel : ℕ) (s : Search) (result : List Text)
        → Inv s
        → search_loop g fuel s ≡ some result
        → (t : Search) × Inv t × (t.queue ≡ []) × (t.result ≡ result)
    unfolding search_loop
    loop_rule zero s result h e = cc
    loop_rule (suc fuel) s result h e = elim (List-cases s.queue) [
      | inl empty ↦ (s, h, empty, ground arith)
      | inr (u, rest, q) ↦
          loop_rule fuel (expand_node g u rest s) result (Inv-expand s u rest q h)
            (rw (q, search_loop) at e)
    ]

    complete :
        (t : Search)
        → Inv t
        → t.queue ≡ []
        → {f : Text} → Depends g target f
        → has t.result f ≡ true
    complete t h e (direct {f} c) = elim (h.closed target f (inl refl) c) [
      | inl waiting ↦ absurd (not-waiting t e target waiting)
      | inr m ↦ m
    ]
    complete t h e (indirect {m} {f} p c) = elim (h.closed m f (inr (complete t h e p)) c) [
      | inl waiting ↦ absurd (not-waiting t e m waiting)
      | inr m ↦ m
    ]

  -- The search returns within its fuel, and a file is in the result exactly if a walk of one or more
  -- edges leads from it to the target, each edge to a file of the graph.
  pub transitive_dependents_correct :
      (target : Text)
      → (result : List Text) × (transitive_dependents? g target ≡ some result)
        × (find_transitive_dependents g target ≡ result)
        × ((f : Text) → (has result f ≡ true) ↔ ∥ Depends g target f ∥₁)
  unfolding transitive_dependents? find_transitive_dependents
  transitive_dependents_correct target =
      let start : Search = record { result = []; queue = target ∷ [] } in
      let (result, ends) =
        search_loop-ends (suc (suc (length g.edges))) start (omega (arith, unseen-nil g.edges)) in
      let (t, inv, empty, same) =
        loop_rule target (suc (suc (length g.edges))) start result (Inv-start target) ends in
      (
        result,
        ends,
        ground arith,
        λ f. (
          λ m. ∣ inv.sound f (ap (λ (r : List Text). has r f) same ∙ m) ∣₁,
          λ walk.
              ∥∥₁_elim walk (So-prop _)
                (λ p. sym (ap (λ (r : List Text). has r f) same) ∙ complete target t inv empty p),
        ),
      )
