-- ===== src/Deps/Topological/Release.antt =====
-- src/deps.ts: the inner loop of `topologicalSort`.
use mathlib.Core.Path.{subst}
use migraguard.Prelude.{
  zero, ℕ, suc, ◌+◌, ◌≡◌, refl, sym, ap, ◌∙◌, Bool, true, false, not, ◌&&◌, ◌||◌, some, List, [],
  ◌∷◌, ◌++◌, foldl, arith, if◌then◌else◌, nat_eq, Bool-cases, inl, inr, if_true, if_false, All,
}
use migraguard.Prelude.Text.{Text, ◌==◌, eq_sound, eq_refl}
use migraguard.Prelude.Maps.{
  has, Distinct, Distinct-snoc, has-append, lookup, insert, lookup-insert,
}
use migraguard.Deps.Topological.{Degree, degree, lower, is_zero, degree_or, Sorting, release}
use migraguard.Deps.Topological.Degrees.{count}

-- The state between two files of the inner loop: `left` counts the edges that stay, `cs` are the
-- children that are still to come.
pub record Counting (files : List Text) (left : Text → ℕ) (cs : List Text) (s : Sorting)
    : Type 0 where
  pub degrees :
      (f : Text) → has files f ≡ true → lookup f s.in_degree ≡ some (degree (left f + count cs f))
  pub queued :
      (f : Text)
      → has s.queue f ≡ (has files f && (nat_eq (left f + count cs f) 0 && not (has s.sorted f)))
  pub distinct : Distinct s.queue
  pub done : (f : Text) → has s.sorted f ≡ true → left f + count cs f ≡ 0

release-sorted : (s : Sorting) (c : Text) → (release s c).sorted ≡ s.sorted
unfolding release
release-sorted s c = refl

pub releases-sorted : (cs : List Text) (s : Sorting) → (foldl release s cs).sorted ≡ s.sorted
releases-sorted [] s = refl
releases-sorted (c ∷ cs) s = releases-sorted cs (release s c) ∙ release-sorted s c

-- The state after a file's degree was set.
abbrev with_degree : Text → Degree → Sorting → Sorting
with_degree c d s = record s {
  in_degree = insert c d s.in_degree;
  queue = if is_zero d then s.queue ++ c ∷ [] else s.queue;
}

is_zero-degree : (n : ℕ) → is_zero (degree n) ≡ nat_eq n 0
is_zero-degree zero = refl
is_zero-degree (suc n) = ground arith

Distinct-if :
    (b : Bool) (c : Text) (q : List Text)
    → Distinct q
    → has q c ≡ false
    → Distinct (if b then q ++ c ∷ [] else q)
Distinct-if true c q d h = Distinct-snoc q c d h
Distinct-if false c q d h = d

has-if :
    (b : Bool) (c : Text) (q : List Text) (f : Text)
    → has (if b then q ++ c ∷ [] else q) f ≡ (has q f || (b && (c == f)))
unfolding has
has-if true c q f = ground (arith, has-append q (c ∷ []) f)
has-if false c q f = ground arith

module _ (files : List Text) (left : Text → ℕ) where
  not_queued :
      (c : Text) (cs : List Text) (s : Sorting)
      → Counting files left (c ∷ cs) s
      → (has s.queue c ≡ false) × (has s.sorted c ≡ false)
  not_queued c cs s h = (ground (arith, h.queued c, eq_refl c), ground (arith, h.done c, eq_refl c))

  with_degree-Counting :
      (c : Text) (cs : List Text) (s : Sorting)
      → has files c ≡ true
      → Counting files left (c ∷ cs) s
      → Counting files left cs (with_degree c (degree (left c + count cs c)) s)
  with_degree-Counting c cs s there h =
      let n = left c + count cs c in
      let (fresh, open_) = not_queued c cs s h in
      record {
        degrees = λ f k. elim (Bool-cases (c == f)) [
          | inl same ↦
              lookup-insert c f (degree n) s.in_degree
              ∙ if_true (c == f) _ _ same
              ∙ ap (λ x. some (degree (left x + count cs x))) (eq_sound c f same)
          | inr other ↦
              lookup-insert c f (degree n) s.in_degree
              ∙ if_false (c == f) _ _ other
              ∙ h.degrees f k
              ∙ ap (λ k. some (degree k)) (ground arith)
        ];
        queued = λ f. elim (Bool-cases (c == f)) [
          | inl same ↦ ground (
            arith,
            has-if (is_zero (degree n)) c s.queue f,
            is_zero-degree n,
            fresh,
            open_,
            there,
            ap (has files) (eq_sound c f same),
            ap (has s.sorted) (eq_sound c f same),
            ap (has s.queue) (eq_sound c f same),
            ap left (eq_sound c f same),
            ap (count cs) (eq_sound c f same),
          )
          | inr other ↦ ground (arith, has-if (is_zero (degree n)) c s.queue f, h.queued f)
        ];
        distinct = Distinct-if (is_zero (degree n)) c s.queue h.distinct fresh;
        done = λ f k. ground (arith, h.done f k);
      }

  release-Counting :
      (c : Text) (cs : List Text) (s : Sorting)
      → has files c ≡ true
      → Counting files left (c ∷ cs) s
      → Counting files left cs (release s c)
  unfolding release
  release-Counting c cs s there h =
      let at_c : lookup c s.in_degree ≡ some (degree (suc (left c + count cs c))) =
        h.degrees c there ∙ ap (λ k. some (degree k)) (ground (arith, eq_refl c)) in
      subst (λ d. Counting files left cs (with_degree c d s))
        (sym (ap (λ o. lower (degree_or (degree 1) o)) at_c)) (with_degree-Counting c cs s there h)

  pub releases-Counting :
      (cs : List Text) (s : Sorting)
      → All (λ c. has files c ≡ true) cs
      → Counting files left cs s
      → Counting files left [] (foldl release s cs)
  releases-Counting [] s there h = h
  releases-Counting (c ∷ cs) s there h =
      releases-Counting cs (release s c) there.1 (release-Counting c cs s there.0 h)
