-- ===== src/Deps/Topological/Queue.antt =====
-- src/deps.ts: the queue of `topologicalSort` and the files that start in it.
use migraguard.Prelude.{
  ◌∙◌, ◌≡◌, refl, Bool, true, false, ◌||◌, Option, none, some, List, [], ◌∷◌, arith, if◌then◌else◌,
}
use migraguard.Prelude.Text.{Text, ◌==◌, text_lt, eq_iff}
use migraguard.Prelude.Maps.{has, Distinct, lookup, keys}
use migraguard.Deps.Topological.{Degree, is_zero, insert_sorted, sort, ready}

has-insert_sorted :
    (x : Text) (ys : List Text) (f : Text) → has (insert_sorted x ys) f ≡ ((x == f) || has ys f)
unfolding insert_sorted has
has-insert_sorted x [] f = ground arith
has-insert_sorted x (y ∷ ys) f = ground (arith, has-insert_sorted x ys f)

pub has-sort : (xs : List Text) (f : Text) → has (sort xs) f ≡ has xs f
unfolding sort has
has-sort [] f = refl
has-sort (x ∷ xs) f = ground (arith, has-sort xs f, has-insert_sorted x (sort xs) f)

Distinct-if :
    (b : Bool) (xs ys : List Text) → Distinct xs → Distinct ys → Distinct (if b then xs else ys)
Distinct-if true xs ys p q = p
Distinct-if false xs ys p q = q

Distinct-insert_sorted :
    (x : Text) (ys : List Text) → Distinct ys → has ys x ≡ false → Distinct (insert_sorted x ys)
unfolding insert_sorted has
Distinct-insert_sorted x [] d h = (refl, tt)
Distinct-insert_sorted x (y ∷ ys) d h =
    Distinct-if (text_lt y x) (y ∷ insert_sorted x ys) (x ∷ y ∷ ys)
      (
        ground (arith, has-insert_sorted x ys y, eq_iff x y, eq_iff y x, d.0),
        Distinct-insert_sorted x ys d.1 (ground arith),
      )
      (h, d)

pub Distinct-sort : (xs : List Text) → Distinct xs → Distinct (sort xs)
unfolding sort
Distinct-sort [] d = tt
Distinct-sort (x ∷ xs) d =
    Distinct-insert_sorted x (sort xs) (Distinct-sort xs d.1) (has-sort xs x ∙ d.0)

-- The degree of a file is there and zero.
abbrev pub is_zero_at : Option Degree → Bool
is_zero_at none = false
is_zero_at (some d) = is_zero d

has-lookup :
    (f : Text) (m : List (Text × Degree)) → has (keys m) f ≡ false → is_zero_at (lookup f m) ≡ false
unfolding has lookup
has-lookup f [] h = refl
has-lookup f (entry ∷ m) h = ground (arith, has-lookup f m)

pub has-ready :
    (m : List (Text × Degree)) (f : Text)
    → Distinct (keys m)
    → has (ready m) f ≡ is_zero_at (lookup f m)
unfolding ready lookup has
has-ready [] f d = refl
has-ready ((k, e) ∷ m) f d = ground (arith, has-ready m f d.1, has-lookup f m, eq_iff k f, d.0)

ready-keys :
    (m : List (Text × Degree)) (f : Text) → has (keys m) f ≡ false → has (ready m) f ≡ false
unfolding ready has
ready-keys [] f h = refl
ready-keys ((k, e) ∷ m) f h = ground (arith, ready-keys m f)

pub Distinct-ready : (m : List (Text × Degree)) → Distinct (keys m) → Distinct (ready m)
unfolding ready
Distinct-ready [] d = tt
Distinct-ready ((k, e) ∷ m) d =
    Distinct-if (is_zero e) (k ∷ ready m) (ready m) (ready-keys m k d.0, Distinct-ready m d.1)
      (Distinct-ready m d.1)
