-- ===== src/Deps/Explicit/Written.antt =====
-- src/deps.ts: how an explicit dependency is written as a comment.
use mathlib.Core.List.{append_assoc, append-nil}
use migraguard.Prelude.{
  ◌≡◌, refl, sym, ap, ◌∙◌, Bool, true, false, not, Option, none, some, List, [], ◌∷◌, ◌++◌, length,
  length-append, map, every, nat_eq, All, arith,
}
use migraguard.Prelude.Text.{Text, codes, ◌==◌, strip_prefix}
use migraguard.Naming.{Phase, expand, backfill, switch, contract, phase_name}
use migraguard.Directives.{directives, directive_at, word_at, skip_spaces}
use migraguard.Directives.Lines.{has_no_space, word_at-append, skip_spaces-append, directives-line}
use migraguard.Deps.Build.{ExplicitDep}
use migraguard.Deps.Explicit.{
  split_last_colon, to_explicit_dep, depends_on, parse_explicit_deps_from_sql,
}

abbrev pub suffix : Option Phase → Text
suffix none = []
suffix (some p) = codes ":" ++ phase_name p

abbrev pub written : ExplicitDep → Text
written dep = dep.target ++ suffix dep.phase

abbrev pub dep_line : ExplicitDep → Text
dep_line dep = codes "-- migraguard:depends-on " ++ written dep ++ codes "\n"

abbrev pub dep_lines : List ExplicitDep → Text
dep_lines [] = []
dep_lines (dep ∷ deps) = dep_line dep ++ dep_lines deps

abbrev has_no_colon : Text → Bool
has_no_colon s = every (λ c. not (nat_eq c 58)) s

abbrev needs_no_colon : Option Phase → Text → Bool
needs_no_colon none target = has_no_colon target
needs_no_colon (some p) target = true

-- A target is a word; without a phase it has no colon.
abbrev pub IsWritable : ExplicitDep → Type 0
IsWritable dep =
    ((dep.target == []) ≡ false)
    × (has_no_space dep.target ≡ true)
    × (needs_no_colon dep.phase dep.target ≡ true)

split_last_colon-none : (s : Text) → has_no_colon s ≡ true → split_last_colon s ≡ none
unfolding split_last_colon
split_last_colon-none [] h = refl
split_last_colon-none (c ∷ s) h = ground (arith, split_last_colon-none s)

split_last_colon-append :
    (s t : Text) → has_no_colon t ≡ true → split_last_colon (s ++ 58 ∷ t) ≡ some (s, t)
unfolding split_last_colon
split_last_colon-append [] t h = rw (split_last_colon-none t h, split_last_colon) refl
split_last_colon-append (c ∷ s) t h = rw (split_last_colon-append s t h, split_last_colon) refl

to_explicit_dep-none :
    (raw : Text)
    → split_last_colon raw ≡ none
    → to_explicit_dep raw ≡ record { target = raw; phase = none }
unfolding to_explicit_dep
to_explicit_dep-none raw h = rw h refl

to_explicit_dep-written :
    (target : Text) (phase : Option Phase)
    → IsWritable (record { target = target; phase = phase })
    → to_explicit_dep (written (record { target = target; phase = phase }))
      ≡ record { target = target; phase = phase }
unfolding to_explicit_dep ◌==◌
to_explicit_dep-written [] phase h = cc h.0
to_explicit_dep-written (c ∷ s) none h =
    ap to_explicit_dep (append-nil (c ∷ s))
    ∙ to_explicit_dep-none (c ∷ s) (split_last_colon-none (c ∷ s) h.2)
to_explicit_dep-written (c ∷ s) (some expand) h =
    rw (split_last_colon-append (c ∷ s) (codes "expand") refl) refl
to_explicit_dep-written (c ∷ s) (some backfill) h =
    rw (split_last_colon-append (c ∷ s) (codes "backfill") refl) refl
to_explicit_dep-written (c ∷ s) (some switch) h =
    rw (split_last_colon-append (c ∷ s) (codes "switch") refl) refl
to_explicit_dep-written (c ∷ s) (some contract) h =
    rw (split_last_colon-append (c ∷ s) (codes "contract") refl) refl

directive_at-dep :
    (v t : Text)
    → has_no_space v ≡ true
    → (v == []) ≡ false
    → directive_at depends_on word_at (codes "-- migraguard:depends-on " ++ (v ++ 10 ∷ t))
      ≡ some (v, length (codes "-- migraguard:depends-on " ++ v))
unfolding directive_at strip_prefix skip_spaces
directive_at-dep v t h e =
    rw (skip_spaces-append v (10 ∷ t) h e, word_at-append v t h, e)
      (ap (λ n. some (v, n)) (omega (arith, length-append v (10 ∷ t))))

has_no_space-append :
    (s t : Text) → has_no_space s ≡ true → has_no_space t ≡ true → has_no_space (s ++ t) ≡ true
has_no_space-append [] t h k = k
has_no_space-append (c ∷ s) t h k = ground (arith, has_no_space-append s t)

has_no_space-suffix : (p : Option Phase) → has_no_space (suffix p) ≡ true
has_no_space-suffix none = refl
has_no_space-suffix (some expand) = refl
has_no_space-suffix (some backfill) = refl
has_no_space-suffix (some switch) = refl
has_no_space-suffix (some contract) = refl

append-not_nil : (s t : Text) → (s == []) ≡ false → (s ++ t == []) ≡ false
unfolding ◌==◌
append-not_nil [] t h = cc
append-not_nil (c ∷ s) t h = refl

dep_line-append :
    (dep : ExplicitDep) (rest : Text)
    → dep_line dep ++ rest ≡ codes "-- migraguard:depends-on " ++ (written dep ++ 10 ∷ rest)
dep_line-append dep rest =
    append_assoc (codes "-- migraguard:depends-on " ++ written dep) (codes "\n") rest
    ∙ append_assoc (codes "-- migraguard:depends-on ") (written dep) (10 ∷ rest)

directives-dep_line :
    (dep : ExplicitDep) (rest : Text)
    → IsWritable dep
    → directives depends_on word_at 0 true (dep_line dep ++ rest)
      ≡ written dep ∷ directives depends_on word_at 0 true rest
directives-dep_line dep rest h =
    let v = written dep in
    rw (dep_line-append dep rest) (
      rw (sym (append_assoc (codes "-- migraguard:depends-on ") v (10 ∷ rest))) (
        directives-line depends_on word_at 45 (codes "- migraguard:depends-on " ++ v) rest v (
          rw (append_assoc (codes "-- migraguard:depends-on ") v (10 ∷ rest)) (
            directive_at-dep v rest
              (has_no_space-append dep.target (suffix dep.phase) h.1
                (has_no_space-suffix dep.phase))
              (append-not_nil dep.target (suffix dep.phase) h.0)))))

-- Explicit dependencies whose targets are words, without a colon where there is no phase, are
-- read back in order from the comments that name them, one to a line, before what the rest of the
-- text says.
pub parse_explicit_deps-dep_lines :
    (deps : List ExplicitDep) (rest : Text)
    → All IsWritable deps
    → parse_explicit_deps_from_sql (dep_lines deps ++ rest)
      ≡ deps ++ parse_explicit_deps_from_sql rest
unfolding parse_explicit_deps_from_sql
parse_explicit_deps-dep_lines [] rest h = refl
parse_explicit_deps-dep_lines (dep ∷ deps) rest h =
    ap (map to_explicit_dep) (
      ap (directives depends_on word_at 0 true) (append_assoc (dep_line dep) (dep_lines deps) rest)
      ∙ directives-dep_line dep (dep_lines deps ++ rest) h.0)
    ∙ (λ i.
        to_explicit_dep-written dep.target dep.phase h.0 i
        ∷ parse_explicit_deps-dep_lines deps rest h.1 i)
