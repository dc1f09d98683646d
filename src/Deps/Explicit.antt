-- ===== src/Deps/Explicit.antt =====
-- src/deps.ts: dependencies that a comment or the configuration names.
pub mod Written
use migraguard.Prelude.{
  ℕ, Bool, true, false, Option, none, some, List, [], ◌∷◌, map, nat_eq, if◌then◌else◌, find,
}
use migraguard.Prelude.Text.{Text, codes, ◌==◌}
use migraguard.Naming.{Phase, phase_name, all_phases}
use migraguard.Directives.{directives, word_at}
use migraguard.Deps.Build.{ExplicitDep}

-- The parts before and behind the last colon.
unfoldable pub split_last_colon : Text → Option (Text × Text)
split_last_colon [] = none
split_last_colon (c ∷ s) = elim (split_last_colon s) [
  | some (path, phase) ↦ some (c ∷ path, phase)
  | none ↦ if nat_eq c 58 then some ([], s) else none
]

-- The phase of a name in VALID_PHASES.
abbrev pub valid_phase : Text → Option Phase
valid_phase name = find (λ p. phase_name p == name) all_phases

abbrev phased : Text → Text → Option Phase → ExplicitDep
phased raw path none = record { target = raw; phase = none }
phased raw path (some p) = record { target = path; phase = some p }

abbrev split_phase : Text → Option (Text × Text) → ExplicitDep
split_phase raw none = record { target = raw; phase = none }
split_phase raw (some (path, name)) =
    if path == [] then record { target = raw; phase = none } else phased raw path (valid_phase name)

-- What one match of DEPENDS_ON_PATTERN says.
unfoldable pub to_explicit_dep : Text → ExplicitDep
unfolding split_last_colon
to_explicit_dep raw = split_phase raw (split_last_colon raw)

-- DEPENDS_ON_PATTERN
abbrev pub depends_on : Text
depends_on = codes "migraguard:depends-on"

unfoldable pub parse_explicit_deps_from_sql : Text → List ExplicitDep
unfolding directives to_explicit_dep
parse_explicit_deps_from_sql sql = map to_explicit_dep (directives depends_on word_at 0 true sql)

unfoldable pub parse_explicit_dep_targets_from_sql : Text → List Text
unfolding parse_explicit_deps_from_sql
parse_explicit_dep_targets_from_sql sql = map (λ d. d.target) (parse_explicit_deps_from_sql sql)
