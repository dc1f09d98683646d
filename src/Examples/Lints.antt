-- ===== src/Examples/Lints.antt =====
-- src/rules and src/commands/lint.ts: the linter on small parse trees.
use migraguard.Prelude.{All, none, ◌≡◌, refl, ◌↔◌, true, some, List, [], ◌∷◌, ◌++◌, keep, map}
use migraguard.Prelude.Text.{codes, ◌==◌, strip_prefix}
use migraguard.Prelude.Maps.{has, add, lookup}
use migraguard.Ast.{
  Json, array, object, Items, empty, item, end, field_at, list_of, SqlParser, rejected,
}
use migraguard.Lint.Engine.{run_rules}
use migraguard.Lint.Engine.Allowed.{allow_lines, allowed_silent}
use migraguard.Lint.Engine.Isolated.{rules_isolated}
use migraguard.Lint.Rules.{all_rules}
use migraguard.Lint.Rules.Drops.{ban_truncate}
use migraguard.Lint.Rules.Timeouts.{require_lock_timeout, require_analyze_after_index}
use migraguard.Lint.Rules.Views.{require_concurrent_index}
use migraguard.Generic.Parser.{postgresql}
use migraguard.Lint.Command.{LintEnv, warn, off, command_lint}
use migraguard.Lint.Command.Passes.{file_errors, lint_passes}
use migraguard.Examples.ApplyRuns.{safe_file}
use migraguard.Examples.Statements.{one, range_named}

abbrev statements : List Json → Items
statements [] = empty
statements (s ∷ rest) = item (one (codes "stmt") s) (statements rest)

-- CREATE TABLE t (); CREATE INDEX ON t; CREATE INDEX ON u; TRUNCATE;
abbrev parser : SqlParser
parser = record {
  parse = λ sql. some (
      one (codes "stmts") (
        array (
          statements (
            one (codes "CreateStmt") (one (codes "relation") (range_named (codes "t")))
            ∷ one (codes "IndexStmt") (one (codes "relation") (range_named (codes "t")))
            ∷ one (codes "IndexStmt") (one (codes "relation") (range_named (codes "u")))
            ∷ one (codes "TruncateStmt") (object end)
            ∷ []))));
  parse_pl_pgsql = λ sql. rejected (codes "no block");
  encode = λ s. s;
  decode = λ s. s;
}

reported :
    map
      (λ v. v.rule)
      (run_rules parser (codes "sql") (
        require_concurrent_index ∷ require_lock_timeout ∷ require_analyze_after_index ∷ ban_truncate
        ∷ []))
    ≡ codes "require-lock-timeout"
      ∷ codes "require-concurrent-index"
      ∷ codes "ban-truncate"
      ∷ codes "require-analyze-after-index"
      ∷ codes "require-analyze-after-index"
      ∷ []
unfolding run_rules field_at list_of ◌==◌ has add lookup strip_prefix
reported = refl

rules_isolated_example :
    keep (λ v. v.rule == codes "ban-truncate") (run_rules parser (codes "sql") all_rules)
    ≡ run_rules parser (codes "sql") (keep (λ r. r.id == codes "ban-truncate") all_rules)
rules_isolated_example =
    rules_isolated (λ id. id == codes "ban-truncate") parser (codes "sql") all_rules

allowed_silent_example :
    keep
      (λ v. v.rule == codes "ban-truncate")
      (run_rules parser (allow_lines (codes "ban-truncate" ∷ []) ++ codes "TRUNCATE t;") all_rules)
    ≡ []
unfolding has ◌==◌
allowed_silent_example =
    allowed_silent (codes "ban-truncate" ∷ []) (codes "TRUNCATE t;") (codes "ban-truncate") parser
      all_rules ((refl, refl), tt) refl

abbrev env : LintEnv
env = record {
  files = safe_file (codes "a.sql") ∷ [];
  read_file = λ f. codes "TRUNCATE t;";
  severities = (codes "ban-truncate", warn) ∷ (codes "require-lock-timeout", off) ∷ [];
  dialect = postgresql;
  custom_rules = [];
  parser = parser;
  astify = λ database sql. none;
}

lint_passes_example :
    ((command_lint env).ok ≡ true) ↔ All (λ f. file_errors env env.dialect f ≡ []) env.files
lint_passes_example = lint_passes env
