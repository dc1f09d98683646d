-- ===== src/Lint/Command.antt =====
-- src/commands/lint.ts: the command lint.
pub mod Passes
use migraguard.Prelude.{
  ℕ, zero, suc, ◌+◌, Bool, true, false, not, Option, none, some, List, [], ◌∷◌, ◌++◌, foldl, keep,
  any, length, nat_eq, if◌then◌else◌,
}
use migraguard.Prelude.Text.{Text}
use migraguard.Prelude.Maps.{lookup}
use migraguard.Naming.{Phase, phase_eq}
use migraguard.Scanner.{MigrationFile}
use migraguard.Ast.{SqlParser}
use migraguard.Generic.Parser.{GenericDialect, Dialect, postgresql, other, GenericParser}
use migraguard.Generic.Engine.{GenericLintRule, run_generic_rules}
use migraguard.Generic.Rules.{all_generic_rules}
use migraguard.Lint.Visitors.{Rule, RawViolation, is_no_rule}
use migraguard.Lint.Engine.{LintRule, run_rules}
use migraguard.Lint.Rules.{all_rules}

pub data RuleSeverity : Type 0 where
  error warn off : RuleSeverity

pub record LintResult : Type 0 where
  pub ok : Bool
  pub files_linted : ℕ
  pub errors : ℕ
  pub warnings : ℕ

-- What the command reads: the files and their texts, `config.lint.rules`, the rules that
-- `loadCustomRules` finds, and the parsers.
pub record LintEnv : Type 1 where
  pub files : List MigrationFile
  pub read_file : MigrationFile → Text
  pub severities : List (Text × RuleSeverity)
  pub dialect : Dialect
  pub custom_rules : List LintRule
  pub parser : SqlParser
  pub astify : GenericParser

abbrev or_error : Option RuleSeverity → RuleSeverity
or_error none = error
or_error (some s) = s

abbrev is_off : RuleSeverity → Bool
is_off off = true
is_off _ = false

abbrev pub is_warn : RuleSeverity → Bool
is_warn warn = true
is_warn _ = false

abbrev applies_to : Option (List Phase) → Option Phase → Bool
applies_to none phase = true
applies_to (some phases) none = false
applies_to (some phases) (some p) = any (λ q. phase_eq q p) phases

unfoldable pub get_severity : LintEnv → Text → RuleSeverity
get_severity env id = or_error (lookup id env.severities)

-- `commandLintPg` and `commandLintGeneric` do the same with different rules and another run.
module _ {Ctx : Type 0} (env : LintEnv) (rules : List (Rule Ctx))
    (run : Text → List (Rule Ctx) → List RawViolation) where
  abbrev pub enabled_rules : List (Rule Ctx)
  enabled_rules = keep (λ r. not (is_off (get_severity env r.id))) rules

  abbrev pub file_rules : MigrationFile → List (Rule Ctx)
  file_rules f = keep (λ r. applies_to r.applicable_phases f.phase) enabled_rules

  -- The violations of one file.
  unfoldable pub lint_file : MigrationFile → List RawViolation
  unfolding get_severity
  lint_file f = run (env.read_file f) (file_rules f)

  -- `totalErrors` and `totalWarnings`
  abbrev pub count_file : ℕ × ℕ → MigrationFile → ℕ × ℕ
  count_file (errors, warnings) f = (
    errors + length (keep (λ v. not (is_warn (get_severity env v.rule))) (lint_file f)),
    warnings + length (keep (λ v. is_warn (get_severity env v.rule)) (lint_file f)),
  )

  abbrev lint_result : ℕ × ℕ → LintResult
  lint_result (errors, warnings) = record {
    ok = nat_eq errors 0;
    files_linted = length env.files;
    errors = errors;
    warnings = warnings;
  }

  abbrev nothing_linted : LintResult
  nothing_linted = record { ok = true; files_linted = length env.files; errors = 0; warnings = 0 }

  -- Without files the last branch has the values of the early return.
  unfoldable pub lint_with : LintResult
  unfolding lint_file
  lint_with =
      if is_no_rule enabled_rules
      then nothing_linted
      else lint_result (foldl count_file (0, 0) env.files)

abbrev pub pg_rules : LintEnv → List LintRule
pg_rules env = all_rules ++ env.custom_rules

unfoldable pub command_lint_pg : LintEnv → LintResult
unfolding lint_with run_rules
command_lint_pg env = lint_with env (pg_rules env) (run_rules env.parser)

abbrev pub run_generic : LintEnv → GenericDialect → Text → List GenericLintRule → List RawViolation
run_generic env dialect sql rules = run_generic_rules env.astify sql rules dialect

unfoldable pub command_lint_generic : LintEnv → GenericDialect → LintResult
unfolding lint_with run_generic_rules
command_lint_generic env dialect = lint_with env all_generic_rules (run_generic env dialect)

abbrev lint_dialect : LintEnv → Dialect → LintResult
lint_dialect env postgresql = command_lint_pg env
lint_dialect env (other dialect) = command_lint_generic env dialect

unfoldable pub command_lint : LintEnv → LintResult
unfolding command_lint_pg command_lint_generic
command_lint env = lint_dialect env env.dialect
