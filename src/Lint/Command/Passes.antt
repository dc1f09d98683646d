-- ===== src/Lint/Command/Passes.antt =====
-- src/commands/lint.ts: when the command passes.
use migraguard.Prelude.{
  ℕ, ◌+◌, ◌≡◌, refl, ap, sym, ◌∙◌, ◌↔◌, Bool, true, false, not, List, [], ◌∷◌, foldl, keep, length,
  All, if_true, if_false, nat_eq, if◌then◌else◌, arith, inl, inr, Bool-cases,
}
use migraguard.Prelude.Text.{Text}
use migraguard.Scanner.{MigrationFile}
use migraguard.Generic.Parser.{Dialect, postgresql, other}
use migraguard.Generic.Engine.Isolated.{generic_rules_isolated}
use migraguard.Generic.Rules.{all_generic_rules}
use migraguard.Lint.Visitors.{Rule, RawViolation, is_no_rule}
use migraguard.Lint.Engine.{run_rules}
use migraguard.Lint.Engine.Isolated.{rules_isolated}
use migraguard.Lint.Command.{
  LintResult, RuleSeverity, error, warn, off, LintEnv, is_warn, is_off, applies_to, get_severity,
  enabled_rules, lint_file, count_file, lint_with, pg_rules, command_lint_pg, run_generic,
  command_lint_generic, lint_dialect, command_lint,
}

abbrev is_error : RuleSeverity → Bool
is_error error = true
is_error _ = false

keep-keep {ℓ} :
    {A : Type ℓ} (p q r : A → Bool)
    → ((a : A) → (if p a then q a else false) ≡ r a)
    → (xs : List A) → keep q (keep p xs) ≡ keep r xs
keep-keep p q r h [] = refl
keep-keep p q r h (x ∷ xs) = ground (arith, keep-keep p q r h xs, h x)

keep_comm {ℓ} :
    {A : Type ℓ} (p q : A → Bool) (xs : List A) → keep q (keep p xs) ≡ keep p (keep q xs)
keep_comm p q [] = refl
keep_comm p q (x ∷ xs) = ground (arith, keep_comm p q xs)

keep-false {ℓ} : {A : Type ℓ} (xs : List A) → keep (λ _. false) xs ≡ []
keep-false [] = refl
keep-false (x ∷ xs) = keep-false xs

error_not_off :
    (s : RuleSeverity) → (if not (is_off s) then not (is_warn s) else false) ≡ is_error s
error_not_off error = refl
error_not_off warn = refl
error_not_off off = refl

-- Of what a run of all the rules that apply to a file reports, the violations that count as
-- errors, whatever else the configuration says.
abbrev pub error_violations :
    {Ctx : Type 0}
    → LintEnv
    → List (Rule Ctx)
    → (Text → List (Rule Ctx) → List RawViolation)
    → MigrationFile
    → List RawViolation
error_violations env rules run f =
    keep (λ v. is_error (get_severity env v.rule))
      (run (env.read_file f) (keep (λ r. applies_to r.applicable_phases f.phase) rules))

length-nil : (vs : List RawViolation) → length vs ≡ 0 → vs ≡ []
length-nil [] h = refl
length-nil (v ∷ vs) h = absurd (omega arith)

is_no_rule-nil : {Ctx : Type 0} (rules : List (Rule Ctx)) → is_no_rule rules ≡ true → rules ≡ []
is_no_rule-nil [] h = refl
is_no_rule-nil (r ∷ rules) h = cc

nat_eq-zero : (n : ℕ) → (nat_eq n 0 ≡ true) ↔ (n ≡ 0)
nat_eq-zero n = (λ h. ground arith, λ h. ground arith)

-- A run in which the rules do not see each other.
abbrev IsolatedRun : {Ctx : Type 0} → (Text → List (Rule Ctx) → List RawViolation) → Type 1
IsolatedRun {Ctx} run =
    (p : Text → Bool) (sql : Text) (rules : List (Rule Ctx))
    → keep (λ v. p v.rule) (run sql rules) ≡ run sql (keep (λ r. p r.id) rules)

module _ {Ctx : Type 0} (env : LintEnv) (rules : List (Rule Ctx))
    (run : Text → List (Rule Ctx) → List RawViolation) (isolated : IsolatedRun run) where
  abbrev counts : RawViolation → Bool
  counts v = not (is_warn (get_severity env v.rule))

  abbrev AllClean : List MigrationFile → Type 0
  AllClean files = All (λ f. error_violations env rules run f ≡ []) files

  run-counts :
      (applies : Rule Ctx → Bool) (sql : Text)
      → keep counts (run sql (keep applies (enabled_rules env rules run)))
        ≡ keep (λ v. is_error (get_severity env v.rule)) (run sql (keep applies rules))
  run-counts applies sql =
      let on = λ (id : Text). not (is_off (get_severity env id)) in
      ap (λ rs. keep counts (run sql rs)) (keep_comm (λ r. on r.id) applies rules)
      ∙ ap (keep counts) (sym (isolated on sql (keep applies rules)))
      ∙ keep-keep (λ v. on v.rule) counts (λ v. is_error (get_severity env v.rule))
          (λ v. error_not_off (get_severity env v.rule)) (run sql (keep applies rules))

  lint_file-counts :
      (f : MigrationFile)
      → keep counts (lint_file env rules run f) ≡ error_violations env rules run f
  unfolding lint_file
  lint_file-counts f = run-counts (λ r. applies_to r.applicable_phases f.phase) (env.read_file f)

  count_clean :
      (n m : ℕ) (files : List MigrationFile)
      → ((foldl (count_file env rules run) (n, m) files).0 ≡ 0) ↔ ((n ≡ 0) × AllClean files)
  count_clean n m [] = (λ h. (h, tt), λ h. h.0)
  count_clean n m (f ∷ files) =
      let here = lint_file-counts f in
      let counted = length (keep counts (lint_file env rules run f)) in
      let rest = count_clean (n + counted) _ files in
      (
        λ h. (
          omega (arith, (rest.0 h).0),
          (sym here ∙ length-nil _ (omega (arith, (rest.0 h).0)), (rest.0 h).1),
        ),
        λ h. rest.1 (omega (arith, h.0, ap length (here ∙ h.1.0)), h.1.1),
      )

  -- A run of no rules reports nothing: it is what a test keeps that holds of no name.
  run-nil : (sql : Text) → run sql [] ≡ []
  run-nil sql = sym (isolated (λ id. false) sql []) ∙ keep-false (run sql [])

  clean_of_no_rule :
      (files : List MigrationFile)
      → is_no_rule (enabled_rules env rules run) ≡ true
      → AllClean files
  clean_of_no_rule [] h = tt
  clean_of_no_rule (f ∷ files) h = (
    sym (run-counts (λ r. applies_to r.applicable_phases f.phase) (env.read_file f))
        ∙ ap
            (λ rs.
              keep counts
                (run (env.read_file f) (keep (λ r. applies_to r.applicable_phases f.phase) rs)))
            (is_no_rule-nil (enabled_rules env rules run) h)
        ∙ ap (keep counts) (run-nil (env.read_file f)),
    clean_of_no_rule files h,
  )

  lint_with-clean : ((lint_with env rules run).ok ≡ true) ↔ AllClean env.files
  unfolding lint_with
  lint_with-clean = elim (Bool-cases (is_no_rule (enabled_rules env rules run))) [
    | inl h ↦
        (λ e. clean_of_no_rule env.files h, λ c. ap (λ (r : LintResult). r.ok) (if_true _ _ _ h))
    | inr h ↦
        let clean = count_clean 0 0 env.files in
        let total = nat_eq-zero (foldl (count_file env rules run) (0, 0) env.files).0 in
        (
          λ e. (clean.0 (total.0 (sym (ap (λ (r : LintResult). r.ok) (if_false _ _ _ h)) ∙ e))).1,
          λ c. ap (λ (r : LintResult). r.ok) (if_false _ _ _ h) ∙ total.1 (clean.1 (refl, c)),
        )
  ]

-- The errors of a file under the dialect of the configuration.
abbrev pub file_errors : LintEnv → Dialect → MigrationFile → List RawViolation
file_errors env postgresql = error_violations env (pg_rules env) (run_rules env.parser)
file_errors env (other dialect) = error_violations env all_generic_rules (run_generic env dialect)

by_dialect :
    (env : LintEnv) (dialect : Dialect)
    → ((lint_dialect env dialect).ok ≡ true) ↔ All (λ f. file_errors env dialect f ≡ []) env.files
unfolding command_lint_pg command_lint_generic
by_dialect env postgresql =
    lint_with-clean env (pg_rules env) (run_rules env.parser)
      (λ p sql rules. rules_isolated p env.parser sql rules)
by_dialect env (other dialect) =
    lint_with-clean env all_generic_rules (run_generic env dialect)
      (λ p sql rules. generic_rules_isolated p env.astify sql rules dialect)

-- lint passes exactly if in each file no rule reports an error: of what all rules of the dialect
-- that apply to the file report, whatever the configuration says of them, no violation is of a
-- rule that the configuration, which takes `error` where it has no entry, gives the severity
-- `error`.
pub lint_passes :
    (env : LintEnv)
    → ((command_lint env).ok ≡ true) ↔ All (λ f. file_errors env env.dialect f ≡ []) env.files
unfolding command_lint
lint_passes env = by_dialect env env.dialect
