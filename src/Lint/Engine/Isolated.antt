-- ===== src/Lint/Engine/Isolated.antt =====
-- src/rules/engine.ts: rules do not see each other.
use migraguard.Prelude.{
  ◌≡◌, refl, ap, sym, ◌∙◌, Bool, Option, none, some, List, [], ◌∷◌, ◌++◌, map, keep, keep-append,
  if◌then◌else◌,
}
use migraguard.Prelude.Text.{Text, codes}
use migraguard.Ast.{
  null, boolean, number, string, array, object, Fields, end, entry, Value, RawStatementEntry,
  SqlParser, parse_statements,
}
use migraguard.Lint.Visitors.{Visitor, create, active_rules, is_no_rule, visit}
use migraguard.Lint.Visitors.Agree.{
  of_violations, of_visitors, Agree, visit-agrees, of_rules, of_visitors-create, keep-keep,
}
use migraguard.Lint.Engine.{
  RuleContext, LintRule, visit_fields, visit_statement, enter_statement, run_visitors, run_entries,
  start_context, parse_allow_directives, run_rules,
}

module _ (p : Text → Bool) where
  visit_fields-agrees :
      (fields : Fields) (ctx : RuleContext) (vs : List (Visitor RuleContext))
      → Agree p (visit_fields fields ctx vs) (visit_fields fields ctx (of_visitors p vs))
  visit_fields-agrees end ctx vs = (refl, refl)
  visit_fields-agrees (entry key j fields) ctx vs =
      let here = visit-agrees p key (some j) ctx vs in
      let rest = visit_fields-agrees fields ctx (visit key (some j) ctx vs).1 in
      (
        keep-append _ (visit key (some j) ctx vs).0 _
            ∙ (λ i. here.0 i ++ (rest.0 ∙ ap (λ us. (visit_fields fields ctx us).0) here.1) i),
        rest.1 ∙ ap (λ us. (visit_fields fields ctx us).1) here.1,
      )

  visit_statement-agrees :
      (s : Value) (ctx : RuleContext) (vs : List (Visitor RuleContext))
      → Agree p (visit_statement s ctx vs) (visit_statement s ctx (of_visitors p vs))
  visit_statement-agrees none ctx vs = (refl, refl)
  visit_statement-agrees (some null) ctx vs = (refl, refl)
  visit_statement-agrees (some (boolean b)) ctx vs = (refl, refl)
  visit_statement-agrees (some (number n)) ctx vs = (refl, refl)
  visit_statement-agrees (some (string t)) ctx vs = (refl, refl)
  visit_statement-agrees (some (array items)) ctx vs = (refl, refl)
  visit_statement-agrees (some (object fields)) ctx vs = visit_fields-agrees fields ctx vs

  run_visitors-agrees :
      (entries : List RawStatementEntry) (ctx : RuleContext) (vs : List (Visitor RuleContext))
      → of_violations p (run_visitors entries ctx vs) ≡ run_visitors entries ctx (of_visitors p vs)
  unfolding run_visitors
  run_visitors-agrees [] ctx vs = (visit-agrees p (codes "_End") (some (object end)) ctx vs).0
  run_visitors-agrees (e ∷ entries) ctx vs =
      let inside = enter_statement e.stmt ctx in
      let here = visit_statement-agrees e.stmt inside vs in
      keep-append _ (visit_statement e.stmt inside vs).0 _ ∙ (λ i.
        here.0 i
        ++ (run_visitors-agrees entries inside (visit_statement e.stmt inside vs).1
              ∙ ap (run_visitors entries inside) here.1)
            i)

  run_entries-agrees :
      (rules : List LintRule) (entries : Option (List RawStatementEntry))
      → of_violations p (run_entries rules entries) ≡ run_entries (of_rules p rules) entries
  run_entries-agrees rules none = refl
  run_entries-agrees rules (some entries) =
      run_visitors-agrees entries start_context (map create rules)
      ∙ ap (run_visitors entries start_context) (of_visitors-create p rules)

-- A run without rules reports nothing.
visit_fields-nil : (fields : Fields) (ctx : RuleContext) → visit_fields fields ctx [] ≡ ([], [])
visit_fields-nil end ctx = refl
visit_fields-nil (entry key j fields) ctx = rw (visit_fields-nil fields ctx) refl

visit_statement-nil : (s : Value) (ctx : RuleContext) → visit_statement s ctx [] ≡ ([], [])
visit_statement-nil none ctx = refl
visit_statement-nil (some null) ctx = refl
visit_statement-nil (some (boolean b)) ctx = refl
visit_statement-nil (some (number n)) ctx = refl
visit_statement-nil (some (string t)) ctx = refl
visit_statement-nil (some (array items)) ctx = refl
visit_statement-nil (some (object fields)) ctx = visit_fields-nil fields ctx

run_visitors-nil :
    (entries : List RawStatementEntry) (ctx : RuleContext) → run_visitors entries ctx [] ≡ []
unfolding run_visitors
run_visitors-nil [] ctx = refl
run_visitors-nil (e ∷ entries) ctx =
    (λ i.
      (visit_statement-nil e.stmt (enter_statement e.stmt ctx) i).0
      ++ run_visitors entries (enter_statement e.stmt ctx)
          (visit_statement-nil e.stmt (enter_statement e.stmt ctx) i).1)
    ∙ run_visitors-nil entries (enter_statement e.stmt ctx)

run_entries-no_rule :
    (rules : List LintRule) (entries : Option (List RawStatementEntry))
    → (if is_no_rule rules then [] else run_entries rules entries) ≡ run_entries rules entries
run_entries-no_rule [] none = refl
run_entries-no_rule [] (some entries) = sym (run_visitors-nil entries start_context)
run_entries-no_rule (r ∷ rules) entries = refl

-- The rules of a run do not see each other: of what a run of any rules reports, the violations
-- whose rules satisfy a test on the name are, in order, what a run of the rules that satisfy it
-- reports.
pub rules_isolated :
    (p : Text → Bool) (parser : SqlParser) (sql : Text) (rules : List LintRule)
    → keep (λ v. p v.rule) (run_rules parser sql rules)
      ≡ run_rules parser sql (keep (λ r. p r.id) rules)
unfolding run_rules
rules_isolated p parser sql rules =
    let active = active_rules (parse_allow_directives sql) in
    let entries = parse_statements parser sql in
    ap (keep (λ v. p v.rule)) (run_entries-no_rule (active rules) entries)
    ∙ run_entries-agrees p (active rules) entries
    ∙ ap (λ rs. run_entries rs entries) (keep-keep p _ rules)
    ∙ sym (run_entries-no_rule (active (keep (λ r. p r.id) rules)) entries)
