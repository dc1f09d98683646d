-- ===== src/Generic/Engine/Isolated.antt =====
-- src/generic/engine.ts: rules do not see each other.
use migraguard.Prelude.{
  ◌≡◌, refl, ap, sym, ◌∙◌, Bool, Option, none, some, List, [], ◌∷◌, ◌++◌, map, keep, keep-append,
  if◌then◌else◌,
}
use migraguard.Prelude.Text.{Text, codes}
use migraguard.Ast.{Json, object, end, Value}
use migraguard.Lint.Visitors.{Visitor, create, active_rules, is_no_rule}
use migraguard.Lint.Visitors.Agree.{
  of_violations, of_visitors, Agree, visit-agrees, of_visitors-create, keep-keep,
}
use migraguard.Lint.Engine.{parse_allow_directives}
use migraguard.Generic.Parser.{GenericDialect, GenericParser, parse_generic}
use migraguard.Generic.Engine.{
  GenericRuleContext, GenericLintRule, stmt_key, enter_generic, visit_key, run_generic_visitors,
  statements_or_nil, start_generic, run_active, run_generic_rules,
}

module _ (p : Text → Bool) where
  visit_key-agrees :
      (key : Option Text) (stmt : Value) (ctx : GenericRuleContext)
      (vs : List (Visitor GenericRuleContext))
      → Agree p (visit_key key stmt ctx vs) (visit_key key stmt ctx (of_visitors p vs))
  visit_key-agrees none stmt ctx vs = (refl, refl)
  visit_key-agrees (some key) stmt ctx vs = visit-agrees p key stmt ctx vs

  run_generic_visitors-agrees :
      (stmts : List Json) (ctx : GenericRuleContext) (vs : List (Visitor GenericRuleContext))
      → of_violations p (run_generic_visitors stmts ctx vs)
        ≡ run_generic_visitors stmts ctx (of_visitors p vs)
  unfolding run_generic_visitors
  run_generic_visitors-agrees [] ctx vs =
      (visit-agrees p (codes "_End") (some (object end)) ctx vs).0
  run_generic_visitors-agrees (j ∷ stmts) ctx vs =
      let stmt = some j in
      let inside = enter_generic stmt ctx in
      let here = visit_key-agrees (stmt_key stmt) stmt inside vs in
      let behind = (visit_key (stmt_key stmt) stmt inside vs).1 in
      keep-append _ (visit_key (stmt_key stmt) stmt inside vs).0 _ ∙ (λ i.
        here.0 i
        ++ (run_generic_visitors-agrees stmts inside behind
              ∙ ap (run_generic_visitors stmts inside) here.1)
            i)

visit_key-nil :
    (key : Option Text) (stmt : Value) (ctx : GenericRuleContext)
    → visit_key key stmt ctx [] ≡ ([], [])
visit_key-nil none stmt ctx = refl
visit_key-nil (some key) stmt ctx = refl

run_generic_visitors-nil :
    (stmts : List Json) (ctx : GenericRuleContext) → run_generic_visitors stmts ctx [] ≡ []
unfolding run_generic_visitors
run_generic_visitors-nil [] ctx = refl
run_generic_visitors-nil (j ∷ stmts) ctx =
    let inside = enter_generic (some j) ctx in
    (λ i.
      (visit_key-nil (stmt_key (some j)) (some j) inside i).0
      ++ run_generic_visitors stmts inside (visit_key-nil (stmt_key (some j)) (some j) inside i).1)
    ∙ run_generic_visitors-nil stmts inside

run_active-no_rule :
    (stmts : Option (List Json)) (sql : Text) (rules : List GenericLintRule)
    → (if is_no_rule rules then [] else run_active stmts sql rules) ≡ run_active stmts sql rules
run_active-no_rule stmts sql [] =
    sym (run_generic_visitors-nil (statements_or_nil stmts) (start_generic sql))
run_active-no_rule stmts sql (r ∷ rules) = refl

-- The rules of a run for the other dialects do not see each other: of what a run of any rules
-- reports, the violations whose rules satisfy a test on the name are, in order, what a run of the
-- rules that satisfy it reports.
pub generic_rules_isolated :
    (p : Text → Bool) (astify : GenericParser) (sql : Text) (rules : List GenericLintRule)
    (dialect : GenericDialect)
    → keep (λ v. p v.rule) (run_generic_rules astify sql rules dialect)
      ≡ run_generic_rules astify sql (keep (λ r. p r.id) rules) dialect
unfolding run_generic_rules
generic_rules_isolated p astify sql rules dialect =
    let active = active_rules {Ctx = GenericRuleContext} (parse_allow_directives sql) in
    let stmts = parse_generic astify dialect sql in
    ap (of_violations p) (run_active-no_rule stmts sql (active rules))
    ∙ run_generic_visitors-agrees p (statements_or_nil stmts) (start_generic sql)
        (map create (active rules))
    ∙ ap (run_generic_visitors (statements_or_nil stmts) (start_generic sql))
        (of_visitors-create p (active rules))
    ∙ ap (run_active stmts sql) (keep-keep p _ rules)
    ∙ sym (run_active-no_rule stmts sql (active (keep (λ r. p r.id) rules)))
