-- ===== src/Lint/Visitors/Agree.antt =====
-- src/rules/engine.ts and src/generic/engine.ts: the calls of the handlers, seen from some of the rules.
use migraguard.Prelude.{
  ◌≡◌, refl, ap, ◌∙◌, Bool, true, false, Option, none, some, List, [], ◌∷◌, ◌++◌, map, keep,
  keep-append, if_true, if_false, if◌then◌else◌, arith,
}
use migraguard.Prelude.Text.{Text}
use migraguard.Prelude.Maps.{lookup}
use migraguard.Ast.{Value}
use migraguard.Lint.Visitors.{
  RuleReport, RawViolation, HandlerOf, Rule, Visitor, create, violation_of, called, call_handler,
  visit,
}

module _ (p : Text → Bool) where
  abbrev pub of_violations : List RawViolation → List RawViolation
  of_violations = keep (λ v. p v.rule)

  -- The reports of one rule are all kept or all dropped.
  of_violations-reports :
      (id : Text) (reports : List RuleReport)
      → of_violations (map (violation_of id) reports)
        ≡ (if p id then map (violation_of id) reports else [])
  of_violations-reports id [] = ground arith
  of_violations-reports id (r ∷ rs) = ground (arith, of_violations-reports id rs)

module _ {Ctx : Type 0} (p : Text → Bool) where
  abbrev pub of_visitors : List (Visitor Ctx) → List (Visitor Ctx)
  of_visitors = keep (λ v. p v.rule_id)

  -- Two steps agree: what the first one reports and leaves, without the rules that are not
  -- wanted, is what the second one reports and leaves.
  abbrev pub Agree :
      List RawViolation × List (Visitor Ctx) → List RawViolation × List (Visitor Ctx) → Type 1
  Agree a b = (of_violations p a.0 ≡ b.0) × (of_visitors a.1 ≡ b.1)

  called-reports :
      (v : Visitor Ctx) (stmt : Value) (ctx : Ctx) (o : Option (HandlerOf Ctx v.State))
      → of_violations p (called v stmt ctx o).0
        ≡ (if p v.rule_id then (called v stmt ctx o).0 else [])
  called-reports v stmt ctx none = ground arith
  called-reports v stmt ctx (some handler) =
      of_violations-reports p v.rule_id (handler stmt ctx v.state).0

  called-id :
      (v : Visitor Ctx) (stmt : Value) (ctx : Ctx) (o : Option (HandlerOf Ctx v.State))
      → (called v stmt ctx o).1.rule_id ≡ v.rule_id
  called-id v stmt ctx none = refl
  called-id v stmt ctx (some handler) = refl

  module _ (key : Text) (stmt : Value) (ctx : Ctx) where
    visit-cons :
        (v : Visitor Ctx) (vs : List (Visitor Ctx)) (b : Bool)
        → p v.rule_id ≡ b
        → Agree (visit key stmt ctx vs) (visit key stmt ctx (of_visitors vs))
        → Agree
            (visit key stmt ctx (v ∷ vs))
            (visit key stmt ctx (if b then v ∷ of_visitors vs else of_visitors vs))
    visit-cons v vs true h (hs, ks) =
        let reports = called-reports v stmt ctx (lookup key v.handlers) in
        let id = called-id v stmt ctx (lookup key v.handlers) in
        (
          keep-append _ (call_handler key stmt ctx v).0 (visit key stmt ctx vs).0
              ∙ (λ i. (reports ∙ if_true _ _ _ h) i ++ hs i),
          if_true _ _ _ (ap p id ∙ h) ∙ (λ i. (call_handler key stmt ctx v).1 ∷ ks i),
        )
    visit-cons v vs false h (hs, ks) =
        let reports = called-reports v stmt ctx (lookup key v.handlers) in
        let id = called-id v stmt ctx (lookup key v.handlers) in
        (
          keep-append _ (call_handler key stmt ctx v).0 (visit key stmt ctx vs).0
              ∙ (λ i. (reports ∙ if_false _ _ _ h) i ++ hs i),
          if_false _ _ _ (ap p id ∙ h) ∙ ks,
        )

    pub visit-agrees :
        (vs : List (Visitor Ctx))
        → Agree (visit key stmt ctx vs) (visit key stmt ctx (of_visitors vs))
    visit-agrees [] = (refl, refl)
    visit-agrees (v ∷ vs) = visit-cons v vs (p v.rule_id) refl (visit-agrees vs)

  abbrev pub of_rules : List (Rule Ctx) → List (Rule Ctx)
  of_rules = keep (λ r. p r.id)

  pub of_visitors-create :
      (rules : List (Rule Ctx)) → of_visitors (map create rules) ≡ map create (of_rules rules)
  of_visitors-create [] = refl
  of_visitors-create (r ∷ rules) = ground (arith, of_visitors-create rules)

  pub keep-keep :
      (q : Rule Ctx → Bool) (rules : List (Rule Ctx))
      → of_rules (keep q rules) ≡ keep q (of_rules rules)
  keep-keep q [] = refl
  keep-keep q (r ∷ rules) = ground (arith, keep-keep q rules)
