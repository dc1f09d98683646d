-- ===== src/Lint/Visitors.antt =====
-- src/rules/engine.ts and src/generic/engine.ts: rules with variables of their own, and the calls of
-- their handlers. The two engines give their handlers different contexts, `Ctx`.
pub mod Agree
use migraguard.Prelude.{
  Bool, true, false, not, keep, if◌then◌else◌, Option, none, some, List, [], ◌∷◌, ◌++◌, map,
}
use migraguard.Prelude.Text.{Text}
use migraguard.Prelude.Maps.{has, lookup}
use migraguard.Naming.{Phase}
use migraguard.Ast.{Value}

pub record RuleReport : Type 0 where
  pub message : Text
  pub hint : Text

pub record RawViolation : Type 0 where
  pub rule : Text
  pub message : Text
  pub hint : Text

-- A handler reads and sets the variables of its rule, `S`.
abbrev pub HandlerOf : Type 0 → Type 0 → Type 0
HandlerOf Ctx S = Value → Ctx → S → List RuleReport × S

-- `start` is what the variables hold after `create()`, and `handlers` what it returns.
pub record Rule (Ctx : Type 0) : Type 1 where
  pub id : Text
  pub applicable_phases : Option (List Phase)
  pub State : Type 0
  pub start : State
  pub handlers : List (Text × HandlerOf Ctx State)

-- A rule in a run, with its variables.
pub record Visitor (Ctx : Type 0) : Type 1 where
  pub rule_id : Text
  pub State : Type 0
  pub state : State
  pub handlers : List (Text × HandlerOf Ctx State)

abbrev pub violation_of : Text → RuleReport → RawViolation
violation_of id r = record { rule = id; message = r.message; hint = r.hint }

module _ {Ctx : Type 0} where
  abbrev pub create : Rule Ctx → Visitor Ctx
  create r = record { rule_id = r.id; State = r.State; state = r.start; handlers = r.handlers }

  abbrev pub active_rules : List Text → List (Rule Ctx) → List (Rule Ctx)
  active_rules allowed rules = keep (λ r. not (has allowed r.id)) rules

  abbrev pub is_no_rule : List (Rule Ctx) → Bool
  is_no_rule [] = true
  is_no_rule (r ∷ rules) = false

  -- What is reported, and the rule after it.
  abbrev pub called :
      (v : Visitor Ctx)
      → Value
      → Ctx
      → Option (HandlerOf Ctx v.State)
      → List RawViolation × Visitor Ctx
  called v stmt ctx none = ([], v)
  called v stmt ctx (some handler) =
      let (reports, state) = handler stmt ctx v.state in
      (
        map (violation_of v.rule_id) reports,
        record { rule_id = v.rule_id; State = v.State; state = state; handlers = v.handlers },
      )

  abbrev pub call_handler : Text → Value → Ctx → Visitor Ctx → List RawViolation × Visitor Ctx
  call_handler key stmt ctx v = called v stmt ctx (lookup key v.handlers)

  -- The loop over the rules, for one key of a statement.
  abbrev pub visit :
      Text → Value → Ctx → List (Visitor Ctx) → List RawViolation × List (Visitor Ctx)
  visit key stmt ctx [] = ([], [])
  visit key stmt ctx (v ∷ vs) =
      let (reported, v') = call_handler key stmt ctx v in
      let (rest, vs') = visit key stmt ctx vs in (reported ++ rest, v' ∷ vs')
