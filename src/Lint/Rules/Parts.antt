-- ===== src/Lint/Rules/Parts.antt =====
-- src/rules: what the rules share in how they read the parse tree and word a report.
use migraguard.Prelude.{
  ℕ, Bool, false, not, Option, none, some, List, [], ◌∷◌, ◌++◌, map, flat_map, keep, nat_eq,
  if◌then◌else◌,
}
use migraguard.Prelude.Text.{Text, codes, ◌==◌}
use migraguard.Naming.{Phase}
use migraguard.Ast.{Json, Value, get, truthy, items_at, text_at, string_of, number_of}
use migraguard.Deps.Extract.Names.{string_value}
use migraguard.Lint.Visitors.{RuleReport, Rule, HandlerOf}
use migraguard.Lint.Engine.{RuleContext}

abbrev pub report : Text → Text → List RuleReport
report message hint = record { message = message; hint = hint } ∷ []

-- A handler that has no variables.
abbrev pub CheckOf : Type 0 → Type 0
CheckOf Ctx = Value → Ctx → List RuleReport

abbrev pub Check : Type 0
Check = CheckOf RuleContext

abbrev as_handler : {Ctx : Type 0} → Text × CheckOf Ctx → Text × HandlerOf Ctx Unit
as_handler (key, check) = (key, λ stmt ctx s. (check stmt ctx, s))

-- A rule whose `create` has no variables.
abbrev pub stateless :
    {Ctx : Type 0} → Text → Option (List Phase) → List (Text × CheckOf Ctx) → Rule Ctx
stateless id phases checks = record {
  id = id;
  applicable_phases = phases;
  State = Unit;
  start = tt;
  handlers = map as_handler checks;
}

-- `${x}` for a name that the tree may lack
abbrev shown_text : Option Text → Text
shown_text none = codes "undefined"
shown_text (some s) = s

abbrev pub shown : Text → Value → Text
shown key x = shown_text (string_of (get key x))

-- x?.[key] ?? default
abbrev text_or : Text → Option Text → Text
text_or default none = default
text_or default (some s) = s

abbrev pub named_or : Text → Text → Value → Text
named_or key default x = text_or default (string_of (get key x))

-- node.relation?.relname ?? '(unknown)'
abbrev pub relation_name : Value → Text
relation_name stmt = named_or (codes "relname") (codes "(unknown)") (get (codes "relation") stmt)

abbrev pub in_quotes : Text → Text
in_quotes name = codes "\"" ++ name ++ codes "\""

-- name ? before + name + after : ''
abbrev pub if_named : Text → Text → Text → Text
if_named before name after = if name == [] then [] else before ++ name ++ after

-- The loop over the commands of an ALTER TABLE.
abbrev alter_cmd : (Value → List RuleReport) → Json → List RuleReport
alter_cmd check cmd =
    let c = get (codes "AlterTableCmd") (some cmd) in if truthy c then check c else []

abbrev pub for_alter_cmds : (Value → List RuleReport) → Value → List RuleReport
for_alter_cmds check stmt = flat_map (alter_cmd check) (items_at (codes "cmds") stmt)

-- cmd.subtype === name
abbrev pub is_subtype : Text → Value → Bool
is_subtype name cmd = text_at (codes "subtype") cmd == name

abbrev is_number : ℕ → Option ℕ → Bool
is_number n none = false
is_number n (some m) = nat_eq m n

abbrev pub is_subtype_number : ℕ → Value → Bool
is_subtype_number n cmd = is_number n (number_of (get (codes "subtype") cmd))

-- xs.filter(Boolean).join(separator)
abbrev join : Text → List Text → Text
join separator [] = []
join separator (s ∷ []) = s
join separator (s ∷ next ∷ rest) = s ++ separator ++ join separator (next ∷ rest)

abbrev pub join_named : Text → List Text → Text
join_named separator names = join separator (keep (λ n. not (n == [])) names)

-- The dotted name of a list of String nodes.
abbrev pub dotted : List Json → Text
dotted items = join_named (codes ".") (map string_value items)
