-- ===== src/Generic/Engine.antt =====
-- src/generic/engine.ts: a run of the rules for the other dialects.
pub mod Isolated
use migraguard.Prelude.{
  ℕ, Bool, true, false, ◌&&◌, ◌||◌, ◌+◌, Option, none, some, List, [], ◌∷◌, ◌++◌, map, nat_eq,
  if◌then◌else◌,
}
use migraguard.Prelude.Text.{Text, codes, ◌==◌}
use migraguard.Prelude.Maps.{add}
use migraguard.Ast.{Json, object, end, Value, get, text_at}
use migraguard.Checksum.{in_range}
use migraguard.Lint.Visitors.{RawViolation, Rule, Visitor, create, active_rules, is_no_rule, visit}
use migraguard.Lint.Engine.{parse_allow_directives}
use migraguard.Generic.Parser.{GenericDialect, GenericParser, parse_generic, first_table}

-- The context without `report`: a handler returns what it reports.
pub record GenericRuleContext : Type 0 where
  pub created_tables : List Text
  pub in_transaction : Bool
  pub raw_sql : Text

abbrev pub GenericLintRule : Type 1
GenericLintRule = Rule GenericRuleContext

-- The key of a create statement, by its keyword.
abbrev create_key : Text → Option Text
create_key keyword =
    if keyword == codes "table"
    then some (codes "create_table")
    else if keyword == codes "index"
    then some (codes "create_index")
    else if keyword == codes "view"
    then some (codes "create_view")
    else none

abbrev pub stmt_key : Value → Option Text
stmt_key stmt =
    let kind = text_at (codes "type") stmt in
    if kind == codes "create"
    then create_key (text_at (codes "keyword") stmt)
    else if kind == codes "alter"
    then some kind
    else if kind == codes "drop"
    then some kind
    else if kind == codes "update"
    then some kind
    else if kind == codes "delete"
    then some kind
    else if kind == codes "truncate"
    then some kind
    else if kind == codes "transaction"
    then some kind
    else none

abbrev add_table_name : Text → List Text → List Text
add_table_name name tables = if name == [] then tables else add name tables

abbrev pub is_create_table : Value → Bool
is_create_table stmt =
    (text_at (codes "type") stmt == codes "create")
    && (text_at (codes "keyword") stmt == codes "table")

abbrev created_by : Value → List Text → List Text
created_by stmt tables =
    if is_create_table stmt
    then add_table_name (text_at (codes "table") (first_table stmt)) tables
    else tables

-- s.toLowerCase(), as far as words of ASCII letters come of it: the Kelvin sign becomes a k.
abbrev pub lower_char : ℕ → ℕ
lower_char c = if in_range 65 90 c then c + 32 else if nat_eq c 8490 then 107 else c

abbrev pub to_lower_case : Text → Text
to_lower_case s = map lower_char s

abbrev transaction_value : Value → Text
transaction_value stmt =
    to_lower_case (text_at (codes "value") (get (codes "action") (get (codes "expr") stmt)))

abbrev generic_transaction_after : Text → Bool → Bool
generic_transaction_after value before =
    if (value == codes "begin") || (value == codes "start")
    then true
    else if (value == codes "commit") || (value == codes "rollback")
    then false
    else before

-- What the run knows about a statement before its handlers are called.
unfoldable pub enter_generic : Value → GenericRuleContext → GenericRuleContext
enter_generic stmt ctx = record {
  created_tables = created_by stmt ctx.created_tables;
  in_transaction =
      if text_at (codes "type") stmt == codes "transaction"
      then generic_transaction_after (transaction_value stmt) ctx.in_transaction
      else ctx.in_transaction;
  raw_sql = ctx.raw_sql;
}

abbrev pub GenericVisit : Type 1
GenericVisit = List RawViolation × List (Visitor GenericRuleContext)

abbrev pub visit_key :
    Option Text → Value → GenericRuleContext → List (Visitor GenericRuleContext) → GenericVisit
visit_key none stmt ctx vs = ([], vs)
visit_key (some key) stmt ctx vs = visit key stmt ctx vs

-- The loop over the statements, and the `_End` handlers behind it.
unfoldable pub run_generic_visitors :
    List Json → GenericRuleContext → List (Visitor GenericRuleContext) → List RawViolation
unfolding enter_generic
run_generic_visitors [] ctx vs = (visit (codes "_End") (some (object end)) ctx vs).0
run_generic_visitors (stmt ∷ stmts) ctx vs =
    let inside = enter_generic (some stmt) ctx in
    let (reported, vs') = visit_key (stmt_key (some stmt)) (some stmt) inside vs in
    reported ++ run_generic_visitors stmts inside vs'

-- A text that does not parse is run as one without statements.
abbrev statements_or_nil : Option (List Json) → List Json
statements_or_nil none = []
statements_or_nil (some stmts) = stmts

abbrev pub start_generic : Text → GenericRuleContext
start_generic sql = record { created_tables = []; in_transaction = false; raw_sql = sql }

abbrev pub run_active : Option (List Json) → Text → List GenericLintRule → List RawViolation
run_active stmts sql rules =
    run_generic_visitors (statements_or_nil stmts) (start_generic sql) (map create rules)

unfoldable pub run_generic_rules :
    GenericParser → Text → List GenericLintRule → GenericDialect → List RawViolation
unfolding parse_allow_directives parse_generic run_generic_visitors
run_generic_rules astify sql rules dialect =
    let active = active_rules (parse_allow_directives sql) rules in
    if is_no_rule active then [] else run_active (parse_generic astify dialect sql) sql active
