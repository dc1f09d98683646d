-- ===== src/Lint/Engine.antt =====
-- src/rules/engine.ts: the rules of the linter and a run of them over a text of SQL.
pub mod Allowed
pub mod Isolated
use migraguard.Prelude.{
  ℕ, Bool, true, false, not, ◌||◌, Option, none, some, List, [], ◌∷◌, ◌++◌, map, foldl, keep,
  flat_map, nat_eq, if◌then◌else◌,
}
use migraguard.Prelude.Text.{Text, codes, ◌==◌}
use migraguard.Prelude.Maps.{has, add, lookup}
use migraguard.Naming.{Phase}
use migraguard.Ast.{
  Json, object, Fields, end, entry, Value, get, has_field, text_at, RawStatementEntry, SqlParser,
  parse_statements,
}
use migraguard.Directives.{directives, line_at}
use migraguard.Checksum.{is_space}
use migraguard.Lint.Visitors.{
  RawViolation, HandlerOf, Rule, Visitor, create, active_rules, is_no_rule, visit,
}

-- The context without `report`: a handler returns what it reports.
pub record RuleContext : Type 0 where
  pub created_tables : List Text
  pub lock_timeout_set : Bool
  pub in_transaction : Bool

abbrev pub Handler : Type 0 → Type 0
Handler S = HandlerOf RuleContext S

abbrev pub LintRule : Type 1
LintRule = Rule RuleContext

-- /[,\s]/
abbrev pub is_separator : ℕ → Bool
is_separator c = nat_eq c 44 || is_space c

-- s.split(/[,\s]+/).filter(Boolean)
abbrev push_word : Text → List Text → List Text
push_word word words = if word == [] then words else word ∷ words

unfoldable pub split_words : (word : Text) → Text → List Text
split_words word [] = push_word word []
split_words word (c ∷ s) =
    let closed = push_word word (split_words [] s) in
    let longer = split_words (word ++ c ∷ []) s in if is_separator c then closed else longer

-- ALLOW_DIRECTIVE_RE
abbrev pub allow : Text
allow = codes "migraguard:allow"

unfoldable pub parse_allow_directives : Text → List Text
unfolding directives split_words
parse_allow_directives sql =
    foldl (λ (allowed : List Text) id. add id allowed) []
      (flat_map (split_words []) (directives allow line_at 0 true sql))

-- What the run knows about a statement before its handlers are called.
abbrev set_timeout : Value → RuleContext → RuleContext
set_timeout s ctx = record {
  created_tables = ctx.created_tables;
  lock_timeout_set =
      (text_at (codes "name") (get (codes "VariableSetStmt") s) == codes "lock_timeout")
      || ctx.lock_timeout_set;
  in_transaction = ctx.in_transaction;
}

abbrev transaction_after : Text → Bool → Bool
transaction_after kind before =
    if kind == codes "TRANS_STMT_BEGIN"
    then true
    else if (kind == codes "TRANS_STMT_COMMIT") || (kind == codes "TRANS_STMT_ROLLBACK")
    then false
    else before

abbrev set_transaction : Value → RuleContext → RuleContext
set_transaction s ctx = record {
  created_tables = ctx.created_tables;
  lock_timeout_set = ctx.lock_timeout_set;
  in_transaction =
      transaction_after (text_at (codes "kind") (get (codes "TransactionStmt") s))
        ctx.in_transaction;
}

abbrev add_named : Text → List Text → List Text
add_named name tables = if name == [] then tables else add name tables

abbrev add_created : Value → RuleContext → RuleContext
add_created s ctx = record {
  created_tables =
      add_named (text_at (codes "relname") (get (codes "relation") (get (codes "CreateStmt") s)))
        ctx.created_tables;
  lock_timeout_set = ctx.lock_timeout_set;
  in_transaction = ctx.in_transaction;
}

unfoldable pub enter_statement : Value → RuleContext → RuleContext
enter_statement s ctx = add_created s (set_transaction s (set_timeout s ctx))

-- The loop over the keys of a statement.
abbrev pub visit_fields :
    Fields
    → RuleContext
    → List (Visitor RuleContext)
    → List RawViolation × List (Visitor RuleContext)
visit_fields end ctx vs = ([], vs)
visit_fields (entry key stmt fields) ctx vs =
    let (reported, vs') = visit key (some stmt) ctx vs in
    let (rest, vs'') = visit_fields fields ctx vs' in (reported ++ rest, vs'')

abbrev pub visit_statement :
    Value
    → RuleContext
    → List (Visitor RuleContext)
    → List RawViolation × List (Visitor RuleContext)
visit_statement (some (object fields)) ctx vs = visit_fields fields ctx vs
visit_statement _ ctx vs = ([], vs)

-- The loop over the statements, and the `_End` handlers behind it.
unfoldable pub run_visitors :
    List RawStatementEntry → RuleContext → List (Visitor RuleContext) → List RawViolation
unfolding enter_statement
run_visitors [] ctx vs = (visit (codes "_End") (some (object end)) ctx vs).0
run_visitors (e ∷ entries) ctx vs =
    let inside = enter_statement e.stmt ctx in
    let (reported, vs') = visit_statement e.stmt inside vs in
    reported ++ run_visitors entries inside vs'

abbrev pub start_context : RuleContext
start_context = record { created_tables = []; lock_timeout_set = false; in_transaction = false }

abbrev pub run_entries : List LintRule → Option (List RawStatementEntry) → List RawViolation
run_entries rules none = []
run_entries rules (some entries) = run_visitors entries start_context (map create rules)

unfoldable pub run_rules : SqlParser → Text → List LintRule → List RawViolation
unfolding parse_allow_directives parse_statements run_visitors
run_rules parser sql rules =
    let active = active_rules (parse_allow_directives sql) rules in
    if is_no_rule active then [] else run_entries active (parse_statements parser sql)
