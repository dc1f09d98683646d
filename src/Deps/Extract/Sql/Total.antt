-- ===== src/Deps/Extract/Sql/Total.antt =====
-- src/deps.ts: the recursion of `analyzeSql` into the DO blocks of a text.
use migraguard.Prelude.{
  ℕ, zero, suc, ◌<◌, ◌≡◌, refl, Bool, true, false, Option, none, some, List, [], ◌∷◌, ◌>>=◌, length,
  if◌then◌else◌, All, All-map, arith,
}
use migraguard.Prelude.Text.{Text}
use migraguard.Ast.{
  Json, RawStatementEntry, PlPgSqlParse, parsed, rejected, SqlParser, parse_statements,
  statement_text,
}
use migraguard.Deps.Extract.Analyze.{SqlAnalysis, analyze_inner, do_analysis, extract_do_stmt}
use migraguard.Deps.Extract.Body.{collect_pl_pgsql_statements}
use migraguard.Deps.Extract.Sql.{
  extract_plain, or_do, extract_statement, extract_statements, analyze_entries, analyze_sql?,
}

-- The texts that the PL/pgSQL parser finds in a statement of a text are shorter than the text.
abbrev pub IsShorter : SqlParser → Type 0
IsShorter parser =
    (sql : Text) (entries : List RawStatementEntry)
    → parse_statements parser sql ≡ some entries
    → All
        (λ e.
          (tree : Json)
          → parser.parse_pl_pgsql (statement_text parser sql e) ≡ parsed tree
          → All (λ inner. length inner < length sql) (collect_pl_pgsql_statements tree).statements)
        entries

abbrev HasResult : Option SqlAnalysis → Type 0
HasResult o = (a : SqlAnalysis) × (o ≡ some a)

result_of : (a : SqlAnalysis) → HasResult (some a)
result_of a = (a, refl)

HasResult-if :
    (b : Bool) (x y : Option SqlAnalysis)
    → HasResult x
    → HasResult y
    → HasResult (if b then x else y)
HasResult-if true x y hx hy = hx
HasResult-if false x y hx hy = hy

HasResult-bind :
    (o : Option SqlAnalysis) (f : SqlAnalysis → Option SqlAnalysis)
    → HasResult o
    → ((a : SqlAnalysis) → HasResult (f a))
    → HasResult (o >>= f)
HasResult-bind none f h k = cc h.1
HasResult-bind (some a) f h k = k a

module _ (parser : SqlParser) (analyze : Text → Option SqlAnalysis) where
  HasResult-inner :
      (texts : List Text)
      → All (λ t. HasResult (analyze t)) texts
      → HasResult (analyze_inner parser analyze texts)
  HasResult-inner [] h = result_of _
  HasResult-inner (t ∷ rest) h =
      HasResult-bind _ _ h.0 (λ a. HasResult-bind _ _ (HasResult-inner rest h.1) (λ b. result_of _))

  abbrev DoHasResult : PlPgSqlParse → Type 0
  DoHasResult p =
      (tree : Json)
      → p ≡ parsed tree
      → All (λ t. HasResult (analyze t)) (collect_pl_pgsql_statements tree).statements

  HasResult-do : (p : PlPgSqlParse) → DoHasResult p → HasResult (do_analysis parser analyze p)
  HasResult-do (rejected reason) h = result_of _
  HasResult-do (parsed tree) h =
      HasResult-bind _ _ (HasResult-inner _ (h tree refl)) (λ a. result_of _)

  abbrev EntryHasResult : Text → RawStatementEntry → Type 0
  EntryHasResult sql e = DoHasResult (parser.parse_pl_pgsql (statement_text parser sql e))

  HasResult-or_do :
      (sql : Text) (e : RawStatementEntry) (plain : Option SqlAnalysis)
      → EntryHasResult sql e
      → HasResult (or_do parser analyze sql e plain)
  unfolding extract_do_stmt
  HasResult-or_do sql e (some a) h = result_of a
  HasResult-or_do sql e none h = HasResult-if _ _ _ (HasResult-do _ h) (result_of _)

  HasResult-statement :
      (sql : Text) (e : RawStatementEntry)
      → EntryHasResult sql e
      → HasResult (extract_statement parser analyze sql e)
  unfolding extract_statement
  HasResult-statement sql e h = HasResult-or_do sql e (extract_plain parser e.stmt) h

  HasResult-statements :
      (sql : Text) (entries : List RawStatementEntry)
      → All (EntryHasResult sql) entries
      → HasResult (extract_statements parser analyze sql entries)
  HasResult-statements sql [] h = result_of _
  HasResult-statements sql (e ∷ rest) h =
      HasResult-bind _ _ (HasResult-statement sql e h.0)
        (λ a. HasResult-bind _ _ (HasResult-statements sql rest h.1) (λ b. result_of _))

  HasResult-entries :
      (sql : Text) (entries : Option (List RawStatementEntry))
      → ((es : List RawStatementEntry) → entries ≡ some es → All (EntryHasResult sql) es)
      → HasResult (analyze_entries parser analyze sql entries)
  HasResult-entries sql none h = result_of _
  HasResult-entries sql (some es) h =
      HasResult-bind _ _ (HasResult-statements sql es (h es refl)) (λ a. result_of _)

has_result :
    (parser : SqlParser) (n : ℕ) (sql : Text)
    → IsShorter parser
    → length sql < n
    → HasResult (analyze_sql? parser n sql)
unfolding analyze_sql?
has_result parser zero sql shorter h = absurd (omega arith)
has_result parser (suc n) sql shorter h =
    HasResult-entries parser (analyze_sql? parser n) sql (parse_statements parser sql) (λ es p.
      All-map _ _ es
        (λ e inner tree q.
          All-map _ _ _ (λ t less. has_result parser n t shorter (omega arith)) (inner tree q))
        (shorter sql es p))

-- With a parser that keeps IsShorter, the recursion of `analyzeSql` ends within the fuel that it is
-- given: one more than the length of the text.
analyze_sql_total :
    (parser : SqlParser) (sql : Text)
    → IsShorter parser
    → (a : SqlAnalysis) × (analyze_sql? parser (suc (length sql)) sql ≡ some a)
analyze_sql_total parser sql shorter =
    has_result parser (suc (length sql)) sql shorter (omega arith)
