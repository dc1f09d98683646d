-- ===== src/Lint/Rules/Predicates.antt =====
-- src/rules/ban-unstable-list-predicate.ts: list predicates on varchar columns in CHECK constraints.
use migraguard.Prelude.{
  Bool, not, ◌&&◌, ◌||◌, Option, none, some, List, [], ◌∷◌, ◌++◌, foldl, flat_map, get_last?,
  if◌then◌else◌,
}
use migraguard.Prelude.Text.{Text, codes, ◌==◌}
use migraguard.Prelude.Maps.{has, add}
use migraguard.Ast.{
  Json, null, boolean, number, string, array, object, Items, empty, item, Fields, end, entry, Value,
  field_at, get, items_of, items_at, text_at,
}
use migraguard.Lint.Visitors.{RuleReport}
use migraguard.Lint.Engine.{LintRule}
use migraguard.Lint.Rules.Parts.{Check, report, stateless}

-- VARCHAR_TYPE_NAMES
abbrev varchar_type_names : List Text
varchar_type_names = codes "varchar" ∷ codes "character varying" ∷ []

abbrev name_of_last : Option Json → Text
name_of_last none = []
name_of_last (some j) = text_at (codes "sval") (get (codes "String") (some j))

-- The empty text stands for undefined: the callers treat both alike.
unfoldable pub last_name_of : Value → Text
last_name_of names = name_of_last (get_last? (items_of names))

abbrev declared_type : Value → Text
declared_type node = last_name_of (get (codes "names") (get (codes "typeName") node))

unfoldable pub is_text_cast : Value → Bool
unfolding last_name_of
is_text_cast value = declared_type (get (codes "TypeCast") value) == codes "text"

-- asNode(a) ?? asNode(b)
abbrev first_node : Value → Value → Value
first_node (some (object fields)) b = some (object fields)
first_node a b = b

unfoldable pub column_name_of : Value → Text
unfolding last_name_of
column_name_of value = last_name_of (
    get (codes "fields") (
      first_node (get (codes "ColumnRef") value)
        (get (codes "ColumnRef") (get (codes "arg") (get (codes "TypeCast") value)))))

-- typeof col?.colname === 'string'
abbrev varchar_column : List Text → Json → List Text
varchar_column columns elt =
    let col = get (codes "ColumnDef") (some elt) in
    elim (get (codes "colname") col) [
      | some (string name) ↦
          if has varchar_type_names (declared_type col) then add name columns else columns
      | _ ↦ columns
    ]

unfoldable pub varchar_columns : Value → List Text
unfolding last_name_of
varchar_columns stmt = foldl varchar_column [] (items_at (codes "tableElts") stmt)

module _ (varchar_cols : List Text) where
  -- What an object that holds an A_Expr contributes.
  abbrev unstable_here : Fields → List Text
  unstable_here fields =
      let expr = field_at (codes "A_Expr") fields in
      let kind = text_at (codes "kind") expr in
      let column = column_name_of (get (codes "lexpr") expr) in
      if ((kind == codes "AEXPR_IN") || (kind == codes "AEXPR_OP_ANY"))
        && not (column == [])
        && has varchar_cols column
        && not (is_text_cast (get (codes "lexpr") expr))
      then column ∷ []
      else []

  unfoldable mutual
    unfolding column_name_of is_text_cast

    pub collect_unstable : Json → List Text
    collect_unstable (array items) = collect_unstable_items items
    collect_unstable (object fields) = unstable_here fields ++ collect_unstable_fields fields
    collect_unstable null = []
    collect_unstable (boolean b) = []
    collect_unstable (number n) = []
    collect_unstable (string s) = []

    pub collect_unstable_items : Items → List Text
    collect_unstable_items empty = []
    collect_unstable_items (item j rest) = collect_unstable j ++ collect_unstable_items rest

    pub collect_unstable_fields : Fields → List Text
    collect_unstable_fields end = []
    collect_unstable_fields (entry key j rest) = collect_unstable j ++ collect_unstable_fields rest

  abbrev unstable_in : Value → List Text
  unstable_in none = []
  unstable_in (some j) = collect_unstable j

  module _ (place : Text) where
    abbrev report_column : Text → Text → List RuleReport
    report_column name column =
        report
          (codes "CHECK constraint "
            ++ name
            ++ codes "in "
            ++ place
            ++ codes " compares varchar column \""
            ++ column
            ++ codes "\" against a value list without an explicit ::text cast")
          (codes "Write it as "
            ++ column
            ++ codes
                "::text = ANY (ARRAY['a', 'b']::text[]) — on a varchar column, IN (...) changes shape after dump → restore → dump and breaks schema diffs")

    -- `"${conname}" `, for a name that is a string
    abbrev constraint_name : Value → Text
    constraint_name (some (string s)) = codes "\"" ++ s ++ codes "\" "
    constraint_name _ = []

    abbrev check_constraint : Json → List RuleReport
    check_constraint j =
        if text_at (codes "contype") (some j) == codes "CONSTR_CHECK"
        then flat_map (report_column (constraint_name (get (codes "conname") (some j))))
            (unstable_in (get (codes "raw_expr") (some j)))
        else []

    -- `walk`
    unfoldable mutual
      unfolding collect_unstable

      pub walk : Json → List RuleReport
      walk (array items) = walk_items items
      walk (object fields) = walk_fields fields
      walk null = []
      walk (boolean b) = []
      walk (number n) = []
      walk (string s) = []

      pub walk_items : Items → List RuleReport
      walk_items empty = []
      walk_items (item j rest) = walk j ++ walk_items rest

      pub walk_fields : Fields → List RuleReport
      walk_fields end = []
      walk_fields (entry key j rest) =
          (if key == codes "Constraint" then check_constraint j else [])
          ++ walk j
          ++ walk_fields rest

abbrev report_in : Value → List Text → Text → List RuleReport
report_in (some j) (c ∷ columns) place = walk (c ∷ columns) place j
report_in _ _ place = []

unfoldable pub report_check_constraints : Value → List Text → Text → List RuleReport
unfolding walk
report_check_constraints stmt varchar_cols place = report_in stmt varchar_cols place

abbrev check_domain : Check
check_domain stmt ctx =
    if has varchar_type_names (declared_type stmt)
    then report_check_constraints stmt (codes "value" ∷ []) (codes "CREATE DOMAIN")
    else []

abbrev pub ban_unstable_list_predicate : LintRule
ban_unstable_list_predicate = stateless (codes "ban-unstable-list-predicate") none (
    (
      codes "CreateStmt",
      λ stmt ctx. report_check_constraints stmt (varchar_columns stmt) (codes "CREATE TABLE"),
    )
    ∷ (codes "CreateDomainStmt", check_domain)
    ∷ [])
