-- ===== src/Generic/Rules/Drops.antt =====
-- src/generic/rules: the rules on DROP, UPDATE, DELETE and TRUNCATE.
use migraguard.Prelude.{
  ℕ, Bool, true, false, not, ◌&&◌, ◌||◌, ◌+◌, Option, none, some, List, [], ◌∷◌, ◌++◌, any, map,
  nat_eq, if◌then◌else◌,
}
use migraguard.Prelude.Text.{Text, codes, ◌==◌}
use migraguard.Checksum.{in_range}
use migraguard.Directives.{skip_spaces, starts_with_space}
use migraguard.Ast.{Json, Value, get, items_at, text_at}
use migraguard.Lint.Rules.Parts.{report, stateless, named_or, in_quotes, if_named, join_named}
use migraguard.Generic.Parser.{first_of}
use migraguard.Generic.Engine.{GenericLintRule}
use migraguard.Generic.Rules.Alter.{first_table_name, is_there}

-- \w
abbrev is_word_char : ℕ → Bool
is_word_char c = in_range 97 122 c || in_range 65 90 c || in_range 48 57 c || nat_eq c 95

abbrev lower_ascii : ℕ → ℕ
lower_ascii c = if in_range 65 90 c then c + 32 else c

-- The rest of a text behind a word in any case.
unfoldable pub strip_any_case : Text → Text → Option Text
strip_any_case [] s = some s
strip_any_case (p ∷ ps) [] = none
strip_any_case (p ∷ ps) (c ∷ s) = if nat_eq p (lower_ascii c) then strip_any_case ps s else none

-- \b at a place, by what stands before it and behind it, where one of them is a word character.
abbrev ends_word : Text → Bool
ends_word [] = true
ends_word (c ∷ s) = not (is_word_char c)

abbrev has_word_at : Text → Text → Bool
has_word_at word s = elim (strip_any_case word s) [ none ↦ false | some rest ↦ ends_word rest ]

-- [^;]*\bCASCADE\b, behind a place of which `inside` says that a word character stands before it
unfoldable pub cascade_behind : (inside : Bool) → Text → Bool
unfolding strip_any_case
cascade_behind inside [] = false
cascade_behind inside (c ∷ s) =
    (not inside && has_word_at (codes "cascade") (c ∷ s))
    || (not (nat_eq c 59) && cascade_behind (is_word_char c) s)

abbrev dropped_kinds : List Text
dropped_kinds =
    codes "table"
    ∷ codes "index"
    ∷ codes "view"
    ∷ codes "sequence"
    ∷ codes "function"
    ∷ codes "trigger"
    ∷ []

-- What stands behind a kind that the text starts with goes on to a CASCADE.
abbrev kind_cascades : Text → Text → Bool
kind_cascades s kind = elim (strip_any_case kind s) [
  | none ↦ false
  | some rest ↦ ends_word rest && cascade_behind true rest
]

abbrev drop_at : Text → Bool
drop_at s = elim (strip_any_case (codes "drop") s) [
  | none ↦ false
  | some rest ↦ starts_with_space rest && any (kind_cascades (skip_spaces rest)) dropped_kinds
]

-- CASCADE_RE.test(sql)
unfoldable pub has_cascade : (inside : Bool) → Text → Bool
unfolding cascade_behind skip_spaces
has_cascade inside [] = false
has_cascade inside (c ∷ s) = (not inside && drop_at (c ∷ s)) || has_cascade (is_word_char c) s

abbrev pub generic_ban_drop_cascade : GenericLintRule
generic_ban_drop_cascade = stateless (codes "ban-drop-cascade") none (
    (
      codes "_End",
      λ stmt ctx.
          if has_cascade false ctx.raw_sql
          then report (codes "DROP with CASCADE")
              (codes "Avoid CASCADE — drop dependent objects explicitly to maintain traceability")
          else [],
    )
    ∷ [])

abbrev dropped_name : Json → Text
dropped_name n = text_at (codes "table") (some n)

abbrev pub generic_ban_drop_table : GenericLintRule
generic_ban_drop_table = stateless (codes "ban-drop-table") none (
    (
      codes "drop",
      λ stmt ctx.
          if text_at (codes "keyword") stmt == codes "table"
          then report
              (codes "DROP TABLE"
                ++ if_named (codes " \"")
                    (join_named (codes "\", \"") (map dropped_name (items_at (codes "name") stmt)))
                    (codes "\""))
              (codes
                "DROP TABLE is irreversible. Ensure the table is no longer referenced by application code before dropping")
          else [],
    )
    ∷ [])

abbrev pub lacks_where : Value → Bool
lacks_where stmt = not (is_there (get (codes "where") stmt))

-- from?.[0]?.table ?? '(unknown)'
abbrev pub first_from_name : Value → Text
first_from_name stmt =
    named_or (codes "table") (codes "(unknown)") (first_of (get (codes "from") stmt))

abbrev pub generic_ban_update_without_where : GenericLintRule
generic_ban_update_without_where = stateless (codes "ban-update-without-where") none (
    (
      codes "update",
      λ stmt ctx.
          if lacks_where stmt
          then report
              (codes "UPDATE on "
                ++ in_quotes (first_table_name stmt)
                ++ codes " without WHERE clause")
              (codes "Add a WHERE clause to limit affected rows")
          else [],
    )
    ∷ [])

abbrev pub generic_ban_delete_without_where : GenericLintRule
generic_ban_delete_without_where = stateless (codes "ban-delete-without-where") none (
    (
      codes "delete",
      λ stmt ctx.
          if lacks_where stmt
          then report
              (codes "DELETE on "
                ++ in_quotes (first_from_name stmt)
                ++ codes " without WHERE clause")
              (codes "Add a WHERE clause to limit affected rows")
          else [],
    )
    ∷ [])

abbrev pub generic_ban_truncate : GenericLintRule
generic_ban_truncate = stateless (codes "ban-truncate") none (
    (
      codes "truncate",
      λ stmt ctx. report (codes "TRUNCATE is not allowed in migrations") (
          codes "Use DELETE with a WHERE clause, or manage data separately from schema migrations"),
    )
    ∷ [])
