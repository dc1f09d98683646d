-- ===== src/Directives.antt =====
-- The directives in comments, `-- migraguard:<word> <value>` at the start of a line, which
-- src/deps.ts and src/rules/engine.ts find by regular expressions with the flags g and m.
pub mod Lines
use migraguard.Prelude.{
  ℕ, zero, suc, ◌-◌, Bool, true, false, not, ◌&&◌, ◌||◌, Option, none, some, List, [], ◌∷◌, ◌>>=◌,
  length, nat_eq, if◌then◌else◌,
}
use migraguard.Prelude.Text.{Text, codes, ◌==◌, strip_prefix}
use migraguard.Checksum.{is_space}

-- A line begins behind one of these.
abbrev pub is_line_break : ℕ → Bool
is_line_break c = nat_eq c 10 || nat_eq c 13 || nat_eq c 8232 || nat_eq c 8233

-- What stands behind the white space at the start, \s*
unfoldable pub skip_spaces : Text → Text
skip_spaces [] = []
skip_spaces (c ∷ s) = if is_space c then skip_spaces s else c ∷ s

-- \S* and .* at the start
unfoldable pub word_at : Text → Text
word_at [] = []
word_at (c ∷ s) = if is_space c then [] else c ∷ word_at s

unfoldable pub line_at : Text → Text
line_at [] = []
line_at (c ∷ s) = if is_line_break c then [] else c ∷ line_at s

abbrev pub starts_with_space : Text → Bool
starts_with_space [] = false
starts_with_space (c ∷ s) = is_space c

module _ (word : Text) (value_at : Text → Text) where
  -- The value of a directive and the length of the match. The value starts with no white space:
  -- for `allow`, a match in which \s+ gives some back has white space alone behind it.
  unfoldable pub directive_at : Text → Option (Text × ℕ)
  unfolding skip_spaces strip_prefix
  directive_at text = do
    comment ← strip_prefix (codes "--") text
    behind ← strip_prefix word (skip_spaces comment)
    let rest = skip_spaces behind
    let value = value_at rest
    if starts_with_space behind && not (value == [])
        then some (value, length text - (length rest - length value))
        else none

  abbrev at_line_start : Bool → Text → Option (Text × ℕ)
  at_line_start true text = directive_at text
  at_line_start false text = none

  -- The values of all matches: `skip` code units are still part of the last one.
  unfoldable pub directives : (skip : ℕ) (line_start : Bool) → Text → List Text
  unfolding directive_at
  directives skip line_start [] = []
  directives (suc n) line_start (c ∷ rest) = directives n (is_line_break c) rest
  directives zero line_start (c ∷ rest) = elim (at_line_start line_start (c ∷ rest)) [
    | none ↦ directives zero (is_line_break c) rest
    | some (value, used) ↦ value ∷ directives (used - 1) (is_line_break c) rest
  ]
