-- ===== src/Commands/Gate/Names.antt =====
-- src/commands/gate.ts: the short name of a group.
use migraguard.Prelude.{
  ◌≡◌, refl, ap, ◌∙◌, Bool, true, false, ◌&&◌, Option, none, some, List, [], ◌∷◌, find, every,
  nat_eq, arith, if◌then◌else◌,
}
use migraguard.Prelude.Text.{Text, codes, strip_prefix}
use migraguard.Commands.Gate.{match_short_name, extract_short_name, rest_of_line, is_dot}

-- Two underscores, and something behind them without a line break.
abbrev is_short_end : Text → Bool
is_short_end (a ∷ b ∷ c ∷ s) = (nat_eq a 95 && nat_eq b 95) && every is_dot (c ∷ s)
is_short_end _ = false

abbrev ends : Text → List Text
ends [] = []
ends (c ∷ s) = (c ∷ s) ∷ ends s

abbrev behind_two : Text → Text
behind_two (a ∷ b ∷ s) = s
behind_two s = s

abbrev short_or : Option Text → Text → Text
short_or none name = name
short_or (some end) name = behind_two end

-- What stands behind the first two underscores that have something behind them, or the whole name.
abbrev pub short_name : Text → Text
short_name name = short_or (find is_short_end (ends name)) name

abbrev or_short : Option Text → Option Text
or_short none = none
or_short (some end) = some (behind_two end)

-- The text behind two underscores at the start.
abbrev line_behind : Option Text → Option Text
line_behind none = none
line_behind (some t) = rest_of_line t

abbrev prefer : Option Text → Option Text → Option Text
prefer none later = later
prefer (some name) later = some name

prefer-elim :
    (o later : Option Text) → (elim o [ none ↦ later | some name ↦ some name ]) ≡ prefer o later
prefer-elim none later = refl
prefer-elim (some name) later = refl

prefer-line_behind :
    (o later : Option Text)
    → (elim o [
      | none ↦ later
      | some t ↦ elim (rest_of_line t) [ none ↦ later | some name ↦ some name ]
    ])
      ≡ prefer (line_behind o) later
prefer-line_behind none later = refl
prefer-line_behind (some t) later = prefer-elim (rest_of_line t) later

line_behind-end :
    (s : Text)
    → line_behind (strip_prefix (codes "__") s)
      ≡ (if is_short_end s then some (behind_two s) else none)
unfolding strip_prefix
line_behind-end [] = refl
line_behind-end (a ∷ []) = ground arith
line_behind-end (a ∷ b ∷ []) = ground arith
line_behind-end (a ∷ b ∷ c ∷ s) = ground arith

or_short-if :
    (b : Bool) (end : Text) (later : Option Text)
    → prefer (if b then some (behind_two end) else none) (or_short later)
      ≡ or_short (if b then some end else later)
or_short-if true end later = refl
or_short-if false end later = refl

match_short_name-find : (s : Text) → match_short_name s ≡ or_short (find is_short_end (ends s))
unfolding match_short_name
match_short_name-find [] = refl
match_short_name-find (c ∷ s) =
    prefer-line_behind (strip_prefix (codes "__") (c ∷ s)) (match_short_name s)
    ∙ ap (prefer (line_behind (strip_prefix (codes "__") (c ∷ s)))) (match_short_name-find s)
    ∙ ap (λ o. prefer o (or_short (find is_short_end (ends s)))) (line_behind-end (c ∷ s))
    ∙ or_short-if (is_short_end (c ∷ s)) (c ∷ s) (find is_short_end (ends s))

short_of :
    (o : Option Text) (name : Text)
    → (elim (or_short o) [ none ↦ name | some short ↦ short ]) ≡ short_or o name
short_of none name = refl
short_of (some end) name = refl

pub extract_short_name-short_name : (name : Text) → extract_short_name name ≡ short_name name
unfolding extract_short_name
extract_short_name-short_name name =
    ap (λ o. elim o [ none ↦ name | some short ↦ short ]) (match_short_name-find name)
    ∙ short_of (find is_short_end (ends name)) name
