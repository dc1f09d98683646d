-- ===== src/Checksum.antt =====
-- src/checksum.ts: `normalizeSQL`, which makes checksums blind to comments and white space.
pub mod Scan
pub mod Blanks
use migraguard.Prelude.{
  ℕ, zero, suc, ◌≤◌, Bool, true, false, not, ◌&&◌, ◌||◌, Option, none, some, List, [], ◌∷◌, ◌++◌,
  length, nat_eq, leb, if◌then◌else◌,
}
use migraguard.Prelude.Text.{Text, strip_prefix}

abbrev pub in_range : ℕ → ℕ → ℕ → Bool
in_range low high c = leb low c && leb c high

-- /\s/
abbrev pub is_space : ℕ → Bool
is_space c =
    in_range 9 13 c
    || (nat_eq c 32
        || (nat_eq c 160
            || (nat_eq c 5760
                || (in_range 8192 8202 c
                    || (in_range 8232 8233 c
                        || (nat_eq c 8239
                            || (nat_eq c 8287 || (nat_eq c 12288 || nat_eq c 65279))))))))

-- [A-Za-z_\d]
abbrev pub is_tag_char : ℕ → Bool
is_tag_char c = in_range 65 90 c || (in_range 97 122 c || (nat_eq c 95 || in_range 48 57 c))

-- s starts with the code unit
abbrev pub begins : ℕ → Text → Bool
begins q [] = false
begins q (c ∷ s) = nat_eq c q

abbrev pub tail : Text → Text
tail [] = []
tail (c ∷ s) = s

-- A line comment, behind its dashes: what is left after the line.
unfoldable pub skip_line : Text → Text
skip_line [] = []
skip_line (c ∷ s) = elim (nat_eq c 10) [ true ↦ s | false ↦ skip_line s ]

-- A block comment at a depth of nesting: what is left after its end.
unfoldable pub skip_block : ℕ → Text → Text
skip_block zero s = s
skip_block (suc depth) [] = []
skip_block (suc depth) (a ∷ []) = []
skip_block (suc depth) (a ∷ b ∷ s) = elim (nat_eq a 47 && nat_eq b 42) [
  | true ↦ skip_block (suc (suc depth)) s
  | false ↦ elim (nat_eq a 42 && nat_eq b 47) [
    | true ↦ skip_block depth s
    | false ↦ skip_block (suc depth) (b ∷ s)
  ]
]

-- A text that was copied, before the rest.
abbrev copied : Text → Text × Text → Text × Text
copied t (out, rest) = (t ++ out, rest)

-- An E'...' string behind its first quote: what is copied, and what is left.
unfoldable pub escape_string : Text → Text × Text
escape_string [] = ([], [])
escape_string (a ∷ []) = (a ∷ [], [])
escape_string (a ∷ b ∷ s) = elim (nat_eq a 92) [
  | true ↦ copied (a ∷ b ∷ []) (escape_string s)
  | false ↦ elim (nat_eq a 39) [
    | true ↦ (a ∷ [], b ∷ s)
    | false ↦ copied (a ∷ []) (escape_string (b ∷ s))
  ]
]

-- A string or an identifier behind its first quote, which is doubled inside.
unfoldable pub quoted : ℕ → Text → Text × Text
quoted q [] = ([], [])
quoted q (a ∷ []) = (a ∷ [], [])
quoted q (a ∷ b ∷ s) = elim (nat_eq a q) [
  | true ↦ elim (nat_eq b q) [ true ↦ copied (a ∷ b ∷ []) (quoted q s) | false ↦ (a ∷ [], b ∷ s) ]
  | false ↦ copied (a ∷ []) (quoted q (b ∷ s))
]

-- /^\$([A-Za-z_\d]*)\$/ behind its first code unit: the rest of the tag, and what follows it
unfoldable pub dollar_tag : Text → Option (Text × Text)
dollar_tag [] = none
dollar_tag (c ∷ s) =
    let later = dollar_tag s in
    if nat_eq c 36
    then some (c ∷ [], s)
    else if is_tag_char c
    then elim later [ none ↦ none | some (tag, rest) ↦ some (c ∷ tag, rest) ]
    else none

-- A dollar-quoted string behind its tag, up to the next occurrence of the tag or the end.
unfoldable pub dollar_string : Text → Text → Text × Text
dollar_string tag [] = ([], [])
dollar_string tag (c ∷ s) =
    let later = dollar_string tag s in
    elim (strip_prefix tag (c ∷ s)) [ some rest ↦ (tag, rest) | none ↦ copied (c ∷ []) later ]

-- One round of the loop: a comment or a white space, or a text that is copied; and what is left.
pub data Piece : Type 0 where
  blank : Text → Piece
  word : Text → Text → Piece

abbrev pub word_of : Text → Text × Text → Piece
word_of start (out, rest) = word (start ++ out) rest

-- The rounds that come last.
abbrev pub plain_piece : ℕ → Text → Piece
plain_piece c s = if is_space c then blank s else word (c ∷ []) s

abbrev pub dollar_piece : ℕ → Text → Option (Text × Text) → Piece
dollar_piece c s none = plain_piece c s
dollar_piece c s (some (tag, rest)) = word_of (c ∷ tag) (dollar_string (c ∷ tag) rest)

-- The branches, for the code unit `c` and what follows it.
unfoldable pub next_piece : ℕ → Text → Piece
next_piece c s =
    if nat_eq c 45 && begins 45 s
    then blank (skip_line (tail s))
    else if nat_eq c 47 && begins 42 s
    then blank (skip_block 1 (tail s))
    else if (nat_eq c 69 || nat_eq c 101) && begins 39 s
    then word_of (c ∷ 39 ∷ []) (escape_string (tail s))
    else if nat_eq c 39
    then word_of (c ∷ []) (quoted 39 s)
    else if nat_eq c 34
    then word_of (c ∷ []) (quoted 34 s)
    else if nat_eq c 36
    then dollar_piece c s (dollar_tag s)
    else plain_piece c s

-- out.push(t), before the rest of the loop
abbrev pub push_text : Text → Option Text → Option Text
push_text t none = none
push_text t (some out) = some (t ++ out)

abbrev pub space_unless : Bool → Text
space_unless true = []
space_unless false = 32 ∷ []

-- The loop; `none` means that the fuel ran out.
unfoldable pub scan : ℕ → Text → (last_was_space : Bool) → Option Text
scan zero s last = none
scan (suc fuel) [] last = some []
scan (suc fuel) (c ∷ s) last = elim (next_piece c s) [
  | blank rest ↦ push_text (space_unless last) (scan fuel rest true)
  | word t rest ↦ push_text t (scan fuel rest false)
]

abbrev pub trim_start : Text → Text
trim_start [] = []
trim_start (c ∷ s) = if is_space c then trim_start s else c ∷ s

abbrev pub trim_end : Text → Text
trim_end [] = []
trim_end (c ∷ s) = elim (trim_end s) [ [] ↦ if is_space c then [] else c ∷ [] | d ∷ t ↦ c ∷ d ∷ t ]

-- Each round takes one code unit or more, so one round more than there are is enough.
unfoldable pub normalize_sql : Text → Option Text
normalize_sql content = elim (scan (suc (length content)) content true) [
  | none ↦ none
  | some out ↦ some (trim_end (trim_start out))
]
