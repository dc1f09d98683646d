-- ===== src/Lint/Engine/Allowed.antt =====
-- src/rules/engine.ts: a directive that allows what a rule reports.
use mathlib.Core.List.{append_assoc, append-nil}
use migraguard.Prelude.{
  ℕ, ◌≡◌, refl, ap, sym, ◌∙◌, Bool, true, false, not, ◌||◌, some, List, [], ◌∷◌, ◌++◌, foldl,
  flat_map, keep, every, length, length-append, if◌then◌else◌, All, if_false, arith,
}
use migraguard.Prelude.Text.{Text, codes, ◌==◌, eq_iff, strip_prefix}
use migraguard.Prelude.Maps.{has, add, has-add, has-append}
use migraguard.Ast.{SqlParser, parse_statements}
use migraguard.Directives.{directives, directive_at, line_at, skip_spaces}
use migraguard.Directives.Lines.{has_no_space, skip_spaces-append, directives-line}
use migraguard.Lint.Visitors.{is_no_rule, active_rules}
use migraguard.Lint.Engine.{
  push_word, run_entries, LintRule, is_separator, split_words, allow, parse_allow_directives,
  run_rules,
}
use migraguard.Lint.Engine.Isolated.{rules_isolated}

abbrev pub allow_line : Text → Text
allow_line name = codes "-- migraguard:allow " ++ name ++ codes "\n"

abbrev pub allow_lines : List Text → Text
allow_lines [] = []
allow_lines (name ∷ names) = allow_line name ++ allow_lines names

abbrev has_no_separator : Text → Bool
has_no_separator s = every (λ c. not (is_separator c)) s

-- A name that a directive can hold.
abbrev pub IsRuleName : Text → Type 0
IsRuleName name = ((name == []) ≡ false) × (has_no_separator name ≡ true)

has_no_space-name : (s : Text) → has_no_separator s ≡ true → has_no_space s ≡ true
has_no_space-name [] h = refl
has_no_space-name (c ∷ s) h = ground (arith, has_no_space-name s)

line_at-append : (s t : Text) → has_no_space s ≡ true → line_at (s ++ 10 ∷ t) ≡ s
unfolding line_at
line_at-append [] t h = refl
line_at-append (c ∷ s) t h =
    ground (arith, line_at-append s t, ap (λ r. c ∷ r) {x = line_at (s ++ 10 ∷ t)} {y = s})

directive_at-allow :
    (v t : Text)
    → IsRuleName v
    → directive_at allow line_at (codes "-- migraguard:allow " ++ (v ++ 10 ∷ t))
      ≡ some (v, length (codes "-- migraguard:allow " ++ v))
unfolding directive_at strip_prefix skip_spaces
directive_at-allow v t (e, h) =
    rw
      (
        skip_spaces-append v (10 ∷ t) (has_no_space-name v h) e,
        line_at-append v t (has_no_space-name v h),
        e,
      )
      (ap (λ n. some (v, n)) (omega (arith, length-append v (10 ∷ t))))

allow_line-append :
    (name rest : Text)
    → allow_line name ++ rest ≡ codes "-- migraguard:allow " ++ (name ++ 10 ∷ rest)
allow_line-append name rest =
    append_assoc (codes "-- migraguard:allow " ++ name) (codes "\n") rest
    ∙ append_assoc (codes "-- migraguard:allow ") name (10 ∷ rest)

directives-allow_line :
    (name rest : Text)
    → IsRuleName name
    → directives allow line_at 0 true (allow_line name ++ rest)
      ≡ name ∷ directives allow line_at 0 true rest
directives-allow_line name rest h =
    let shape = append_assoc (codes "-- migraguard:allow ") name (10 ∷ rest) in
    rw (allow_line-append name rest) (
      rw (sym shape) (
        directives-line allow line_at 45 (codes "- migraguard:allow " ++ name) rest name
          (rw shape (directive_at-allow name rest h))))

push_word-some : (word : Text) → (word == []) ≡ false → push_word word [] ≡ word ∷ []
push_word-some word e = if_false (word == []) _ _ e

not-nil : (word s : Text) (c : ℕ) → (word ++ c ∷ s == []) ≡ false
unfolding ◌==◌
not-nil [] s c = refl
not-nil (d ∷ word) s c = refl

split_words-name :
    (word s : Text)
    → has_no_separator s ≡ true
    → (word ++ s == []) ≡ false
    → split_words word s ≡ (word ++ s) ∷ []
unfolding split_words
split_words-name word [] h e =
    push_word-some word (ap (λ w. w == []) (sym (append-nil word)) ∙ e)
    ∙ ap (λ w. w ∷ []) (sym (append-nil word))
split_words-name word (c ∷ s) h e =
    let shape = append_assoc word (c ∷ []) s in
    if_false (is_separator c) _ _ (ground arith)
    ∙ split_words-name (word ++ c ∷ []) s (ground arith) (ap (λ w. w == []) shape ∙ e)
    ∙ ap (λ w. w ∷ []) shape

has-foldl-add :
    (xs ys : List Text) (k : Text)
    → has (foldl (λ (seen : List Text) x. add x seen) xs ys) k ≡ (has xs k || has ys k)
unfolding has
has-foldl-add xs [] k = ground arith
has-foldl-add xs (y ∷ ys) k = ground (arith, has-foldl-add (add y xs) ys k, has-add y xs k)

-- The words of all directives.
abbrev allowed_words : Text → List Text
allowed_words sql = flat_map (split_words []) (directives allow line_at 0 true sql)

allowed_words-line :
    (name rest : Text)
    → IsRuleName name
    → allowed_words (allow_line name ++ rest) ≡ name ∷ allowed_words rest
allowed_words-line name rest h =
    ap (flat_map (split_words [])) (directives-allow_line name rest h)
    ∙ ap (λ ws. ws ++ allowed_words rest) (split_words-name [] name h.1 h.0)

allowed_words-lines :
    (names : List Text) (rest : Text)
    → All IsRuleName names
    → allowed_words (allow_lines names ++ rest) ≡ names ++ allowed_words rest
allowed_words-lines [] rest h = refl
allowed_words-lines (name ∷ names) rest h =
    ap allowed_words (append_assoc (allow_line name) (allow_lines names) rest)
    ∙ allowed_words-line name (allow_lines names ++ rest) h.0
    ∙ ap (λ ws. name ∷ ws) (allowed_words-lines names rest h.1)

is_allowed :
    (names : List Text) (rest name : Text)
    → All IsRuleName names
    → has names name ≡ true
    → has (parse_allow_directives (allow_lines names ++ rest)) name ≡ true
unfolding parse_allow_directives has
is_allowed names rest name h k =
    has-foldl-add [] (allowed_words (allow_lines names ++ rest)) name
    ∙ ap (λ ws. has ws name) (allowed_words-lines names rest h)
    ∙ has-append names (allowed_words rest) name
    ∙ ap (λ b. b || has (allowed_words rest) name) k

-- Of the rules with an allowed name none is active.
active_rules-allowed :
    (allowed : List Text) (name : Text) (rules : List LintRule)
    → has allowed name ≡ true
    → active_rules allowed (keep (λ r. r.id == name) rules) ≡ []
active_rules-allowed allowed name [] h = refl
active_rules-allowed allowed name (r ∷ rules) h = ground (
  arith,
  active_rules-allowed allowed name rules h,
  eq_iff r.id name,
  ap (has allowed) {x = r.id} {y = name},
)

-- A text that starts with comments, one to a line, that allow some rules by their names, which
-- have no separators: no violation of such a rule is reported for it, whatever follows.
pub allowed_silent :
    (names : List Text) (rest name : Text) (parser : SqlParser) (rules : List LintRule)
    → All IsRuleName names
    → has names name ≡ true
    → keep (λ v. v.rule == name) (run_rules parser (allow_lines names ++ rest) rules) ≡ []
unfolding run_rules
allowed_silent names rest name parser rules h k =
    let sql = allow_lines names ++ rest in
    rules_isolated (λ id. id == name) parser sql rules
    ∙ ap (λ rs. if is_no_rule rs then [] else run_entries rs (parse_statements parser sql))
        (active_rules-allowed (parse_allow_directives sql) name rules
          (is_allowed names rest name h k))
